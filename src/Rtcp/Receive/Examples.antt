-- ===== src/Rtcp/Receive/Examples.antt =====
-- The theorem on the packets of a datagram, at a receiver report with a BYE packet behind it.
use libnemesi.Common.{ℕ, ◌≡◌, refl, true, false, [], ◌∷◌}
use libnemesi.Packet.{Slot, byte}
use libnemesi.Rtcp.Packet.{common_ver, common_pad, common_pt, common_len}
use libnemesi.Rtcp.Check.{walk, first_valid, stops_at, rtcp_hdr_val_chk}
use libnemesi.Rtp.State.{epoch}
use libnemesi.Rtcp.Receive.Visit.{Visits, rtcp_parse_pkt-Visits}

abbrev leaving : Slot
leaving = 128 ∷ 201 ∷ 0 ∷ 1 ∷ 0 ∷ 0 ∷ 0 ∷ 7 ∷ 129 ∷ 203 ∷ 0 ∷ 1 ∷ 0 ∷ 0 ∷ 0 ∷ 7 ∷ []

leaving-accepted : rtcp_hdr_val_chk leaving 16 ≡ false
unfolding rtcp_hdr_val_chk walk first_valid stops_at common_ver common_pad common_pt common_len byte
leaving-accepted = refl

rtcp_parse_pkt-Visits_example : Visits ℕ epoch true leaving 16
rtcp_parse_pkt-Visits_example = rtcp_parse_pkt-Visits ℕ epoch true leaving 16 leaving-accepted
