-- ===== src/Rtcp/Sdes/Examples.antt =====
-- The theorem on source descriptions, at a packet with one item, a CNAME of two bytes.
use libnemesi.Common.{ℕ, ◌≡◌, ◌<◌, refl, true, [], ◌∷◌, arith, if◌then◌else◌, ◌==◌}
use libnemesi.Packet.{bytes_at, Slot, byte}
use libnemesi.Rtp.State.{Member, zero_member}
use libnemesi.Rtcp.Packet.{common_count, raw_len}
use libnemesi.Rtcp.Sdes.{done, rtcp_parse_sdes}
use libnemesi.Rtcp.Sdes.Learn.{Item, Laid, learn, items_end, first_item, rtcp_parse_sdes-learn}

abbrev cname : Slot
cname = 129 ∷ 202 ∷ 0 ∷ 3 ∷ 0 ∷ 0 ∷ 0 ∷ 7 ∷ 1 ∷ 2 ∷ 97 ∷ 98 ∷ 0 ∷ 0 ∷ 0 ∷ 0 ∷ []

abbrev item : Item
item = record { type = 1; text = 97 ∷ 98 ∷ [] }

abbrev member : Member ℕ
member = zero_member 0

cname_count : common_count cname 0 ≡ 1
unfolding common_count byte
cname_count = refl

cname_end : first_item 0 < items_end cname 0
unfolding raw_len byte
cname_end = omega arith

cname-Laid : Laid cname (items_end cname 0) (first_item 0) (item ∷ []) 12
unfolding raw_len byte bytes_at
cname-Laid = (refl, omega arith, omega arith, refl, refl, omega arith, (refl, refl))

rtcp_parse_sdes-learn_example :
    rtcp_parse_sdes true cname 0 member
    ≡ done 0 (record member {
      ssrc_sdes = learn (item ∷ []) member.ssrc_sdes;
      ssrc_stats =
          if member.ssrc_stats.probation == 0
          then member.ssrc_stats
          else record (member.ssrc_stats) { probation = 1 };
    })
rtcp_parse_sdes-learn_example =
    rtcp_parse_sdes-learn cname 0 12 (item ∷ []) member cname_count cname_end cname-Laid
