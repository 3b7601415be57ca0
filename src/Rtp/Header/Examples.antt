-- ===== src/Rtp/Header/Examples.antt =====
-- The theorem on the validity check at a packet of 16 bytes.
use libnemesi.Common.{◌≤◌, ◌≡◌, ◌↔◌, false, [], ◌∷◌, replicate, ◌++◌}
use libnemesi.Packet.{Slot, ver}
use libnemesi.Rtp.Header.{overhead, rtp_hdr_val_chk, rtp_hdr_val_chk_lem}

-- Version 2, padding of one byte.
abbrev packet : Slot
packet = 160 ∷ 96 ∷ replicate 13 0 ++ (1 ∷ [])

rtp_hdr_val_chk_example :
    (rtp_hdr_val_chk packet 16 ≡ false) ↔ ((ver packet ≡ 2) × (overhead packet 16 ≤ 16))
rtp_hdr_val_chk_example = rtp_hdr_val_chk_lem packet 16
