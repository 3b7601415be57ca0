-- ===== src/Rtcp/Check/Examples.antt =====
-- The theorem on the validity check, at a receiver report with a BYE packet behind it.
use libnemesi.Common.{◌≡◌, ◌≤◌, ◌↔◌, ◌⊎◌, false, [], ◌∷◌}
use libnemesi.Packet.{Slot}
use libnemesi.Rtcp.Check.{rtcp_hdr_val_chk}
use libnemesi.Rtcp.Check.Tiles.{IsCompound, IsSingle, rtcp_hdr_val_chk_lem}

abbrev leaving : Slot
leaving = 128 ∷ 201 ∷ 0 ∷ 1 ∷ 0 ∷ 0 ∷ 0 ∷ 7 ∷ 129 ∷ 203 ∷ 0 ∷ 1 ∷ 0 ∷ 0 ∷ 0 ∷ 7 ∷ []

rtcp_hdr_val_chk_lem_example :
    (rtcp_hdr_val_chk leaving 16 ≡ false)
    ↔ ((4 ≤ 16) × (IsCompound leaving 16 ⊎ IsSingle leaving 16))
rtcp_hdr_val_chk_lem_example = rtcp_hdr_val_chk_lem leaving 16
