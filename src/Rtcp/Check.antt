-- ===== src/Rtcp/Check.antt =====
-- The validity check of a received datagram, rtcp_hdr_val_chk of src/rtcp/rtcp_recv.c.
pub mod Tiles
mod Examples
use libnemesi.Common.{
  ℕ, zero, suc, ◌+◌, ◌-◌, ◌*◌, ◌/◌, ◌^◌, Bool, true, false, ◌&&◌, ◌||◌, not, Option, none, some,
  ltb, leb, ◌==◌, if◌then◌else◌,
}
use libnemesi.Packet.{Slot, byte}
use libnemesi.Rtcp.Packet.{common_ver, common_pad, common_pt, common_len, raw_len}

-- Where the packet behind the one at `w` begins.
abbrev pub following : Slot → ℕ → ℕ
following p w = w + common_len p w + 1

-- The do-while loop over the packets: where it stops. `none`: out of fuel.
unfoldable pub walk : Slot → ℕ → ℕ → ℕ → Option ℕ
walk p end zero w = none
walk p end (suc fuel) w =
    let rest = walk p end fuel (following p w) in
    if ltb (following p w) end && common_ver p (following p w) == 2
    then rest
    else some (following p w)

-- `(*(uint16_t *) pkt & RTCP_VALID_MASK) == RTCP_VALID_VALUE`: version 2, no padding, and a payload
-- type of 200 or 201.
unfoldable pub first_valid : Slot → Bool
first_valid p = byte p 0 / 32 == 4 && byte p 1 / 2 == 100

unfoldable pub stops_at : Option ℕ → ℕ → Bool
stops_at none end = false
stops_at (some w) end = w == end

-- `true` if the datagram of `n` bytes is refused. Each round of the walk goes on by at least a word.
unfoldable pub rtcp_hdr_val_chk : Slot → ℕ → Bool
unfolding walk first_valid stops_at
rtcp_hdr_val_chk p n =
    if ltb n 4
    then true
    else if ltb (common_len p 0 + 1) (n / 4)
    then (if not (first_valid p) then true else not (stops_at (walk p (n / 4) (n / 4) 0) (n / 4)))
    else if not (common_ver p 0 == 2)
    then true
    else if not (leb 200 (common_pt p 0) && leb (common_pt p 0) 204)
    then true
    else not (common_pad p 0 == 0) && ltb (raw_len p 0 * 4) (byte p (n - 1))
