-- ===== src/Rtp/Header.antt =====
-- The validity check of an RTP packet, `rtp_hdr_val_chk` of src/rtp/rtp_recv.c, and the place and
-- size of its payload, the macros of src/nemesi/rtp.h.
mod Examples
use libnemesi.Common.{
  ℕ, ◌+◌, ◌-◌, ◌*◌, ◌%◌, ◌≤◌, ◌<◌, ◌≡◌, ◌↔◌, Bool, true, false, ◌&&◌, ◌||◌, arith, ltb, leb, ◌==◌,
  not, if◌then◌else◌,
}
use libnemesi.Packet.{Slot, byte, ver, pad, cc, pt, data_offset, pt-lt, pad-lt}

-- `*(((uint8_t *)pkt) + len - 1)`. For an empty datagram the C code reads in front of the packet;
-- it then refuses the packet whatever stands there.
unfoldable pub last_byte : Slot → ℕ → ℕ
last_byte p len = byte p (len - 1)

-- What a packet of `len` bytes must hold besides its payload: the part that `RTP_PAYLOAD_SIZE`
-- takes off.
unfoldable pub overhead : Slot → ℕ → ℕ
overhead p len = data_offset + cc p + last_byte p len * pad p

-- `RTP_PKT_DATA`, as an offset in the packet.
unfoldable pub payload_start : Slot → ℕ
payload_start p = data_offset + cc p

-- `RTP_PAYLOAD_SIZE` where it is not negative.
unfoldable pub payload_size : Slot → ℕ → ℕ
payload_size p len = len - overhead p len

-- `true` if the packet is refused. The differences of the C code are signed: a comparison with one
-- is written as a sum.
unfoldable pub rtp_hdr_val_chk : Slot → ℕ → Bool
rtp_hdr_val_chk p len =
    if ltb len (overhead p len)
    then true
    else if not (ver p == 2)
    then true
    else if leb 200 (pt p) && leb (pt p) 204
    then true
    else if ltb 0 (pad p) && ltb len (last_byte p len + data_offset)
    then true
    else if ltb 0 (cc p) && ltb len (cc p + data_offset + last_byte p len * pad p)
    then true
    else false

pad-mul : (p : Slot) (n : ℕ) → 0 < pad p → n * pad p ≡ n
pad-mul p n h = rw (let e : pad p ≡ 1 = omega (arith, pad-lt p) in e) (omega arith)

-- The check accepts a packet exactly when its version is 2 and it has room for the fixed header,
-- `cc` bytes and the padding that its last byte announces. The tests of the payload type, of the
-- padding and of the CSRC count refuse nothing more.
pub rtp_hdr_val_chk_lem :
    (p : Slot) (len : ℕ) → (rtp_hdr_val_chk p len ≡ false) ↔ ((ver p ≡ 2) × (overhead p len ≤ len))
unfolding rtp_hdr_val_chk overhead
rtp_hdr_val_chk_lem p len =
    (λ h. (ground arith, ground arith), λ h. ground (arith, pt-lt p, pad-mul p (last_byte p len)))

-- The payload of an accepted packet, as the parsers are given it, lies within the packet.
pub payload-le :
    (p : Slot) (len : ℕ)
    → rtp_hdr_val_chk p len ≡ false
    → payload_start p + payload_size p len ≤ len
unfolding payload_start payload_size overhead
payload-le p len h = omega (arith, (rtp_hdr_val_chk_lem p len).0 h)
