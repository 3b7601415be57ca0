-- ===== src/Packet.antt =====
-- The RTP packet of src/nemesi/rtp.h as it lies in a slot of the buffer pool: a list of bytes, and
-- the fields of the header's bit-field read out of it. Multi-byte fields come in host order, as
-- ntohs and ntohl give them.
use libnemesi.Common.{
  ℕ, zero, suc, [], ◌∷◌, ◌+◌, ◌*◌, ◌/◌, ◌%◌, ◌<◌, List, arith, get_or, length, ◌≡◌, refl, ap,
}

-- `bp_slot`: the bytes of one slot.
abbrev pub Slot : Type 0
Slot = List ℕ

-- A read through `uint8_t *`. Past the end of the list it gives 0.
unfoldable pub byte : Slot → ℕ → ℕ
byte p i = get_or p i 0 % 256

-- `len` bytes at `i`
unfoldable pub bytes_at : Slot → ℕ → ℕ → List ℕ
bytes_at p i zero = []
bytes_at p i (suc len) = byte p i ∷ bytes_at p (i + 1) len

unfoldable pub ver : Slot → ℕ
ver p = byte p 0 / 64

unfoldable pub pad : Slot → ℕ
pad p = byte p 0 / 32 % 2

unfoldable pub ext : Slot → ℕ
ext p = byte p 0 / 16 % 2

unfoldable pub cc : Slot → ℕ
cc p = byte p 0 % 16

unfoldable pub mark : Slot → ℕ
mark p = byte p 1 / 128

unfoldable pub pt : Slot → ℕ
pt p = byte p 1 % 128

-- `RTP_PKT_SEQ`
unfoldable pub seq : Slot → ℕ
seq p = byte p 2 * 256 + byte p 3

-- Four bytes at `i`, most significant first.
unfoldable pub word : Slot → ℕ → ℕ
word p i = ((byte p i * 256 + byte p (i + 1)) * 256 + byte p (i + 2)) * 256 + byte p (i + 3)

-- `RTP_PKT_TS`
unfoldable pub time : Slot → ℕ
time p = word p 4

-- `RTP_PKT_SSRC`
unfoldable pub ssrc : Slot → ℕ
ssrc p = word p 8

-- The offset of `data` in `rtp_pkt`.
abbrev pub data_offset : ℕ
data_offset = 12

pub byte-lt : (p : Slot) (i : ℕ) → byte p i < 256
unfolding byte
byte-lt p i = omega arith

pub seq-lt : (p : Slot) → seq p < 65536
unfolding seq
seq-lt p = omega (arith, byte-lt p 2, byte-lt p 3)

pub pt-lt : (p : Slot) → pt p < 128
unfolding pt
pt-lt p = omega arith

pub pad-lt : (p : Slot) → pad p < 2
unfolding pad
pad-lt p = omega arith

pub length-bytes_at : (p : Slot) (i n : ℕ) → length (bytes_at p i n) ≡ n
unfolding bytes_at
length-bytes_at p i zero = refl
length-bytes_at p i (suc n) = ap suc (length-bytes_at p (i + 1) n)
