-- ===== src/Parsers/Mpv.antt =====
-- MPEG video, src/parsers/rtp_mpv.c.
pub mod Frames
use libnemesi.Common.{
  ℕ, ◌+◌, ◌-◌, ◌/◌, ◌%◌, ◌^◌, Bool, true, false, not, ◌&&◌, Option, none, some, List, ltb, ◌==◌,
  if◌then◌else◌, length,
}
use libnemesi.Packet.{Slot, byte, bytes_at}
use libnemesi.Rtp.Header.{payload_start, payload_size}
use libnemesi.Parsers.{
  buff_empty, pkt_unknown, err_alloc, Parsed, only, Buffer, Step, ◌>>=◌, after, nms_alloc_data,
  nms_append_incr, Assembly, new_buffer, emptied, finish, is_stray, ended,
}

-- The bits T and B of the header, on a little-endian host.
unfoldable pub bit_t : Slot → ℕ
bit_t p = byte p (payload_start p) / 4 % 2

unfoldable pub bit_b : Slot → ℕ
bit_b p = byte p (payload_start p + 2) / 16 % 2

-- The bytes in front of the data.
unfoldable pub header_len : Slot → ℕ
unfolding bit_t
header_len p = if bit_t p == 0 then 4 else 8

unfoldable pub content : Slot → ℕ → List ℕ
unfolding header_len
content p n = bytes_at p (payload_start p + header_len p) (payload_size p n - header_len p)

-- The state after calloc; `none` where there is no memory.
unfoldable pub mpv_init_parser : Bool → Option Assembly
unfolding new_buffer
mpv_init_parser mem = if mem then some (record { buffer = new_buffer; timestamp = 0 }) else none

-- The packet put into the buffer. A packet that is shorter than its header has a size that wraps,
-- and no memory holds so much.
unfoldable pub put : (ℕ → Bool) → Slot → ℕ → Buffer → Step
unfolding nms_alloc_data nms_append_incr header_len content
put mem p n b =
    let size = (payload_size p n + 2 ^ 64 - header_len p) % 2 ^ 64 in
    nms_alloc_data mem ((size + length b.held) % 2 ^ 64) b >>= λ b'.
    if ltb (payload_size p n) (header_len p) then Step.fault else nms_append_incr (content p n) b'

unfoldable pub mpv_parse : (ℕ → Bool) → Option (Slot × ℕ) → Assembly → Parsed Assembly
unfolding put is_stray bit_b after finish
mpv_parse mem none s = only buff_empty false s
mpv_parse mem (some (p, n)) s =
    if is_stray p s
    then only pkt_unknown false (record s { buffer = emptied s.buffer })
    else if (length s.buffer.held == 0) && (bit_b p == 0)
    then only pkt_unknown true s
    else after (put mem p n s.buffer) (λ b. ended (finish p none s b))
        (λ b. only err_alloc false (record s { buffer = b }))
