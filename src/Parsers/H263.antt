-- ===== src/Parsers/H263.antt =====
-- H.263 video, src/parsers/rtp_h263.c.
pub mod Frames
mod Examples
use libnemesi.Common.{
  ℕ, ◌+◌, ◌-◌, ◌*◌, ◌/◌, ◌%◌, Bool, true, false, ◌&&◌, ◌||◌, Option, none, some, List, [], ltb,
  ◌==◌, if◌then◌else◌, length, set,
}
use libnemesi.Packet.{Slot, byte, bytes_at}
use libnemesi.Rtp.Header.{payload_start, payload_size}
use libnemesi.Parsers.{
  buff_empty, pkt_unknown, err_alloc, Parsed, only, Buffer, Step, ◌>>=◌, after, nms_alloc_data,
  nms_append_incr, Assembly, new_buffer, emptied, finish, is_stray, ended,
}

unfoldable pub bit_p : Slot → ℕ
bit_p p = byte p (payload_start p) / 4 % 2

unfoldable pub bit_v : Slot → ℕ
bit_v p = byte p (payload_start p) / 2 % 2

-- `plen`
unfoldable pub header_bytes : Slot → ℕ
header_bytes p = byte p (payload_start p + 1) / 8 + byte p (payload_start p) % 2 * 32

-- How many bytes are skipped: with the P bit the first two are kept, to be overwritten.
unfoldable pub start : Slot → ℕ
unfolding bit_p bit_v header_bytes
start p = (if bit_p p == 0 then 2 else 0) + bit_v p + header_bytes p

unfoldable pub h263_init_parser : Bool → Option Assembly
unfolding new_buffer
h263_init_parser mem = if mem then some (record { buffer = new_buffer; timestamp = 0 }) else none

-- The first two bytes as zeros.
unfoldable pub zeroed : List ℕ → List ℕ
zeroed xs = set (set xs 0 0) 1 0

unfoldable pub fragment : Slot → ℕ → List ℕ
unfolding start bit_p zeroed
fragment p n =
    let xs = bytes_at p (payload_start p + start p) (payload_size p n - start p) in
    if bit_p p == 0 then xs else zeroed xs

-- The packet put into the buffer. A size that wraps is negative for nms_alloc_data, which then gets
-- no memory, and too large for the copy. The zeros are written also where the packet has no two
-- bytes.
unfoldable pub put : (ℕ → Bool) → Slot → ℕ → Buffer → Step
unfolding nms_alloc_data nms_append_incr start bit_p fragment
put mem p n b =
    if ltb (payload_size p n) (start p)
    then Step.fault
    else nms_alloc_data mem (payload_size p n - start p + length b.held) b >>= λ b'.
        if (bit_p p == 1) && ltb b'.data_size (length b'.held + 2)
        then Step.fault
        else nms_append_incr (fragment p n) b'

unfoldable pub h263_parse : (ℕ → Bool) → Option (Slot × ℕ) → Assembly → Parsed Assembly
unfolding put is_stray bit_p after finish
h263_parse mem none s = only buff_empty false s
h263_parse mem (some (p, n)) s =
    if is_stray p s
    then only pkt_unknown false (record s { buffer = emptied s.buffer })
    else if (length s.buffer.held == 0) && (bit_p p == 0)
    then only pkt_unknown true s
    else after (put mem p n s.buffer) (λ b. ended (finish p (some []) s b))
        (λ b. only err_alloc false (record s { buffer = b }))
