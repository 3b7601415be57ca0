-- ===== src/Parsers/M4v.antt =====
-- MPEG-4 video, src/parsers/rtp_m4v.c.
pub mod Frames
mod Examples
use libnemesi.Common.{
  ℕ, ◌+◌, ◌-◌, Bool, true, false, not, ◌&&◌, ◌||◌, Option, none, some, List, [], ltb, ◌==◌,
  if◌then◌else◌, length,
}
use libnemesi.Packet.{Slot}
use libnemesi.Rtp.Header.{payload_size}
use libnemesi.Parsers.{
  buff_empty, pkt_unknown, err_alloc, Output, Parsed, parsed, only, Buffer, Step, next, ◌>>=◌,
  after, resize, nms_alloc_data, nms_append_incr, payload, Assembly, new_buffer, emptied, finish,
  is_stray,
}

-- `rtp_m4v`
pub record M4v : Type 0 where
  pub assembly : Assembly
  pub conf : List ℕ
  pub configured : Bool

-- Whether the configuration goes in front of the frame.
unfoldable pub is_due : M4v → Bool
is_due s = not s.configured && (length s.assembly.buffer.held == 0) && ltb 0 (length s.conf)

-- The configuration put into the empty buffer. The size that is kept for it is that of the packet.
unfoldable pub configure : (ℕ → Bool) → ℕ → List ℕ → Buffer → Step
unfolding resize nms_append_incr
configure mem size conf b = resize mem (length conf) b >>= λ b'.
    nms_append_incr conf b' >>= λ b''. next (record b'' { data_size = size })

-- The packet put into the buffer.
unfoldable pub put : (ℕ → Bool) → List ℕ → Buffer → Step
unfolding nms_alloc_data nms_append_incr
put mem xs b = nms_alloc_data mem (length xs + length b.held) b >>= λ b'. nms_append_incr xs b'

abbrev pub config_of : M4v → Option (List ℕ)
config_of s = if length s.conf == 0 then none else some s.conf

-- The end of a call, for a state `s` that has its configuration in the buffer if it was due.
unfoldable pub put_packet : (ℕ → Bool) → Slot → ℕ → M4v → Buffer → Parsed M4v
unfolding put after finish payload
put_packet mem p n s b =
    after (put mem (payload p n) b)
      (λ b'.
        let (out, a) = finish p (config_of s) s.assembly b' in
        parsed out (record s { assembly = a }))
      (λ b'. only err_alloc false (record s { assembly = record (s.assembly) { buffer = b' } }))

unfoldable pub m4v_parse : (ℕ → Bool) → Option (Slot × ℕ) → M4v → Parsed M4v
unfolding is_stray is_due configure put_packet after
m4v_parse mem none s = only buff_empty false s
m4v_parse mem (some (p, n)) s =
    let a = s.assembly in
    if is_stray p a
    then only pkt_unknown false (record s { assembly = record a { buffer = emptied a.buffer } })
    else if is_due s
    then after (configure mem (payload_size p n) s.conf a.buffer)
        (λ b. put_packet mem p n (record s { configured = true }) b)
        (λ b. only err_alloc false (record s { assembly = record a { buffer = b } }))
    else put_packet mem p n s a.buffer
