-- ===== src/Parsers/H264.antt =====
-- H.264 video, src/parsers/rtp_h264.c: single NAL units, aggregates (STAP-A) and fragments (FU-A).
pub mod Fragments
pub mod Dropped
pub mod Aggregate
mod Examples
use libnemesi.Common.{
  ℕ, zero, suc, ◌+◌, ◌-◌, ◌*◌, ◌/◌, ◌%◌, Bool, true, false, not, ◌&&◌, Option, none, some, List, [],
  ◌∷◌, ◌++◌, ltb, leb, ◌==◌, if◌then◌else◌, length,
}
use libnemesi.Packet.{Slot, byte, bytes_at, time}
use libnemesi.Rtp.Header.{payload_start, payload_size}
use libnemesi.Parsers.{
  Code, fill_ok, buff_empty, pkt_unknown, err_alloc, again, Output, Parsed, parsed, only, Buffer,
  Step, next, ◌>>=◌, after, nms_alloc_data, nms_append_incr, payload, emptied,
}

-- `rtp_h264`
pub record H264 : Type 0 where
  pub buffer : Buffer
  pub timestamp : ℕ
  pub conf : List ℕ
  pub configured : Bool

abbrev pub start_seq : List ℕ
start_seq = 0 ∷ 0 ∷ 0 ∷ 1 ∷ []

-- `nms_consume_BE2`
unfoldable pub nms_consume_be2 : Slot → ℕ → ℕ
nms_consume_be2 p i = byte p i * 256 + byte p (i + 1)

-- The rounds of the loop over an aggregate, from the offset `i` with `left` bytes left: what a NAL
-- unit that lies within them does to `a`. With at most two bytes left it ends; a size below 0 counts
-- as 0 here.
module _ {A : Type 0} (nal : ℕ → ℕ → A → A) (p : Slot) where
  unfoldable pub stap_loop : ℕ → ℕ → ℕ → A → A
  unfolding nms_consume_be2
  stap_loop zero i left a = a
  stap_loop (suc fuel) i left a =
      let size = nms_consume_be2 p i in
      let a' = if leb (size + 2) left then nal (i + 2) size a else a in
      let rest = stap_loop fuel (i + 2 + size) (left - 2 - size) a' in
      if ltb 2 (left - 2 - size) then rest else a'

-- The first pass counts.
unfoldable pub stap_length : Slot → ℕ → ℕ → ℕ
unfolding stap_loop
stap_length p i left = stap_loop (λ j size total. total + 4 + size) p (suc left) i left 0

-- The second pass copies.
unfoldable pub stap_copy : Slot → ℕ → ℕ → Buffer → Step
unfolding stap_loop nms_append_incr
stap_copy p i left b =
    stap_loop
      (λ j size m.
        m >>= λ b'. nms_append_incr start_seq b' >>= λ b''. nms_append_incr (bytes_at p j size) b'')
      p (suc left) i left (next b)

-- A single unit.
unfoldable pub put_single : (ℕ → Bool) → List ℕ → Buffer → Step
unfolding nms_alloc_data nms_append_incr
put_single mem xs b = nms_alloc_data mem (length xs + 4 + length b.held) b >>= λ b'.
    nms_append_incr start_seq b' >>= λ b''. nms_append_incr xs b''

-- An aggregate, behind the byte that says that it is one.
unfoldable pub put_stap : (ℕ → Bool) → Slot → ℕ → Buffer → Step
unfolding nms_alloc_data
put_stap mem p n b =
    let i = payload_start p + 1 in
    let left = payload_size p n - 1 in
    nms_alloc_data mem (stap_length p i left + length b.held) b >>= λ b'. stap_copy p i left b'

unfoldable pub start_bit : Slot → ℕ
start_bit p = byte p (payload_start p + 1) / 128

unfoldable pub end_bit : Slot → ℕ
end_bit p = byte p (payload_start p + 1) / 64 % 2

-- The header of the unit that is in fragments.
unfoldable pub reconstructed_nal : Slot → ℕ
reconstructed_nal p = byte p (payload_start p) / 32 * 32 + byte p (payload_start p + 1) % 32

-- A fragment behind its two bytes.
unfoldable pub fragment : Slot → ℕ → List ℕ
fragment p n = bytes_at p (payload_start p + 2) (payload_size p n - 2)

-- The last copy. A packet of less than two bytes has a size that wraps.
unfoldable pub append_fragment : Slot → ℕ → Buffer → Step
unfolding fragment nms_append_incr
append_fragment p n b =
    if ltb (payload_size p n) 2 then Step.fault else nms_append_incr (fragment p n) b

unfoldable pub put_first : (ℕ → Bool) → Slot → ℕ → Buffer → Step
unfolding nms_alloc_data nms_append_incr reconstructed_nal append_fragment
put_first mem p n b = nms_alloc_data mem (payload_size p n + 3 + length b.held) b >>= λ b1.
    nms_append_incr start_seq b1 >>= λ b2.
    nms_append_incr (reconstructed_nal p ∷ []) b2 >>= λ b3. append_fragment p n b3

unfoldable pub put_next : (ℕ → Bool) → Slot → ℕ → Buffer → Step
unfolding nms_alloc_data append_fragment
put_next mem p n b =
    nms_alloc_data mem (payload_size p n + length b.held - 2) b >>= λ b'. append_fragment p n b'

abbrev pub config_of : H264 → Option (List ℕ)
config_of s = if length s.conf == 0 then none else some s.conf

-- The call returns without a frame.
abbrev pub without : Code → Bool → H264 → Parsed H264
without code removed s =
    parsed
      (record {
        code = code;
        frame = none;
        config = config_of s;
        timestamp = none;
        removed = removed;
      })
      s

-- The call returns the frame that is in the buffer.
abbrev pub deliver : H264 → Buffer → Parsed H264
deliver s b =
    parsed
      (record {
        code = fill_ok;
        frame = some b.held;
        config = config_of s;
        timestamp = none;
        removed = true;
      })
      (record s { buffer = emptied b })

abbrev pub no_memory : H264 → Buffer → Parsed H264
no_memory s b = without err_alloc false (record s { buffer = b })

-- The end of a call that has put a fragment into the buffer.
unfoldable pub after_fragment : Slot → H264 → Buffer → Parsed H264
unfolding end_bit
after_fragment p s b =
    let s' = record s { buffer = b; timestamp = time p } in
    if end_bit p == 0 then without again true s' else deliver s' b

unfoldable pub parse_fu : (ℕ → Bool) → Slot → ℕ → H264 → Parsed H264
unfolding after
parse_fu mem p n s =
    if (start_bit p == 1) && (length s.buffer.held == 0)
    then after (put_first mem p n s.buffer) (after_fragment p s) (no_memory s)
    else if not (s.timestamp == time p)
    then parsed
        (record {
          code = pkt_unknown;
          frame = some [];
          config = config_of s;
          timestamp = none;
          removed = true;
        })
        (record s { buffer = emptied s.buffer })
    else after (put_next mem p n s.buffer) (after_fragment p s) (no_memory s)

abbrev pub nal_type : Slot → ℕ
nal_type p = byte p (payload_start p) % 32

-- The switch over the type of the unit.
unfoldable pub parse_unit : (ℕ → Bool) → Slot → ℕ → H264 → Parsed H264
unfolding put_single put_stap parse_fu after payload
parse_unit mem p n s =
    if leb 1 (nal_type p) && leb (nal_type p) 23
    then after (put_single mem (payload p n) s.buffer) (deliver s) (no_memory s)
    else if nal_type p == 24
    then after (put_stap mem p n s.buffer) (deliver s) (no_memory s)
    else if nal_type p == 28
    then parse_fu mem p n s
    else without pkt_unknown true s

unfoldable pub is_due : H264 → Bool
is_due s = not s.configured && ltb 0 (length s.conf)

-- The parameter sets put into the buffer.
unfoldable pub configure : (ℕ → Bool) → List ℕ → Buffer → Step
unfolding nms_alloc_data nms_append_incr
configure mem conf b = nms_alloc_data mem (length conf) b >>= λ b'. nms_append_incr conf b'

unfoldable pub h264_parse : (ℕ → Bool) → Option (Slot × ℕ) → H264 → Parsed H264
unfolding parse_unit is_due configure after
h264_parse mem none s = only buff_empty false s
h264_parse mem (some (p, n)) s =
    if is_due s
    then after (configure mem s.conf s.buffer)
        (λ b. parse_unit mem p n (record s { buffer = b; configured = true }))
        (λ b. only err_alloc false (record s { buffer = b }))
    else parse_unit mem p n s
