-- ===== src/Rtsp/Describe.antt =====
-- The answer to DESCRIBE: handle_get_response of src/rtsp/rtsp_handlers.c. The length of the body is
-- left out, as reading the body is given.
use libnemesi.Common.{
  ℕ, zero, suc, ◌+◌, ◌-◌, Bool, true, false, ◌||◌, Option, none, some, List, [], ◌∷◌, ◌==◌,
  if◌then◌else◌, length, get_or, set,
}
use libnemesi.Rtsp.Text.{begins, skip_sep, return}
use libnemesi.Rtsp.Session.Layout.{Sessions, set_rtsp_sessions}
use libnemesi.Rtsp.Thread.{RtspThread}
use libnemesi.Rtsp.Send.{Ran, ret, crashed, Given}
use libnemesi.Rtsp.Open.{or_else}
use libnemesi.Rtsp.Token.{strtok_r, text_at}
use libnemesi.Rtsp.Buffer.{content_length}
use libnemesi.Rtsp.Handlers.{Scanned, ends_header, with_bytes, find_body, cleanup, on_first_line}

-- "Content-Type", "application/sdp" and "Content-Base"
abbrev pub content_type : List ℕ
content_type = 67 ∷ 111 ∷ 110 ∷ 116 ∷ 101 ∷ 110 ∷ 116 ∷ 45 ∷ 84 ∷ 121 ∷ 112 ∷ 101 ∷ []

abbrev pub application_sdp : List ℕ
application_sdp =
    97 ∷ 112 ∷ 112 ∷ 108 ∷ 105 ∷ 99 ∷ 97 ∷ 116 ∷ 105 ∷ 111 ∷ 110 ∷ 47 ∷ 115 ∷ 100 ∷ 112 ∷ []

abbrev pub content_base_key : List ℕ
content_base_key = 67 ∷ 111 ∷ 110 ∷ 116 ∷ 101 ∷ 110 ∷ 116 ∷ 45 ∷ 66 ∷ 97 ∷ 115 ∷ 101 ∷ []

-- Where a value begins, behind spaces and colons.
abbrev pub value_at : List ℕ → ℕ → ℕ
value_at bytes i = i + (length (text_at bytes i) - length (skip_sep (text_at bytes i)))

-- A last byte of the string at `base` that is `c` is overwritten by a 0.
unfoldable pub cut_last : ℕ → List ℕ → ℕ → List ℕ
cut_last c bytes base =
    let last = base + length (text_at bytes base) - 1 in
    if get_or bytes last 0 == c then set bytes last 0 else bytes

-- Whether the format is known, and where the content base begins.
abbrev pub Header : Type 0
Header = Bool × Option ℕ

-- One line: the bytes, where `prev_tkn` is moved to, and the header.
unfoldable pub read_line : List ℕ → ℕ → Header → List ℕ × ℕ × Header
unfolding cut_last
read_line bytes tkn (is_sdp, base) =
    let line = text_at bytes tkn in
    if begins line content_length
    then (bytes, value_at bytes (tkn + 14), (is_sdp, base))
    else if begins line content_type
    then (
      bytes,
      value_at bytes (tkn + 12),
      (begins (text_at bytes (value_at bytes (tkn + 12))) application_sdp || is_sdp, base),
    )
    else if begins line content_base_key
    then (
      cut_last 47 (cut_last return bytes (value_at bytes (tkn + 12))) (value_at bytes (tkn + 12)),
      value_at bytes (tkn + 12),
      (is_sdp, some (value_at bytes (tkn + 12))),
    )
    else (bytes, tkn, (is_sdp, base))

unfoldable pub describe_loop : ℕ → List ℕ → ℕ → ℕ → Header → Scanned Header
unfolding strtok_r read_line
describe_loop zero bytes step prev h = record { tkn = none; step = step; bytes = bytes; value = h }
describe_loop (suc fuel) bytes step prev h =
    let t = strtok_r bytes step in
    elim t.tkn [
      | none ↦ record { tkn = none; step = t.step; bytes = t.bytes; value = h }
      | some tkn ↦
          let (bytes', prev', h') = read_line t.bytes tkn h in
          let rest = describe_loop fuel bytes' t.step prev' h' in
          if ends_header t.bytes prev tkn
          then record { tkn = some tkn; step = t.step; bytes = t.bytes; value = h }
          else rest
    ]

abbrev pub base_at : List ℕ → Option ℕ → Option (List ℕ)
base_at bytes none = none
base_at bytes (some i) = some (text_at bytes i)

-- What follows set_rtsp_sessions.
unfoldable pub with_sessions : Given → RtspThread → Option Sessions → Ran
unfolding cleanup
with_sessions g t none = crashed
with_sessions g t (some (true, q)) = ret true (cleanup g (record t { rtsp_queue = q })) []
with_sessions g t (some (false, q)) = ret false (record t { rtsp_queue = q }) []

-- The thread after the header.
unfoldable pub header_read : RtspThread → Scanned Header → RtspThread
unfolding find_body
header_read t r =
    let bytes = find_body (suc (length r.bytes)) r.bytes r.step r.tkn in
    record (with_bytes t bytes) { is_sdp = r.value.0 }

unfoldable pub finish_get : Given → RtspThread → Scanned Header → Ran
unfolding header_read set_rtsp_sessions with_sessions
finish_get g t r =
    let t' = header_read t r in
    with_sessions g t' (
      set_rtsp_sessions g.parsers (or_else t'.urlname [])
        (record {
          is_sdp = t'.is_sdp;
          content_base = base_at t'.in_buffer.bytes r.value.1;
          mem_sess = g.mem_sess;
          mem_body = g.mem_body;
          info = g.info;
        })
        t'.rtsp_queue)

unfoldable pub handle_get_response : Given → RtspThread → Ran
unfolding on_first_line describe_loop finish_get
handle_get_response g t = on_first_line g t (λ prev step t'. finish_get g t' (
    describe_loop (suc (length t'.in_buffer.bytes)) t'.in_buffer.bytes step prev (t'.is_sdp, none)))
