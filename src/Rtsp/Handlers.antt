-- ===== src/Rtsp/Handlers.antt =====
-- The handlers of the answers, src/rtsp/rtsp_handlers.c.
pub mod Effect
use libnemesi.Common.{
  ℕ, zero, suc, ◌+◌, ◌-◌, Bool, true, false, ◌&&◌, ◌||◌, not, Option, none, some, List, [], ◌∷◌,
  ltb, ◌==◌, if◌then◌else◌, length, get_or, set,
}
use libnemesi.Rtsp.Text.{newline, return, begins, skip_sep}
use libnemesi.Rtsp.Buffer.{RtspBuffer, remove_pkt}
use libnemesi.Rtsp.Session.{RtspSession, session_at, get_session_str}
use libnemesi.Rtsp.Session.Layout.{Description, set_rtsp_sessions}
use libnemesi.Rtsp.Thread.{RtspThread, no_wait}
use libnemesi.Rtsp.Send.{Request, Ran, ret, crashed, Given, put_session, nonempty}
use libnemesi.Rtsp.Open.{or_else}
use libnemesi.Rtsp.Token.{Token, strtok_r, text_at}
use libnemesi.Rtsp.Reply.{session_key, check_status}

abbrev pub with_bytes : RtspThread → List ℕ → RtspThread
with_bytes t bytes = record t { in_buffer = record (t.in_buffer) { bytes = bytes } }

unfoldable pub cleanup : Given → RtspThread → RtspThread
unfolding remove_pkt
cleanup g t = record t {
  in_buffer = remove_pkt g.mem_rest g.beyond t.in_buffer;
  wait_for = no_wait;
}

-- After check_status: a failure takes the packet out of the buffer.
unfoldable pub on_success : Given → Ran → (RtspThread → Ran) → Ran
unfolding remove_pkt
on_success g crashed rest = crashed
on_success g (ret true t rs) rest = rest t
on_success g (ret false t rs) rest =
    ret false (record t { in_buffer = remove_pkt g.mem_rest g.beyond t.in_buffer }) rs

-- The first line, and what is done with the thread whose buffer is cut there.
unfoldable pub on_first_line : Given → RtspThread → (ℕ → ℕ → RtspThread → Ran) → Ran
unfolding strtok_r check_status on_success
on_first_line g t rest =
    let first = strtok_r t.in_buffer.bytes 0 in
    elim first.tkn [
      | none ↦ ret false t []
      | some prev ↦
          on_success g (check_status g (with_bytes t first.bytes) (text_at first.bytes prev))
            (λ t'. rest prev first.step t')
    ]

-- The code of handle_teardown_response, handle_pause_response and handle_play_response.
unfoldable pub handle_plain_response : Given → RtspThread → Ran
unfolding on_first_line cleanup
handle_plain_response g t = on_first_line g t (λ prev step t'. ret true (cleanup g t') [])

-- Where a loop over the lines of a header ends: the last token, if there is one, where the search
-- goes on, the bytes, and what was read.
pub record Scanned (A : Type 0) : Type 0 where
  pub tkn : Option ℕ
  pub step : ℕ
  pub bytes : List ℕ
  pub value : A

-- The end of the header: the line before is empty, or begins with a carriage return and is one byte
-- long. `prev` may have been moved on within its line.
abbrev pub ends_header : List ℕ → ℕ → ℕ → Bool
ends_header bytes prev tkn =
    not (ltb 1 (tkn - prev)) || ((tkn - prev) == 2 && get_or bytes prev 0 == return)

-- "Transport"
abbrev pub transport_key : List ℕ
transport_key = 84 ∷ 114 ∷ 97 ∷ 110 ∷ 115 ∷ 112 ∷ 111 ∷ 114 ∷ 116 ∷ []

-- One round of the loop of handle_setup_response, with the session's name. What get_transport_str
-- does to the medium's transport is left out.
unfoldable pub setup_line :
    List ℕ → ℕ → ℕ → ℕ → List ℕ → (ℕ → List ℕ → Scanned (List ℕ)) → Scanned (List ℕ)
unfolding get_session_str
setup_line bytes step prev tkn name goes_on =
    let prev' = if begins (text_at bytes tkn) transport_key then tkn + 9 else tkn in
    let stopped : Scanned (List ℕ) = record {
      tkn = some tkn;
      step = step;
      bytes = bytes;
      value = name;
    } in
    if ends_header bytes prev tkn
    then stopped
    else if begins (text_at bytes prev') session_key
    then elim (get_session_str (text_at bytes (prev' + 7))) [
      | none ↦ stopped
      | some s ↦ goes_on (prev' + 7) s
    ]
    else goes_on prev' name

unfoldable pub setup_loop : ℕ → List ℕ → ℕ → ℕ → List ℕ → Scanned (List ℕ)
unfolding strtok_r setup_line
setup_loop zero bytes step prev name = record {
  tkn = none;
  step = step;
  bytes = bytes;
  value = name;
}
setup_loop (suc fuel) bytes step prev name =
    let t = strtok_r bytes step in
    let rest : ℕ → List ℕ → Scanned (List ℕ) = λ p n. setup_loop fuel t.bytes t.step p n in
    elim t.tkn [
      | none ↦ record { tkn = none; step = t.step; bytes = t.bytes; value = name }
      | some tkn ↦ setup_line t.bytes t.step prev tkn name rest
    ]

-- `*tkn == '\r' || *tkn == '\n' || *tkn == '\0'`
abbrev pub is_blank : ℕ → Bool
is_blank c = (c == return) || ((c == newline) || (c == 0))

-- "looking for body or next pkt start": the lines that begin with a carriage return are left out, and
-- the newline of the line that is found is put back.
unfoldable pub find_body : ℕ → List ℕ → ℕ → Option ℕ → List ℕ
unfolding strtok_r
find_body zero bytes step tkn = bytes
find_body (suc fuel) bytes step none = bytes
find_body (suc fuel) bytes step (some tkn) =
    let t = strtok_r bytes step in
    let rest = find_body fuel t.bytes t.step t.tkn in
    if is_blank (get_or bytes tkn 0)
    then rest
    else set bytes (tkn + length (text_at bytes tkn)) newline

-- The name is written into the session `i`, and the packet is taken out.
unfoldable pub finish_setup : Given → RtspThread → ℕ → Scanned (List ℕ) → Ran
unfolding find_body cleanup
finish_setup g t i r =
    let bytes = find_body (suc (length r.bytes)) r.bytes r.step r.tkn in
    let s = session_at t.rtsp_queue i in
    let t' = put_session (with_bytes t bytes) i (record s { session_id = r.value }) in
    ret true (cleanup g t') []

unfoldable pub read_setup : Given → RtspThread → ℕ → Ran
unfolding on_first_line setup_loop finish_setup
read_setup g t i = on_first_line g t (λ prev step t'. finish_setup g t' i (
    setup_loop (suc (length t'.in_buffer.bytes)) t'.in_buffer.bytes step prev
      (session_at t'.rtsp_queue i).session_id))

unfoldable pub handle_setup_response : Given → RtspThread → Ran
unfolding read_setup
handle_setup_response g t = elim t.cursor.static_sess [
  | none ↦ ret false t []
  | some i ↦ elim t.cursor.static_med [ none ↦ ret false t [] | some m ↦ read_setup g t i ]
]
