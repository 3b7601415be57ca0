-- ===== src/Rtsp/Reply.antt =====
-- What the client makes of an answer's first line and of its number: check_response of
-- src/rtsp/rtsp_internals.c and check_status of the same file.
pub mod Awaited
pub mod Refused
use libnemesi.Common.{
  ℕ, zero, suc, ◌+◌, ◌-◌, ◌%◌, ◌^◌, Bool, true, false, ◌&&◌, ◌||◌, not, Option, none, some, List,
  [], ◌∷◌, ltb, leb, ◌==◌, if◌then◌else◌, length, get_or, drop,
}
use libnemesi.Common.Int.{ℤ, pos, negsuc}
use libnemesi.Rtsp.Text.{
  newline, return, c_str, begins, strcasestr, strchr, skip_sep, skip_space, skip_word, scan_int,
  same, to_size,
}
use libnemesi.Rtsp.Buffer.{RtspBuffer}
use libnemesi.Rtsp.Session.{RtspSession, session_at, get_session_str}
use libnemesi.Rtsp.Thread.{RtspThread, WaitFor, is_num, get_response, setup_response}
use libnemesi.Rtsp.Send.{Request, Ran, ret, crashed, Given}
use libnemesi.Rtsp.Open.{rtsp_open}
use libnemesi.Rtsp.Token.{Token, strtok_r, text_at}

-- What check_response returns: -1, or the code of the response that was waited for, or 0 where the
-- answer is not that one. `faulty`: it compares with the name of no session.
pub data Opcode : Type 0 where
  minus_one faulty : Opcode
  opcode : ℕ → Opcode

-- "CSeq", "Session" and "Location"
abbrev pub cseq_key : List ℕ
cseq_key = 67 ∷ 83 ∷ 101 ∷ 113 ∷ []

abbrev pub session_key : List ℕ
session_key = 83 ∷ 101 ∷ 115 ∷ 115 ∷ 105 ∷ 111 ∷ 110 ∷ []

abbrev pub location_key : List ℕ
location_key = 76 ∷ 111 ∷ 99 ∷ 97 ∷ 116 ∷ 105 ∷ 111 ∷ 110 ∷ []

abbrev pub or_junk : Option ℤ → ℤ → ℤ
or_junk none junk = junk
or_junk (some n) junk = n

-- The name of the session that `wait_for.session_id` points to; a session that is no longer there is
-- taken like NULL.
abbrev pub name_of : List RtspSession → Option ℕ → Option (List ℕ)
name_of q none = none
name_of q (some i) = if ltb i (length q) then some (session_at q i).session_id else none

-- The comparison of the name in an answer with the one that is waited for.
unfoldable pub same_session : Option (List ℕ) → List ℕ → Opcode → Opcode
same_session none name ok = faulty
same_session (some wait) name ok = if same name wait then ok else opcode 0

unfoldable pub check_session : RtspThread → Option (List ℕ) → Opcode → Opcode
unfolding same_session get_session_str
check_session t none ok = ok
check_session t (some at) ok = elim (get_session_str (drop 7 at)) [
  | none ↦ opcode 0
  | some name ↦ same_session (name_of t.rtsp_queue t.wait_for.session_id) name ok
]

-- The switch, by the answer's number.
unfoldable pub check_wait : RtspThread → Option (List ℕ) → ℤ → Opcode
unfolding check_session
check_wait t session cseq =
    let numbered : ℕ → Opcode =
      λ res. if is_num t.wait_for.cseq cseq then opcode res else opcode 0 in
    if t.wait_for.res == get_response
    then (if is_num 1 cseq then opcode get_response else opcode 0)
    else if t.wait_for.res == setup_response
    then numbered setup_response
    else check_session t session (numbered t.wait_for.res)

unfoldable pub check_content : Given → RtspThread → List ℕ → Option (List ℕ) → Opcode
unfolding check_wait
check_content g t content none = minus_one
check_content g t content (some at) =
    check_wait t (strcasestr content session_key) (or_junk (scan_int (skip_sep (drop 5 at))) g.junk)

unfoldable pub check_response : Given → RtspThread → Opcode
unfolding check_content
check_response g t = elim (strchr (c_str t.in_buffer.bytes) newline) [
  | none ↦ minus_one
  | some content ↦ check_content g t content (strcasestr content cseq_key)
]

-- `sscanf(status_line, "%31s %hu ", ver, &res_state)`: the number, if both are there.
abbrev pub is_nonempty : List ℕ → Bool
is_nonempty [] = false
is_nonempty (c ∷ s) = true

abbrev pub short_of : Option ℤ → Option ℕ
short_of none = none
short_of (some n) = some (to_size n % 2 ^ 16)

abbrev pub scan_status : List ℕ → Option ℕ
scan_status line =
    let word = skip_space line in
    if is_nonempty word then short_of (scan_int (skip_word 31 word)) else none

-- Whether a reason stands in the line: `none` where there is not even a space, so that the code
-- searches from NULL on.
unfoldable pub reason_phrase : List ℕ → Option Bool
reason_phrase line = elim (strchr line 32) [
  | none ↦ none
  | some at ↦ elim (strchr (drop 1 at) 32) [ none ↦ some false | some reason ↦ some true ]
]

-- The loop over the lines behind the first, by the offsets of the line before: the last location.
unfoldable pub location_loop : ℕ → List ℕ → ℕ → ℕ → Option (List ℕ) → Option (List ℕ)
unfolding strtok_r
location_loop zero bytes step prev location = location
location_loop (suc fuel) bytes step prev location =
    let t = strtok_r bytes step in
    let found = begins (text_at t.bytes prev) location_key in
    let location' = if found then some (skip_sep (drop 8 (text_at t.bytes prev))) else location in
    elim t.tkn [
      | none ↦ location
      | some tkn ↦
          let rest = location_loop fuel t.bytes t.step tkn location' in
          if not (ltb 1 (tkn - prev)) || ((tkn - prev) == 2 && get_or t.bytes prev 0 == return)
          then location
          else rest
    ]

-- The redirection: the client opens the place that it is sent to. The 0s that strtok_r writes are
-- not kept in the buffer: after a redirection the handler fails, and the buffer is emptied.
unfoldable pub redirect : Given → RtspThread → List ℕ → Ran
unfolding strtok_r location_loop rtsp_open
redirect g t line =
    let first = strtok_r t.in_buffer.bytes (length line + 1) in
    elim first.tkn [
      | none ↦ ret false t []
      | some prev ↦ elim (location_loop (length first.bytes) first.bytes first.step prev none) [
        | none ↦ ret false t []
        | some url ↦ rtsp_open g t (some url)
      ]
    ]

abbrev pub failing : Ran → Ran
failing (ret ok t rs) = ret false t rs
failing crashed = crashed

-- A status that is not a success. The reason is printed.
unfoldable pub unsuccessful : Given → RtspThread → List ℕ → Bool → ℕ → Ran
unfolding redirect
unsuccessful g t line reason code =
    if leb 300 code && (g.prints && not reason)
    then crashed
    else if code == 302
    then failing (redirect g t line)
    else ret false t []

-- `true` where check_status does not return -1.
unfoldable pub check_status : Given → RtspThread → List ℕ → Ran
unfolding reason_phrase unsuccessful
check_status g t line = elim (scan_status line) [
  | none ↦ ret false t []
  | some code ↦ elim (reason_phrase line) [
    | none ↦ crashed
    | some reason ↦
        let t' = record t { response_id = pos code } in
        if leb 200 code && ltb code 300 then ret true t' [] else unsuccessful g t' line reason code
  ]
]
