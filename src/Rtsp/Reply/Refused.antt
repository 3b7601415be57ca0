-- ===== src/Rtsp/Reply/Refused.antt =====
-- An answer whose status is not a success.
use libnemesi.Common.{
  ℕ, suc, ◌≡◌, refl, sym, subst, Bool, true, false, ◌&&◌, Option, none, some, List, [], arith, leb,
  ltb, Option-cases, inl, inr, length,
}
use libnemesi.Common.Int.{pos}
use libnemesi.Rtsp.Thread.{RtspThread}
use libnemesi.Rtsp.Session.{session_at}
use libnemesi.Rtsp.Send.{Request, Ran, ret, crashed, Given}
use libnemesi.Rtsp.Token.{strtok_r, text_at}
use libnemesi.Rtsp.Reply.{failing, redirect, scan_status, reason_phrase, unsuccessful, check_status}
use libnemesi.Rtsp.Handlers.{
  with_bytes, cleanup, setup_loop, finish_setup, on_success, on_first_line, handle_plain_response,
  read_setup, handle_setup_response,
}
use libnemesi.Rtsp.Handlers.Effect.{Post}
use libnemesi.Rtsp.Describe.{finish_get, describe_loop, handle_get_response}
use libnemesi.Rtsp.Machine.{if_ok}

-- The first line of the buffer has a status code that is not a success.
pub record IsRefusal (t : RtspThread) : Type 0 where
  pub line : ℕ
  pub first : (strtok_r t.in_buffer.bytes 0).tkn ≡ some line
  pub code : ℕ
  pub scanned : scan_status (text_at (strtok_r t.in_buffer.bytes 0).bytes line) ≡ some code
  pub unsuccessful : (leb 200 code && ltb code 300) ≡ false

abbrev pub Fails : Bool → RtspThread → List Request → Type 0
Fails ok t rs = ok ≡ false

failing-Fails : (r : Ran) → Post Fails (failing r)
failing-Fails (ret ok t rs) = refl
failing-Fails crashed = tt

unsuccessful-Fails :
    (g : Given) (t : RtspThread) (line : List ℕ) (reason : Bool) (code : ℕ)
    → Post Fails (unsuccessful g t line reason code)
unfolding unsuccessful
unsuccessful-Fails g t line reason code = ground (arith, failing-Fails (redirect g t line))

status-Fails :
    (g : Given) (t : RtspThread) (line : List ℕ) (code : ℕ)
    → scan_status line ≡ some code
    → (leb 200 code && ltb code 300) ≡ false
    → Post Fails (check_status g t line)
unfolding check_status
status-Fails g t line code s u = elim (Option-cases (reason_phrase line)) [
  | inl e ↦ rw (check_status, s, e) tt
  | inr (reason, e) ↦
      rw (check_status, s, e, u)
        (unsuccessful-Fails g (record t { response_id = pos code }) line reason code)
]

on_success-Fails :
    (g : Given) (r : Ran) (rest : RtspThread → Ran)
    → Post Fails r
    → Post Fails (on_success g r rest)
unfolding on_success
on_success-Fails g crashed rest h = tt
on_success-Fails g (ret true t rs) rest h = cc
on_success-Fails g (ret false t rs) rest h = refl

first_line-Fails :
    (g : Given) (t : RtspThread) (rest : ℕ → ℕ → RtspThread → Ran)
    → IsRefusal t
    → Post Fails (on_first_line g t rest)
unfolding on_first_line
first_line-Fails g t rest v =
    subst
      (λ o. Post Fails (elim o [
        | none ↦ ret false t []
        | some prev ↦
            on_success g
              (check_status g (with_bytes t (strtok_r t.in_buffer.bytes 0).bytes)
                (text_at (strtok_r t.in_buffer.bytes 0).bytes prev))
              (λ t'. rest prev (strtok_r t.in_buffer.bytes 0).step t')
      ]))
      (sym v.first)
      (on_success-Fails g
        (check_status g (with_bytes t (strtok_r t.in_buffer.bytes 0).bytes)
          (text_at (strtok_r t.in_buffer.bytes 0).bytes v.line))
        (λ t'. rest v.line (strtok_r t.in_buffer.bytes 0).step t')
        (status-Fails g (with_bytes t (strtok_r t.in_buffer.bytes 0).bytes)
          (text_at (strtok_r t.in_buffer.bytes 0).bytes v.line) v.code v.scanned v.unsuccessful))

pub plain-Fails :
    (g : Given) (t : RtspThread) → IsRefusal t → Post Fails (handle_plain_response g t)
unfolding handle_plain_response
plain-Fails g t v = first_line-Fails g t (λ prev step t'. ret true (cleanup g t') []) v

pub get-Fails : (g : Given) (t : RtspThread) → IsRefusal t → Post Fails (handle_get_response g t)
unfolding handle_get_response
get-Fails g t v =
    first_line-Fails g t
      (λ prev step t'. finish_get g t' (
        describe_loop (suc (length t'.in_buffer.bytes)) t'.in_buffer.bytes step prev
          (t'.is_sdp, none)))
      v

read_setup-Fails :
    (g : Given) (t : RtspThread) (i : ℕ) → IsRefusal t → Post Fails (read_setup g t i)
unfolding read_setup
read_setup-Fails g t i v =
    first_line-Fails g t
      (λ prev step t'. finish_setup g t' i (
        setup_loop (suc (length t'.in_buffer.bytes)) t'.in_buffer.bytes step prev
          (session_at t'.rtsp_queue i).session_id))
      v

pub setup-Fails :
    (g : Given) (t : RtspThread) → IsRefusal t → Post Fails (handle_setup_response g t)
unfolding handle_setup_response
setup-Fails g t v = go t.cursor.static_sess t.cursor.static_med
  where
    go :
        (a : Option ℕ) (b : Option (ℕ × ℕ))
        → Post Fails (elim a [
          | none ↦ ret false t []
          | some i ↦ elim b [ none ↦ ret false t [] | some m ↦ read_setup g t i ]
        ])
    go none b = refl
    go (some i) none = refl
    go (some i) (some j) = read_setup-Fails g t i v

pub if_ok-Fails : (r : Ran) (rest : RtspThread → Ran) → Post Fails r → Post Fails (if_ok r rest)
if_ok-Fails crashed rest h = tt
if_ok-Fails (ret true t rs) rest h = cc
if_ok-Fails (ret false t rs) rest h = refl
