-- ===== src/Rtsp/Machine/Refusal.antt =====
-- What becomes of the thread after an answer whose status is not a success.
use libnemesi.Common.{
  ℕ, ◌≡◌, ◌≢◌, refl, Bool, true, false, ◌&&◌, Option, none, some, [], if◌then◌else◌, ◌==◌, get_or,
  Bool-cases, inl, inr,
}
use libnemesi.Rtsp.Text.{c_str, skip_space}
use libnemesi.Rtsp.Thread.{
  RtspThread, States, init, ready, playing, recording, get_response, setup_response, play_response,
  pause_response, close_response, rtsp_reinit,
}
use libnemesi.Rtsp.Send.{Ran, ret, crashed, Given}
use libnemesi.Rtsp.Setup.{send_setup_request}
use libnemesi.Rtsp.Reply.{Opcode, minus_one, faulty, opcode, check_response}
use libnemesi.Rtsp.Handlers.{handle_plain_response, handle_setup_response}
use libnemesi.Rtsp.Handlers.Effect.{Post}
use libnemesi.Rtsp.Describe.{handle_get_response}
use libnemesi.Rtsp.Machine.{
  if_ok, at_first, after_setup, after_play, after_pause, closed, init_state, ready_state,
  playing_state, state_machine, dispatch, handle_rtsp_pkt, is_interleaved, is_version,
}
use libnemesi.Rtsp.Machine.Message.{Fresh, reinit-Fresh}
use libnemesi.Rtsp.Loop.{or_reset}
use libnemesi.Rtsp.Reply.Refused.{
  IsRefusal, Fails, plain-Fails, get-Fails, setup-Fails, if_ok-Fails,
}

either-Fails :
    (t : RtspThread) (b c : Bool) (r s : Ran)
    → Post Fails r
    → Post Fails s
    → Post Fails (if b then r else if c then s else ret false t [])
either-Fails t true c r s x y = x
either-Fails t false true r s x y = y
either-Fails t false false r s x y = refl

machine-Fails :
    (g : Given) (t : RtspThread) (s : States) (event : ℕ)
    → IsRefusal t
    → s ≢ recording
    → Post Fails (state_machine g s t event)
unfolding state_machine init_state ready_state playing_state
machine-Fails g t init event v r =
    either-Fails t (event == get_response) (event == setup_response)
      (if_ok (handle_get_response g t) (λ t'. at_first t' (λ t''. send_setup_request g t'')))
      (if_ok (handle_setup_response g t) (λ t'. after_setup g t'))
      (if_ok-Fails (handle_get_response g t) (λ t'. at_first t' (λ t''. send_setup_request g t''))
        (get-Fails g t v))
      (if_ok-Fails (handle_setup_response g t) (λ t'. after_setup g t') (setup-Fails g t v))
machine-Fails g t ready event v r =
    either-Fails t (event == play_response) (event == close_response)
      (if_ok (handle_plain_response g t) (λ t'. after_play g t'))
      (if_ok (handle_plain_response g t) (λ t'. closed t'))
      (if_ok-Fails (handle_plain_response g t) (λ t'. after_play g t') (plain-Fails g t v))
      (if_ok-Fails (handle_plain_response g t) (λ t'. closed t') (plain-Fails g t v))
machine-Fails g t playing event v r =
    either-Fails t (event == pause_response) (event == close_response)
      (if_ok (handle_plain_response g t) (λ t'. after_pause g t'))
      (if_ok (handle_plain_response g t) (λ t'. closed t'))
      (if_ok-Fails (handle_plain_response g t) (λ t'. after_pause g t') (plain-Fails g t v))
      (if_ok-Fails (handle_plain_response g t) (λ t'. closed t') (plain-Fails g t v))
machine-Fails g t recording event v r = absurd (r refl)

dispatch-Fails :
    (g : Given) (t : RtspThread) (o : Opcode)
    → IsRefusal t
    → t.status ≢ recording
    → Post Fails (dispatch g t o)
unfolding dispatch
dispatch-Fails g t minus_one v r = refl
dispatch-Fails g t faulty v r = tt
dispatch-Fails g t (opcode n) v r = elim (Bool-cases (n == 0)) [
  | inl e ↦ rw e refl
  | inr e ↦ rw e (machine-Fails g t t.status n v r)
]

message-Fails :
    (g : Given) (t : RtspThread)
    → (is_interleaved t && get_or t.in_buffer.bytes 0 0 == 36) ≡ false
    → IsRefusal t
    → t.status ≢ recording
    → Post Fails (handle_rtsp_pkt g t)
unfolding handle_rtsp_pkt
message-Fails g t i v r = elim (Bool-cases (is_version (skip_space (c_str t.in_buffer.bytes)))) [
  | inl e ↦ rw (i, e) (dispatch-Fails g t (check_response g t) v r)
  | inr e ↦ rw (i, e) refl
]

or_reset-Fresh : (r : Ran) → Post Fails r → Post (λ ok t rs. Fresh t) (or_reset r)
unfolding or_reset
or_reset-Fresh crashed h = tt
or_reset-Fresh (ret true t rs) h = cc
or_reset-Fresh (ret false t rs) h = go (rtsp_reinit t) refl
  where
    go :
        (o : Option RtspThread)
        → rtsp_reinit t ≡ o
        → Post (λ ok t rs. Fresh t) (elim o [ none ↦ crashed | some t' ↦ ret false t' rs ])
    go none e = tt
    go (some t') e = reinit-Fresh t t' e

-- An answer whose status code is below 200 or from 300 on, a redirection too, resets a thread that is
-- not recording: it comes to INIT without a connection and without sessions. The client must not read
-- through NULL on the way, as it does for a line without a second space while the reason is printed,
-- or, if it was made without hints, in the reset.
pub refusal-Fresh :
    (g : Given) (t : RtspThread)
    → (is_interleaved t && get_or t.in_buffer.bytes 0 0 == 36) ≡ false
    → IsRefusal t
    → t.status ≢ recording
    → Post (λ ok t' rs. Fresh t') (or_reset (handle_rtsp_pkt g t))
refusal-Fresh g t i v r = or_reset-Fresh (handle_rtsp_pkt g t) (message-Fails g t i v r)
