-- ===== src/Rtsp/Control.antt =====
-- The interface of the client, src/rtsp/rtsp.c: rtsp_close, rtsp_pause, rtsp_play and rtsp_stop, with
-- rtsp_wait and the table of answers in src/rtsp/rtsp_errors.c. rtsp_open is in Rtsp/Open. The mutex
-- of the thread is left out, each function holding it for its whole run.
pub mod Busy
use libnemesi.Common.{
  ℕ, zero, suc, Bool, true, false, ◌||◌, not, Option, none, some, List, [], ◌∷◌, ◌==◌,
  if◌then◌else◌,
}
use libnemesi.Common.Int.{ℤ, pos, negsuc}
use libnemesi.Rtsp.Session.{gcs_init}
use libnemesi.Rtsp.Thread.{RtspThread, States, init, ready, playing, recording, is_num}
use libnemesi.Rtsp.Send.{
  Ran, ret, crashed, Given, send_pause_request, send_play_request, send_teardown_request,
}
use libnemesi.Rtsp.Open.{quit_function}
use libnemesi.Rtsp.Machine.{at_first}

-- The commands that send a request at once, with the text of the range to play.
pub data Command : Type 0 where
  close pause stop : Command
  play : List ℕ → Command

-- Whether the thread's state is one in which the command is refused.
abbrev pub is_refused : Command → States → Bool
is_refused c init = true
is_refused pause ready = true
is_refused stop ready = true
is_refused (play range) recording = true
is_refused c s = false

abbrev pub marked_busy : RtspThread → RtspThread
marked_busy t = record t { busy = true }

unfoldable pub send_command : Given → Command → RtspThread → Ran
unfolding send_pause_request send_play_request send_teardown_request
send_command g close t = send_teardown_request g t
send_command g pause t = send_pause_request g t []
send_command g stop t = send_pause_request g t []
send_command g (play range) t = send_play_request g t range

-- The common course of the four functions.
unfoldable pub command : Given → Command → RtspThread → Ran
unfolding send_command quit_function gcs_init
command g c t = quit_function (
    if is_refused c t.status
    then ret false (marked_busy t) []
    else at_first (marked_busy t) (λ t'. send_command g c t'))

unfoldable pub rtsp_close : Given → RtspThread → Ran
unfolding command
rtsp_close g t = command g close t

unfoldable pub rtsp_pause : Given → RtspThread → Ran
unfolding command
rtsp_pause g t = command g pause t

unfoldable pub rtsp_stop : Given → RtspThread → Ran
unfolding command
rtsp_stop g t = command g stop t

unfoldable pub rtsp_play : Given → List ℕ → RtspThread → Ran
unfolding command
rtsp_play g range t = command g (play range) t

-- `RTSP_Error`: the code of its message, and whether it is an error.
pub record RtspError : Type 0 where
  pub reply_code : ℤ
  pub got_error : Bool

-- The codes that the table has, with the code and the flag of their entries: 451 leads to an entry
-- that says 415.
abbrev pub table : List (ℕ × (ℕ × Bool))
table =
    (100, (100, false))
    ∷ (200, (200, false))
    ∷ (201, (201, false))
    ∷ (202, (202, false))
    ∷ (400, (400, true))
    ∷ (403, (403, true))
    ∷ (404, (404, true))
    ∷ (406, (406, true))
    ∷ (415, (415, true))
    ∷ (451, (415, true))
    ∷ (453, (453, true))
    ∷ (454, (454, true))
    ∷ (455, (455, true))
    ∷ (456, (456, true))
    ∷ (457, (457, true))
    ∷ (461, (461, true))
    ∷ (500, (500, true))
    ∷ (501, (501, true))
    ∷ (503, (503, true))
    ∷ (505, (505, true))
    ∷ (551, (551, true))
    ∷ []

unfoldable pub entry_of : ℤ → List (ℕ × (ℕ × Bool)) → Option RtspError
entry_of code [] = none
entry_of code ((n, (m, err)) ∷ rest) =
    let others = entry_of code rest in
    if is_num n code then some (record { reply_code = pos m; got_error = err }) else others

-- `none` for NULL
unfoldable pub get_rtsp_error : ℤ → Option RtspError
unfolding entry_of
get_rtsp_error code = entry_of code table

-- What rtsp_wait does: it goes on waiting while the thread is busy; it returns; or it reads through
-- the NULL that get_RTSP_Error gives.
pub data Waited : Type 0 where
  blocked null_read : Waited
  is_ready is_reinitialized : Waited
  answered : RtspError → Waited

unfoldable pub answer_of : Option RtspError → Waited
answer_of none = null_read
answer_of (some e) = answered e

unfoldable pub rtsp_wait : RtspThread → Waited
unfolding get_rtsp_error answer_of
rtsp_wait t =
    if t.busy then blocked else if is_num 0 t.response_id then is_ready else elim t.response_id [
      | negsuc zero ↦ is_reinitialized
      | negsuc (suc n) ↦ answer_of (get_rtsp_error t.response_id)
      | pos n ↦ answer_of (get_rtsp_error t.response_id)
    ]
