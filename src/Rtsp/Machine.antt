-- ===== src/Rtsp/Machine.antt =====
-- The state machine of src/rtsp/rtsp_state_machine.c: init_state, ready_state, playing_state and
-- recording_state, and handle_rtsp_pkt of src/rtsp/rtsp_handlers.c, which calls them. A function
-- that leaves the requests it has sent gets those of the functions that it calls.
pub mod Effects
pub mod Steps
pub mod Message
pub mod Refusal
use libnemesi.Common.{
  ℕ, zero, suc, ◌+◌, ◌*◌, Bool, true, false, ◌&&◌, ◌||◌, not, Option, none, some, List, [], ◌∷◌,
  ◌++◌, ltb, ◌==◌, if◌then◌else◌, length, get_or,
}
use libnemesi.Common.Int.{ℤ}
use libnemesi.Rtsp.Text.{c_str, begins, skip_space}
use libnemesi.Rtsp.Buffer.{RtspBuffer, remove_pkt, full_msg_rcvd}
use libnemesi.Rtsp.Session.{
  SockType, sock_none, tcp, udp, sctp, nowhere, gcs_init, gcs_nxt_sess, gcs_nxt_med,
}
use libnemesi.Rtsp.Thread.{
  States, init, ready, playing, recording, RtspThread, setup_response, get_response, play_response,
  pause_response, close_response, rtsp_unbusy, rtsp_reinit,
}
use libnemesi.Rtsp.Send.{Request, Ran, ret, crashed, Given, send_pause_request, send_play_request}
use libnemesi.Rtsp.Setup.{send_setup_request}
use libnemesi.Rtsp.Reply.{Opcode, minus_one, faulty, opcode, check_response}
use libnemesi.Rtsp.Handlers.{handle_plain_response, handle_setup_response}
use libnemesi.Rtsp.Describe.{handle_get_response}

-- The requests of a first function before those of a second.
abbrev pub sent_before : List Request → Ran → Ran
sent_before rs (ret ok t rs') = ret ok t (rs ++ rs')
sent_before rs crashed = crashed

-- `if (f()) return 1;`
abbrev pub if_ok : Ran → (RtspThread → Ran) → Ran
if_ok (ret true t rs) rest = sent_before rs (rest t)
if_ok (ret false t rs) rest = ret false t rs
if_ok crashed rest = crashed

-- `get_curr_sess(GCS_INIT, rtsp_th)`
abbrev pub at_first : RtspThread → (RtspThread → Ran) → Ran
at_first t rest = elim (gcs_init t.rtsp_queue) [
  | none ↦ crashed
  | some c ↦ rest (record t { cursor = c })
]

abbrev pub uninit : RtspThread → RtspThread
uninit t = record t { cursor = nowhere }

-- The threads of the media start, and the thread is ready.
unfoldable pub start_threads : Given → RtspThread → Ran
unfolding rtsp_unbusy
start_threads g t =
    if not g.rtp_thread
    then ret false t []
    else if not g.rtcp_thread
    then ret false (record t { rtp_up = true }) []
    else ret true
        (rtsp_unbusy (record (uninit t) { rtp_up = true; rtcp_up = true; status = ready })) []

-- All media are set up. The first of them is read.
unfoldable pub all_set_up : Given → RtspThread → Ran
unfolding start_threads
all_set_up g t = elim t.rtsp_queue [
  | [] ↦ crashed
  | s ∷ q ↦ elim s.media_queue [ [] ↦ crashed | m ∷ ms ↦ start_threads g t ]
]

unfoldable pub after_setup : Given → RtspThread → Ran
unfolding all_set_up gcs_nxt_med send_setup_request
after_setup g t =
    let t' = record t { cursor = gcs_nxt_med t.rtsp_queue t.cursor } in
    elim t'.cursor.static_med [ none ↦ all_set_up g t' | some m ↦ send_setup_request g t' ]

unfoldable pub init_state : Given → RtspThread → ℕ → Ran
unfolding handle_get_response handle_setup_response send_setup_request after_setup gcs_init
init_state g t event =
    if event == get_response
    then if_ok (handle_get_response g t) (λ t'. at_first t' (λ t''. send_setup_request g t''))
    else if event == setup_response
    then if_ok (handle_setup_response g t) (λ t'. after_setup g t')
    else ret false t []

-- The thread is reset, and keeps the code of the last response.
unfoldable pub closed : RtspThread → Ran
unfolding rtsp_reinit rtsp_unbusy
closed t = elim (rtsp_reinit (record t { status = init })) [
  | none ↦ crashed
  | some t' ↦ ret true (rtsp_unbusy (record (uninit t') { response_id = t.response_id })) []
]

unfoldable pub after_play : Given → RtspThread → Ran
unfolding gcs_nxt_sess send_play_request rtsp_unbusy
after_play g t =
    let t' = record t { cursor = gcs_nxt_sess t.rtsp_queue t.cursor } in
    elim t'.cursor.static_sess [
      | none ↦ ret true (rtsp_unbusy (record (uninit t') { status = playing })) []
      | some i ↦ send_play_request g t' []
    ]

unfoldable pub ready_state : Given → RtspThread → ℕ → Ran
unfolding handle_plain_response after_play closed
ready_state g t event =
    if event == play_response
    then if_ok (handle_plain_response g t) (λ t'. after_play g t')
    else if event == close_response
    then if_ok (handle_plain_response g t) (λ t'. closed t')
    else ret false t []

unfoldable pub after_pause : Given → RtspThread → Ran
unfolding gcs_nxt_sess send_pause_request rtsp_unbusy
after_pause g t =
    let t' = record t { cursor = gcs_nxt_sess t.rtsp_queue t.cursor } in
    elim t'.cursor.static_sess [
      | none ↦ ret true (rtsp_unbusy (record (uninit t') { status = ready })) []
      | some i ↦ send_pause_request g t' []
    ]

unfoldable pub playing_state : Given → RtspThread → ℕ → Ran
unfolding handle_plain_response after_pause closed
playing_state g t event =
    if event == pause_response
    then if_ok (handle_plain_response g t) (λ t'. after_pause g t')
    else if event == close_response
    then if_ok (handle_plain_response g t) (λ t'. closed t')
    else ret false t []

-- "Every event in this state will do nothing, because recording is not implemented"
unfoldable pub recording_state : Given → RtspThread → ℕ → Ran
recording_state g t event = ret true t []

unfoldable pub state_machine : Given → States → RtspThread → ℕ → Ran
unfolding init_state ready_state playing_state recording_state
state_machine g init t event = init_state g t event
state_machine g ready t event = ready_state g t event
state_machine g playing t event = playing_state g t event
state_machine g recording t event = recording_state g t event

-- Whether packets of media come interleaved.
abbrev pub is_interleaved : RtspThread → Bool
is_interleaved t = elim t.socktype [
  | tcp ↦ elim t.interleaved [ [] ↦ false | c ∷ cs ↦ true ]
  | _ ↦ false
]

-- "RTSP/1.0" and "rtsp/1.0"
abbrev pub is_version : List ℕ → Bool
is_version ver =
    starts_with ver (82 ∷ 84 ∷ 83 ∷ 80 ∷ 47 ∷ 49 ∷ 46 ∷ 48 ∷ [])
    || starts_with ver (114 ∷ 116 ∷ 115 ∷ 112 ∷ 47 ∷ 49 ∷ 46 ∷ 48 ∷ [])
  where
    starts_with : List ℕ → List ℕ → Bool
    starts_with s [] = true
    starts_with [] (k ∷ key) = false
    starts_with (c ∷ s) (k ∷ key) = (c == k) && starts_with s key

unfoldable pub dispatch : Given → RtspThread → Opcode → Ran
unfolding state_machine
dispatch g t minus_one = ret false t []
dispatch g t faulty = crashed
dispatch g t (opcode n) = if n == 0 then ret false t [] else state_machine g t.status t n

-- A packet of media, which is passed on to its channel, is only taken out here.
unfoldable pub handle_rtsp_pkt : Given → RtspThread → Ran
unfolding dispatch check_response remove_pkt
handle_rtsp_pkt g t =
    if is_interleaved t && get_or t.in_buffer.bytes 0 0 == 36
    then ret true (record t { in_buffer = remove_pkt g.mem_rest g.beyond t.in_buffer }) []
    else if not (is_version (skip_space (c_str t.in_buffer.bytes)))
    then ret false t []
    else dispatch g t (check_response g t)
