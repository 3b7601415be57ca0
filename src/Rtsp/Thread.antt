-- ===== src/Rtsp/Thread.antt =====
-- The RTSP thread: `rtsp_thread` of src/rtsp/rtspinternals.h, and what resets it, clean_rtsp_th and
-- rtsp_reinit of src/rtsp/rtsp_state_machine.c and rtsp_unbusy of src/rtsp/rtsp_internals.c. There is
-- one thread, so that the static variables of get_curr_sess stand in it.
use libnemesi.Common.{
  ℕ, ◌+◌, ◌%◌, ◌^◌, Bool, false, ◌||◌, Option, none, some, List, [], ◌∷◌, ◌==◌, if◌then◌else◌,
}
use libnemesi.Common.Int.{ℤ, pos, negsuc}
use libnemesi.Rtsp.Buffer.{RtspBuffer}
use libnemesi.Rtsp.Session.{SockType, tcp, RtspSession, Cursor}

-- `enum states`
pub data States : Type 0 where
  init ready playing recording : States

-- The codes of the responses.
abbrev pub setup_response : ℕ
setup_response = 100

abbrev pub get_response : ℕ
get_response = 101

abbrev pub play_response : ℕ
play_response = 103

abbrev pub pause_response : ℕ
pause_response = 104

abbrev pub close_response : ℕ
close_response = 108

-- `nms_wait_for`; `session_id` points to the name of a session.
pub record WaitFor : Type 0 where
  pub res : ℕ
  pub cseq : ℕ
  pub session_id : Option ℕ

abbrev pub no_wait : WaitFor
no_wait = record { res = 0; cseq = 0; session_id = none }

-- `rtsp_thread`: `hints` is the first RTP port of the hints, `connected` tells whether the transport
-- has a socket, whose type is `socktype`, and `rtp_up` and `rtcp_up` whether the threads of the media
-- are there. An element of `interleaved` is its channels.
pub record RtspThread : Type 0 where
  pub status : States
  pub busy : Bool
  pub is_sdp : Bool
  pub rtsp_queue : List RtspSession
  pub response_id : ℤ
  pub hints : Option ℕ
  pub force_rtp_port : ℕ
  pub connected : Bool
  pub socktype : SockType
  pub default_rtp_proto : SockType
  pub interleaved : List (ℕ × ℕ)
  pub next_ilvd_ch : ℕ
  pub wait_for : WaitFor
  pub server_port : Option (List ℕ)
  pub urlname : Option (List ℕ)
  pub in_buffer : RtspBuffer
  pub rtp_up : Bool
  pub rtcp_up : Bool
  pub cursor : Cursor

abbrev pub no_bytes : RtspBuffer
no_bytes = record { size = 0; first_pkt_size = 0; bytes = [] }

unfoldable pub rtsp_unbusy : RtspThread → RtspThread
rtsp_unbusy t = record t { busy = false }

abbrev pub is_num : ℕ → ℤ → Bool
is_num n (pos m) = m == n
is_num n (negsuc m) = false

-- `response_id` where it is not an error.
unfoldable pub forget_ok : ℤ → ℤ
forget_ok r = if is_num 200 r || is_num 0 r then negsuc 0 else r

-- The first RTP port that the hints give, made even. The variable is 16 bits wide.
unfoldable pub hinted_port : ℕ → ℕ
hinted_port first = let p = first % 2 ^ 16 in if p % 2 == 1 then (p + 1) % 2 ^ 16 else p

-- nmst_init makes the socket one of type TCP again.
-- `none` where the thread was made without hints: the code reads them all the same, through NULL.
unfoldable pub clean_rtsp_th : RtspThread → Option RtspThread
unfolding rtsp_unbusy forget_ok hinted_port
clean_rtsp_th t = elim t.hints [
  | none ↦ none
  | some first ↦ some (record (rtsp_unbusy t) {
    status = init;
    connected = false;
    socktype = tcp;
    wait_for = no_wait;
    urlname = none;
    server_port = none;
    in_buffer = record (t.in_buffer) { size = 0; bytes = [] };
    rtsp_queue = [];
    response_id = forget_ok t.response_id;
    force_rtp_port = hinted_port first;
    interleaved = [];
    next_ilvd_ch = 0;
  })
]

-- "check for active rtp/rtcp session": the threads are cancelled.
unfoldable pub cancel_threads : RtspThread → List RtspSession → RtspThread
cancel_threads t [] = t
cancel_threads t (s ∷ q) = elim s.media_queue [
  | [] ↦ t
  | m ∷ ms ↦ record t { rtp_up = false; rtcp_up = false }
]

unfoldable pub rtsp_reinit : RtspThread → Option RtspThread
unfolding clean_rtsp_th cancel_threads
rtsp_reinit t = clean_rtsp_th (cancel_threads t t.rtsp_queue)
