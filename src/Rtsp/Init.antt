-- ===== src/Rtsp/Init.antt =====
-- The beginning: rtsp_init of src/rtsp/rtsp.c.
use libnemesi.Common.{ℕ, Bool, true, false, ◌&&◌, not, Option, none, some, [], ltb, if◌then◌else◌}
use libnemesi.Common.Int.{pos}
use libnemesi.Rtsp.Session.{SockType, sock_none, tcp, udp, sctp, nowhere}
use libnemesi.Rtsp.Thread.{RtspThread, init, no_wait, no_bytes}

-- `nms_rtsp_hints`; a port that is not positive is 0.
pub record RtspHints : Type 0 where
  pub first_rtp_port : ℕ
  pub pref_rtsp_proto : SockType
  pub pref_rtp_proto : SockType

-- What the system gives: whether the memory, the mutex, the variable to wait on, the structures of
-- RTP and the thread can be had, and whether the library is compiled with SCTP.
pub record Resources : Type 0 where
  pub made : Bool
  pub has_sctp : Bool

-- The thread before the hints are looked at.
unfoldable pub blank_thread : Option ℕ → RtspThread
blank_thread hints = record {
  status = init;
  busy = false;
  is_sdp = false;
  rtsp_queue = [];
  response_id = pos 0;
  hints = hints;
  force_rtp_port = 0;
  connected = false;
  socktype = tcp;
  default_rtp_proto = udp;
  interleaved = [];
  next_ilvd_ch = 0;
  wait_for = no_wait;
  server_port = none;
  urlname = none;
  in_buffer = no_bytes;
  rtp_up = false;
  rtcp_up = false;
  cursor = nowhere;
}

-- "set first RTP port"
unfoldable pub hint_port : ℕ → RtspThread → Option RtspThread
hint_port port t =
    if not (ltb 0 port)
    then some t
    else if ltb port 1024
    then none
    else if ltb 65535 port
    then none
    else some (record t { force_rtp_port = port })

-- "force RTSP protocol"
unfoldable pub hint_rtsp : Bool → SockType → RtspThread → Option RtspThread
hint_rtsp has_sctp sock_none t = some (record t { socktype = tcp })
hint_rtsp has_sctp tcp t = some (record t { socktype = tcp })
hint_rtsp has_sctp sctp t = if has_sctp then some (record t { socktype = sctp }) else none
hint_rtsp has_sctp udp t = none

abbrev pub is_tcp : SockType → Bool
is_tcp tcp = true
is_tcp s = false

abbrev pub is_sctp : SockType → Bool
is_sctp sctp = true
is_sctp s = false

-- "force RTP Protocol"
unfoldable pub hint_rtp : Bool → SockType → RtspThread → Option RtspThread
hint_rtp has_sctp sock_none t = some (record t { default_rtp_proto = udp })
hint_rtp has_sctp udp t = some (record t { default_rtp_proto = udp })
hint_rtp has_sctp tcp t =
    if is_tcp t.socktype then some (record t { default_rtp_proto = tcp }) else none
hint_rtp has_sctp sctp t =
    if has_sctp && is_sctp t.socktype then some (record t { default_rtp_proto = sctp }) else none

unfoldable pub with_hints : Bool → RtspHints → RtspThread → Option RtspThread
unfolding hint_port hint_rtsp hint_rtp
with_hints has_sctp h t = elim (hint_port h.first_rtp_port t) [
  | none ↦ none
  | some a ↦ elim (hint_rtsp has_sctp h.pref_rtsp_proto a) [
    | none ↦ none
    | some b ↦ hint_rtp has_sctp h.pref_rtp_proto b
  ]
]

unfoldable pub rtsp_init : Resources → Option RtspHints → Option RtspThread
unfolding blank_thread with_hints
rtsp_init r none = if r.made then some (blank_thread none) else none
rtsp_init r (some h) =
    if r.made then with_hints r.has_sctp h (blank_thread (some h.first_rtp_port)) else none
