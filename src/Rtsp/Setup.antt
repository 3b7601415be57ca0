-- ===== src/Rtsp/Setup.antt =====
-- The setup request, send_setup_request of src/rtsp/rtsp_send.c, with what it chooses for the medium's
-- transport. The sockets, and the ports that are drawn at random, are left out.
use libnemesi.Common.{
  ℕ, ◌+◌, ◌%◌, ◌^◌, Bool, false, not, none, some, [], ◌∷◌, ◌==◌, if◌then◌else◌, set,
}
use libnemesi.Rtsp.Session.{SockType, sock_none, tcp, udp, sctp, RtspMedium, session_at, medium_of}
use libnemesi.Rtsp.Thread.{RtspThread, setup_response}
use libnemesi.Rtsp.Send.{setup, Ran, ret, Given, snprintf_uri, put_session, write, reads_url}

-- The port that the user has given, made even.
unfoldable pub even_port : RtspThread → RtspThread
even_port t =
    if t.force_rtp_port % 2 == 1
    then record t { force_rtp_port = (t.force_rtp_port + 1) % 2 ^ 16 }
    else t

unfoldable pub put_medium : RtspThread → ℕ × ℕ → RtspMedium → RtspThread
put_medium t (i, j) m =
    let s = session_at t.rtsp_queue i in
    put_session t i (record s { media_queue = set s.media_queue j m })

-- The next two channels, of 8 bits, for a medium over TCP. With the transport set up they are put in
-- the list of channels.
unfoldable pub take_channels : Bool → RtspThread → ℕ × ℕ → RtspThread
unfolding put_medium
take_channels ok t m =
    let c : ℕ × ℕ = (t.next_ilvd_ch % 256, (t.next_ilvd_ch + 1) % 256) in
    let t' : RtspThread =
      record (put_medium t m (record (medium_of t.rtsp_queue m) { type = tcp; channels = c })) {
        next_ilvd_ch = (t.next_ilvd_ch + 2) % 2 ^ 16;
      } in
    if ok then record t' { interleaved = c ∷ t'.interleaved } else t'

-- Streams of 16 bits, for a medium over SCTP: the variable is counted up before each.
unfoldable pub take_streams : Bool → RtspThread → ℕ × ℕ → RtspThread
unfolding put_medium
take_streams ok t m =
    let c : ℕ × ℕ = ((t.next_ilvd_ch + 1) % 2 ^ 16, (t.next_ilvd_ch + 2) % 2 ^ 16) in
    let t' : RtspThread =
      record (put_medium t m (record (medium_of t.rtsp_queue m) { type = sctp; channels = c })) {
        next_ilvd_ch = (t.next_ilvd_ch + 2) % 2 ^ 16;
      } in
    if ok then record t' { interleaved = c ∷ t'.interleaved } else t'

-- "next rtp port forces"
unfoldable pub take_ports : Bool → RtspThread → ℕ × ℕ → RtspThread
unfolding put_medium
take_ports ok t m =
    let t' = put_medium t m (record (medium_of t.rtsp_queue m) { type = udp }) in
    if ok
    then (if t'.force_rtp_port == 0
        then t'
        else record t' { force_rtp_port = (t'.force_rtp_port + 2) % 2 ^ 16 })
    else t'

-- Whether the transport is set up, and the thread.
unfoldable pub set_up : SockType → Bool → RtspThread → ℕ × ℕ → Bool × RtspThread
unfolding take_ports take_channels take_streams put_medium
set_up udp ok t m = (ok, take_ports ok t m)
set_up tcp ok t m = (ok, take_channels ok t m)
set_up sctp ok t m = (ok, take_streams ok t m)
set_up sock_none ok t m =
    (false, put_medium t m (record (medium_of t.rtsp_queue m) { type = sock_none }))

-- The request for the medium `m` of the session `i`, with its transport set up.
unfoldable pub request_setup : Given → RtspThread → ℕ → ℕ × ℕ → Ran
unfolding write snprintf_uri
request_setup g t i m =
    let s = session_at t.rtsp_queue i in
    let s' = record s { cseq = s.cseq + 1 } in
    write g
      (record {
        method = setup;
        uri = snprintf_uri s.content_base (medium_of t.rtsp_queue m).filename;
        cseq = s'.cseq;
        session = s.session_id;
        range = [];
        medium = some m;
      })
      (record (put_session t i s') {
        wait_for = record (t.wait_for) { res = setup_response; cseq = s'.cseq };
      })

unfoldable pub send_setup_request : Given → RtspThread → Ran
unfolding set_up request_setup even_port
send_setup_request g t = elim t.cursor.static_sess [
  | none ↦ ret false t []
  | some i ↦ elim t.cursor.static_med [
    | none ↦ ret false t []
    | some m ↦
        let (ok, t') = set_up t.default_rtp_proto g.transport (even_port t) m in
        reads_url t (
          if not g.mem_buf
          then ret false t []
          else if not ok
          then ret false t' []
          else request_setup g t' i m)
  ]
]
