-- ===== src/Rtsp/Examples.antt =====
-- The theorems on the RTSP thread, at one that waits for the answer to DESCRIBE and has one in its
-- buffer that says 404.
use libnemesi.Common.{
  ◌≡◌, ◌≢◌, refl, true, false, ◌&&◌, ◌==◌, none, some, List, [], ◌∷◌, ℕ, arith, get_or,
}
use libnemesi.Common.Int.{pos}
use libnemesi.Rtsp.Buffer.{RtspBuffer}
use libnemesi.Rtsp.Thread.{RtspThread, recording, get_response}
use libnemesi.Rtsp.Send.{Given}
use libnemesi.Rtsp.Token.{strtok_r}
use libnemesi.Rtsp.Reply.{opcode, check_wait, check_content, check_response}
use libnemesi.Rtsp.Reply.Awaited.{IsAwaited, check_response-IsAwaited}
use libnemesi.Rtsp.Reply.Refused.{IsRefusal}
use libnemesi.Rtsp.Handlers.Effect.{Post}
use libnemesi.Rtsp.Session.{sock_none, tcp, udp}
use libnemesi.Rtsp.Init.{
  Resources, blank_thread, hint_port, hint_rtsp, hint_rtp, with_hints, rtsp_init,
}
use libnemesi.Rtsp.Machine.{handle_rtsp_pkt, is_interleaved}
use libnemesi.Rtsp.Machine.Message.{Fresh}
use libnemesi.Rtsp.Machine.Refusal.{refusal-Fresh}
use libnemesi.Rtsp.Loop.{or_reset, put_buffer, got, on_read}
use libnemesi.Rtsp.Loop.Ends.{Ends, on_read-Ends}
use libnemesi.Rtsp.Reach.{Reachable, begins, reads, Sound, Reachable-Sound}

abbrev given : Given
given = record {
  mem_rest = true;
  beyond = [];
  mem_url = true;
  mem_buf = true;
  connects = true;
  written = true;
  transport = true;
  accepted = λ ms. true;
  rtp_thread = true;
  rtcp_thread = true;
  prints = true;
  junk = pos 0;
  parsers = [];
  mem_sess = true;
  mem_body = true;
  info = none;
}

-- "RTSP/1.0 404 N\r\nCSeq: 1\r\n\r\n"
abbrev not_found : List ℕ
not_found =
    82 ∷ 84 ∷ 83 ∷ 80 ∷ 47 ∷ 49 ∷ 46 ∷ 48 ∷ 32 ∷ 52 ∷ 48 ∷ 52 ∷ 32 ∷ 78 ∷ 13 ∷ 10 ∷ 67 ∷ 83 ∷ 101
    ∷ 113 ∷ 58 ∷ 32 ∷ 49 ∷ 13 ∷ 10 ∷ 13 ∷ 10 ∷ []

abbrev message : RtspBuffer
message = record { size = 27; first_pkt_size = 27; bytes = not_found }

abbrev waiting : RtspThread
waiting = record (blank_thread (some 0)) {
  busy = true;
  wait_for = record { res = get_response; cseq = 0; session_id = none };
  in_buffer = message;
}

waiting_state : waiting.status ≢ recording
unfolding blank_thread
waiting_state = λ e. cc

waiting-IsRefusal : IsRefusal waiting
unfolding strtok_r
waiting-IsRefusal = record {
  line = 0;
  first = refl;
  code = 404;
  scanned = refl;
  unsuccessful = refl;
}

waiting_plain : (is_interleaved waiting && get_or waiting.in_buffer.bytes 0 0 == 36) ≡ false
unfolding blank_thread
waiting_plain = refl

refusal-Fresh_example : Post (λ ok t' rs. Fresh t') (or_reset (handle_rtsp_pkt given waiting))
refusal-Fresh_example = refusal-Fresh given waiting waiting_plain waiting-IsRefusal waiting_state

waiting_opcode : check_response given waiting ≡ opcode 101
unfolding check_response check_content check_wait
waiting_opcode = refl

check_response-IsAwaited_example : IsAwaited given waiting 101
check_response-IsAwaited_example =
    check_response-IsAwaited given waiting 101 waiting_opcode (λ e. absurd (omega (arith, e)))

abbrev resources : Resources
resources = record { made = true; has_sctp = false }

-- What has been read, before the message is looked for.
abbrev unframed : RtspBuffer
unframed = record { size = 27; first_pkt_size = 0; bytes = not_found }

made : rtsp_init resources none ≡ some (blank_thread none)
unfolding rtsp_init
made = refl

reading-Reachable : Reachable (put_buffer (blank_thread none) unframed)
reading-Reachable = reads unframed (begins resources none made)

Reachable-Sound_example : Sound (put_buffer (blank_thread none) unframed)
Reachable-Sound_example = Reachable-Sound reading-Reachable

-- A thread made with hints.
abbrev idle : RtspThread
idle = record (blank_thread (some 0)) { socktype = tcp; default_rtp_proto = udp }

idle_made :
    rtsp_init resources (
      some (record { first_rtp_port = 0; pref_rtsp_proto = sock_none; pref_rtp_proto = sock_none }))
    ≡ some idle
unfolding rtsp_init with_hints hint_port hint_rtsp hint_rtp
idle_made = refl

idle-Reachable : Reachable idle
idle-Reachable = begins resources _ idle_made

idle_size : idle.in_buffer.size ≡ 0
unfolding blank_thread
idle_size = refl

on_read-Ends_example : Ends (on_read true (λ i. given) (got not_found) idle)
on_read-Ends_example =
    on_read-Ends (λ i. given) (λ i. record { mem_rest = refl; ended = refl }) not_found idle
      idle-Reachable (omega (arith, idle_size))
