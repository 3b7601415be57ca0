-- ===== src/Rtsp/Machine/Effects.antt =====
-- What the functions that send requests, and those that handle answers, leave as it is.
use libnemesi.Common.{
  ℕ, ◌<◌, ◌≡◌, refl, Bool, true, false, List, [], arith, if◌then◌else◌, Option-cases, Bool-cases,
  inl, inr, length,
}
use libnemesi.Rtsp.Session.{SockType, sock_none, tcp, udp, sctp}
use libnemesi.Rtsp.Thread.{pause_response, play_response, RtspThread}
use libnemesi.Rtsp.Send.{
  Method, pause, play, Request, Ran, Given, write, reads_url, send_for_session, send_pause_request,
  send_play_request,
}
use libnemesi.Rtsp.Handlers.Effect.{Post}
use libnemesi.Rtsp.Setup.{
  even_port, put_medium, take_channels, take_streams, take_ports, set_up, request_setup,
  send_setup_request,
}

-- What sending a request leaves of the thread `t₀`.
pub record Sent (t₀ : RtspThread) (ok : Bool) (t : RtspThread) (rs : List Request) : Type 0 where
  pub status : t.status ≡ t₀.status
  pub in_buffer : t.in_buffer ≡ t₀.in_buffer
  pub busy : t.busy ≡ t₀.busy
  pub awaited : ok ≡ true → 0 < t.wait_for.res
  pub one : ok ≡ true → length rs ≡ 1

nothing-Sent : (t : RtspThread) → Sent t false t []
nothing-Sent t = record {
  status = refl;
  in_buffer = refl;
  busy = refl;
  awaited = λ e. cc;
  one = λ e. cc;
}

write-Sent :
    (g : Given) (r : Request) (t₀ t : RtspThread)
    → t.status ≡ t₀.status
    → t.in_buffer ≡ t₀.in_buffer
    → t.busy ≡ t₀.busy
    → 0 < t.wait_for.res
    → Post (Sent t₀) (write g r t)
unfolding write
write-Sent g r t₀ t s i b h = elim (Bool-cases g.written) [
  | inl e ↦ rw e (record { status = s; in_buffer = i; busy = b; awaited = λ e. h; one = λ e. refl })
  | inr e ↦ rw e (record { status = s; in_buffer = i; busy = b; awaited = λ e. cc; one = λ e. cc })
]

Post-if :
    (P : Bool → RtspThread → List Request → Type 0) (b : Bool) (r s : Ran)
    → Post P r
    → Post P s
    → Post P (if b then r else s)
Post-if P true r s x y = x
Post-if P false r s x y = y

Post-url :
    (P : Bool → RtspThread → List Request → Type 0) (t : RtspThread) (r : Ran)
    → Post P r
    → Post P (reads_url t r)
Post-url P t r x = elim (Option-cases t.urlname) [ inl e ↦ rw e tt | inr (u, e) ↦ rw e x ]

session-Sent :
    (g : Given) (method : Method) (res : ℕ) (range : List ℕ) (i : ℕ) (t : RtspThread)
    → 0 < res
    → Post (Sent t) (send_for_session g method res range i t)
unfolding send_for_session
session-Sent g method res range i t h = write-Sent g _ t _ refl refl refl h

pub pause-Sent :
    (g : Given) (t : RtspThread) (range : List ℕ) → Post (Sent t) (send_pause_request g t range)
unfolding send_pause_request
pause-Sent g t range = ground (arith, nothing-Sent t, session-Sent g pause pause_response range)

pub play-Sent :
    (g : Given) (t : RtspThread) (range : List ℕ) → Post (Sent t) (send_play_request g t range)
unfolding send_play_request
play-Sent g t range = ground (arith, nothing-Sent t, session-Sent g play play_response range)

-- The set-up of a transport changes the sessions, the channels and the port only.
pub set_up-kept :
    (type : SockType) (ok : Bool) (t : RtspThread) (m : ℕ × ℕ)
    → let t' = (set_up type ok t m).1 in
      (t'.status ≡ t.status) × (t'.in_buffer ≡ t.in_buffer) × (t'.busy ≡ t.busy)
unfolding set_up take_ports take_channels take_streams put_medium
set_up-kept udp ok t m = ground arith
set_up-kept tcp ok t m = ground arith
set_up-kept sctp ok t m = ground arith
set_up-kept sock_none ok t m = ground arith

even-kept :
    (t : RtspThread)
    → ((even_port t).status ≡ t.status)
      × ((even_port t).in_buffer ≡ t.in_buffer)
      × ((even_port t).busy ≡ t.busy)
unfolding even_port
even-kept t = ground arith

request-Sent :
    (g : Given) (t₀ t : RtspThread) (i : ℕ) (m : ℕ × ℕ)
    → t.status ≡ t₀.status
    → t.in_buffer ≡ t₀.in_buffer
    → t.busy ≡ t₀.busy
    → Post (Sent t₀) (request_setup g t i m)
unfolding request_setup
request-Sent g t₀ t i m s b y = write-Sent g _ t₀ _ s b y (omega arith)

pub setup-Sent : (g : Given) (t : RtspThread) → Post (Sent t) (send_setup_request g t)
unfolding send_setup_request
setup-Sent g t = ground (arith, nothing-Sent t)
