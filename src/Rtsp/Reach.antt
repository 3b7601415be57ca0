-- ===== src/Rtsp/Reach.antt =====
-- What a thread goes through: it is made, takes commands, reads bytes, and handles the messages in
-- its buffer.
use libnemesi.Common.{
  ℕ, ◌≡◌, ◌≢◌, refl, sym, ◌∙◌, subst, Bool, true, false, Option, none, some, List, arith,
  Option-cases, inl, inr,
}
use libnemesi.Rtsp.Buffer.{RtspBuffer}
use libnemesi.Rtsp.Session.{SockType, sock_none, tcp, udp, sctp}
use libnemesi.Rtsp.Thread.{RtspThread, States, init, recording, rtsp_reinit}
use libnemesi.Rtsp.Send.{Request, Ran, ret, Given}
use libnemesi.Rtsp.Open.{rtsp_open}
use libnemesi.Rtsp.Init.{
  RtspHints, Resources, blank_thread, hint_port, hint_rtsp, hint_rtp, with_hints, rtsp_init,
}
use libnemesi.Rtsp.Handlers.Effect.{Post}
use libnemesi.Rtsp.Machine.{handle_rtsp_pkt}
use libnemesi.Rtsp.Machine.Steps.{Move, sets_up, plays, pauses, closes, Awaits}
use libnemesi.Rtsp.Machine.Message.{Way, Step, handle_rtsp_pkt-Step, reinit-Fresh}
use libnemesi.Rtsp.Loop.{or_reset, put_buffer}
use libnemesi.Rtsp.Control.{Command, command}
use libnemesi.Rtsp.Control.Busy.{Commanded, command-Commanded, rtsp_open-Commanded}

-- The threads that there can be, as long as remove_pkt has memory. A call that reads through NULL ends
-- the run: it leaves no thread.
pub data Reachable : RtspThread → Type 0 where
  begins :
      {t : RtspThread} (r : Resources) (h : Option RtspHints) → rtsp_init r h ≡ some t → Reachable t
  opens :
      {t t' : RtspThread} {ok : Bool} {rs : List Request} (g : Given) (url : Option (List ℕ))
      → Reachable t
      → rtsp_open g t url ≡ ret ok t' rs
      → Reachable t'
  commands :
      {t t' : RtspThread} {ok : Bool} {rs : List Request} (g : Given) (c : Command)
      → Reachable t
      → command g c t ≡ ret ok t' rs
      → Reachable t'
  reads : {t : RtspThread} (b : RtspBuffer) → Reachable t → Reachable (put_buffer t b)
  handles :
      {t t' : RtspThread} {ok : Bool} {rs : List Request} (g : Given)
      → g.mem_rest ≡ true
      → Reachable t
      → or_reset (handle_rtsp_pkt g t) ≡ ret ok t' rs
      → Reachable t'
  dies : {t t' : RtspThread} → Reachable t → rtsp_reinit t ≡ some t' → Reachable t'

-- What holds of each of them.
pub record Sound (t : RtspThread) : Type 0 where
  pub awaits : Awaits t
  pub not_recording : t.status ≢ recording

blank-Idle : (h : Option ℕ) → ((blank_thread h).status ≡ init) × ((blank_thread h).busy ≡ false)
unfolding blank_thread
blank-Idle h = (refl, refl)

abbrev Idle : RtspThread → RtspThread → Type 0
Idle t t' = (t'.status ≡ t.status) × (t'.busy ≡ t.busy)

port-Idle : (p : ℕ) (t t' : RtspThread) → hint_port p t ≡ some t' → Idle t t'
unfolding hint_port
port-Idle p t t' e = (ground arith, ground arith)

rtsp-Idle : (b : Bool) (s : SockType) (t t' : RtspThread) → hint_rtsp b s t ≡ some t' → Idle t t'
unfolding hint_rtsp
rtsp-Idle b sock_none t t' e = (ground arith, ground arith)
rtsp-Idle b tcp t t' e = (ground arith, ground arith)
rtsp-Idle b sctp t t' e = (ground arith, ground arith)
rtsp-Idle b udp t t' e = (cc, cc)

rtp-Idle : (b : Bool) (s : SockType) (t t' : RtspThread) → hint_rtp b s t ≡ some t' → Idle t t'
unfolding hint_rtp
rtp-Idle b sock_none t t' e = (ground arith, ground arith)
rtp-Idle b tcp t t' e = (ground arith, ground arith)
rtp-Idle b sctp t t' e = (ground arith, ground arith)
rtp-Idle b udp t t' e = (ground arith, ground arith)

hints-Idle : (b : Bool) (h : RtspHints) (t t' : RtspThread) → with_hints b h t ≡ some t' → Idle t t'
unfolding with_hints
hints-Idle b h t t' e = elim (Option-cases (hint_port h.first_rtp_port t)) [
  | inl w ↦ ground arith
  | inr (a, w) ↦ elim (Option-cases (hint_rtsp b h.pref_rtsp_proto a)) [
    | inl v ↦ ground arith
    | inr (c, v) ↦
        let p = port-Idle h.first_rtp_port t a w in
        let q = rtsp-Idle b h.pref_rtsp_proto a c v in
        let r = rtp-Idle b h.pref_rtp_proto c t' (rw (with_hints, w, v) at e) in
        (r.0 ∙ q.0 ∙ p.0, r.1 ∙ q.1 ∙ p.1)
  ]
]

idle-Sound : (t : RtspThread) → t.status ≡ init → t.busy ≡ false → Sound t
idle-Sound t s b = record { awaits = λ e. ground arith; not_recording = λ e. ground arith }

init-Sound :
    (r : Resources) (h : Option RtspHints) (t : RtspThread) → rtsp_init r h ≡ some t → Sound t
unfolding rtsp_init
init-Sound r none t e =
    let i = blank-Idle none in
    let w : blank_thread none ≡ t = ground arith in
    subst Sound w (idle-Sound (blank_thread none) i.0 i.1)
init-Sound r (some h) t e =
    let i = blank-Idle (some h.first_rtp_port) in
    let w : with_hints r.has_sctp h (blank_thread (some h.first_rtp_port)) ≡ some t =
      ground arith in
    let k = hints-Idle r.has_sctp h (blank_thread (some h.first_rtp_port)) t w in
    idle-Sound t (k.0 ∙ i.0) (k.1 ∙ i.1)

Commanded-Sound :
    (t t' : RtspThread) (ok : Bool) (rs : List Request) (r : Ran)
    → Sound t
    → Post (Commanded t) r
    → r ≡ ret ok t' rs
    → Sound t'
Commanded-Sound t t' ok rs r s h e =
    let c : Commanded t ok t' rs = subst (λ r. Post (Commanded t) r) e h in
    record { awaits = c.awaits; not_recording = λ w. s.not_recording (sym c.status ∙ w) }

Move-calm : {n : ℕ} {s s' : States} → Move n s s' → s' ≢ recording
Move-calm (sets_up h) = λ e. cc
Move-calm (plays h) = λ e. cc
Move-calm (pauses h) = λ e. cc
Move-calm (closes h) = λ e. cc

Way-calm :
    (g : Given) (t₀ t : RtspThread) (rs : List Request)
    → Way g t₀ t rs
    → t₀.status ≢ recording
    → t.status ≢ recording
Way-calm g t₀ t rs (inl (m, s, n)) h = λ e. h (sym s ∙ e)
Way-calm g t₀ t rs (inr (n, c, inl (s, l))) h = λ e. h (sym s ∙ e)
Way-calm g t₀ t rs (inr (n, c, inr (m, l))) h = Move-calm m

Step-calm :
    (g : Given) (t₀ : RtspThread) (ok : Bool) (t : RtspThread) (rs : List Request)
    → Step g t₀ ok t rs
    → t₀.status ≢ recording
    → t.status ≢ recording
Step-calm g t₀ ok t rs s h = elim s.outcome [
  | inl (o, w) ↦ Way-calm g t₀ t rs w h
  | inr (o, f) ↦ λ e. ground (arith, f.status)
]

-- Whatever commands the thread is given and whatever bytes the server sends, as long as remove_pkt has
-- memory for the bytes behind each message and nothing reads through NULL: while the thread is busy it
-- waits for an answer, so that the wait of rtsp_wait is always one for the server; and it never comes
-- to the state RECORDING, in which messages stay in the buffer.
pub Reachable-Sound : {t : RtspThread} → Reachable t → Sound t
Reachable-Sound (begins {t} r h e) = init-Sound r h t e
Reachable-Sound (opens {t} {t'} {ok} {rs} g url p e) =
    Commanded-Sound t t' ok rs (rtsp_open g t url) (Reachable-Sound p) (rtsp_open-Commanded g t url)
      e
Reachable-Sound (commands {t} {t'} {ok} {rs} g c p e) =
    Commanded-Sound t t' ok rs (command g c t) (Reachable-Sound p) (command-Commanded g c t) e
Reachable-Sound (reads b p) =
    let s = Reachable-Sound p in record { awaits = s.awaits; not_recording = s.not_recording }
Reachable-Sound (handles {t} {t'} {ok} {rs} g m p e) =
    let s = Reachable-Sound p in
    let k : Step g t ok t' rs =
      subst (λ r. Post (Step g t) r) e (handle_rtsp_pkt-Step g t m s.not_recording s.awaits) in
    record { awaits = k.awaits; not_recording = Step-calm g t ok t' rs k s.not_recording }
Reachable-Sound (dies {t} {t'} p e) = let f = reinit-Fresh t t' e in idle-Sound t' f.status f.busy
