-- ===== src/Rtsp/Machine/Message.antt =====
-- What becomes of the thread with a message, a success or not.
use libnemesi.Common.{
  ℕ, ◌≤◌, ◌≡◌, ◌≢◌, refl, sym, subst, Bool, true, false, not, Option, none, some, List, [], ◌⊎◌,
  arith, ◌==◌, if◌then◌else◌, Bool-cases, inl, inr, get_or, ◌&&◌,
}
use libnemesi.Rtsp.Thread.{
  RtspThread, States, get_response, setup_response, play_response, pause_response, close_response,
  init, ready, playing, recording, rtsp_unbusy, clean_rtsp_th, cancel_threads, rtsp_reinit,
}
use libnemesi.Rtsp.Send.{Request, Ran, ret, crashed, Given}
use libnemesi.Rtsp.Handlers.Effect.{Post, Cleaned, plain-Handled, setup-Handled, get-Handled}
use libnemesi.Rtsp.Text.{c_str, skip_space}
use libnemesi.Rtsp.Buffer.{remove_pkt}
use libnemesi.Rtsp.Buffer.Bounds.{IsBounded, remove_pkt-IsBounded}
use libnemesi.Rtsp.Reply.{Opcode, minus_one, faulty, opcode, check_response}
use libnemesi.Rtsp.Machine.{
  uninit, at_first, after_setup, after_play, after_pause, init_state, closed, ready_state,
  playing_state, state_machine, dispatch, handle_rtsp_pkt, is_interleaved, is_version,
}
use libnemesi.Rtsp.Machine.Steps.{
  Move, closes, Awaits, rest_size, Asks, Moves, OkStep, if_ok-Post, play-OkStep, pause-OkStep,
  setup-OkStep, at_first-OkStep,
}
use libnemesi.Rtsp.Loop.{or_reset}
use libnemesi.Rtsp.Handlers.{handle_plain_response, handle_setup_response}
use libnemesi.Rtsp.Describe.{handle_get_response}
use libnemesi.Rtsp.Setup.{send_setup_request}

-- The thread after a reset: without a connection, sessions, an answer to wait for, or bytes.
pub record Fresh (t : RtspThread) : Type 0 where
  pub status : t.status ≡ init
  pub busy : t.busy ≡ false
  pub awaited : t.wait_for.res ≡ 0
  pub size : t.in_buffer.size ≡ 0
  pub no_bytes : t.in_buffer.bytes ≡ []
  pub no_sessions : t.rtsp_queue ≡ []
  pub connected : t.connected ≡ false

clean-Fresh : (t t' : RtspThread) → clean_rtsp_th t ≡ some t' → Fresh t'
unfolding clean_rtsp_th rtsp_unbusy
clean-Fresh t t' e = record {
  status = ground arith;
  busy = ground arith;
  awaited = ground arith;
  size = ground arith;
  no_bytes = ground arith;
  no_sessions = ground arith;
  connected = ground arith;
}

Fresh-IsBounded : (t : RtspThread) → Fresh t → IsBounded t.in_buffer
Fresh-IsBounded t f = rw f.no_bytes (omega arith)

pub reinit-Fresh : (t t' : RtspThread) → rtsp_reinit t ≡ some t' → Fresh t'
unfolding rtsp_reinit
reinit-Fresh t t' e = clean-Fresh (cancel_threads t t.rtsp_queue) t' e

closed-OkStep :
    (g : Given) (n : ℕ) (t₀ t : RtspThread)
    → n ≡ close_response
    → Cleaned g t₀ t []
    → Post (OkStep g n t₀) (closed t)
unfolding closed rtsp_unbusy
closed-OkStep g n t₀ t w c = go (rtsp_reinit (record t { status = init })) refl
  where
    go :
        (o : Option RtspThread)
        → rtsp_reinit (record t { status = init }) ≡ o
        → Post (OkStep g n t₀) (elim o [
          | none ↦ crashed
          | some t' ↦ ret true (rtsp_unbusy (record (uninit t') { response_id = t.response_id })) []
        ])
    go none e = tt
    go (some t') e = λ h.
        let f = reinit-Fresh (record t { status = init }) t' e in
        record {
          way = inr (subst (λ s. Move n t₀.status s) (sym f.status) (closes w), refl);
          awaits = λ b. cc;
          size = omega (arith, f.size);
          bounded = λ z. Fresh-IsBounded _ f;
        }

refused : (g : Given) (n : ℕ) (t₀ t : RtspThread) → Post (OkStep g n t₀) (ret false t [])
refused g n t₀ t = λ e. cc

init-OkStep :
    (g : Given) (t : RtspThread) (event : ℕ)
    → g.mem_rest ≡ true
    → t.status ≡ init
    → Post (OkStep g event t) (init_state g t event)
unfolding init_state
init-OkStep g t event m s = elim (Bool-cases (event == get_response)) [
  | inl e ↦ rw e (
      if_ok-Post g event t (handle_get_response g t)
        (λ t'. at_first t' (λ t''. send_setup_request g t'')) (get-Handled g t m)
        (λ t' c. at_first-OkStep event g t t' c))
  | inr e ↦ elim (Bool-cases (event == setup_response)) [
    | inl k ↦
        rw (e, k)
          (if_ok-Post g event t (handle_setup_response g t) (λ t'. after_setup g t')
            (setup-Handled g t m) (λ t' c. setup-OkStep event g t t' (ground arith) s c))
    | inr k ↦ rw (e, k) (refused g event t t)
  ]
]

ready-OkStep :
    (g : Given) (t : RtspThread) (event : ℕ)
    → g.mem_rest ≡ true
    → t.status ≡ ready
    → Post (OkStep g event t) (ready_state g t event)
unfolding ready_state
ready-OkStep g t event m s = elim (Bool-cases (event == play_response)) [
  | inl e ↦ rw e (
      if_ok-Post g event t (handle_plain_response g t) (λ t'. after_play g t') (plain-Handled g t m)
        (λ t' c. play-OkStep event g t t' (ground arith) s c))
  | inr e ↦ elim (Bool-cases (event == close_response)) [
    | inl k ↦
        rw (e, k)
          (if_ok-Post g event t (handle_plain_response g t) (λ t'. closed t') (plain-Handled g t m)
            (λ t' c. closed-OkStep g event t t' (ground arith) c))
    | inr k ↦ rw (e, k) (refused g event t t)
  ]
]

playing-OkStep :
    (g : Given) (t : RtspThread) (event : ℕ)
    → g.mem_rest ≡ true
    → t.status ≡ playing
    → Post (OkStep g event t) (playing_state g t event)
unfolding playing_state
playing-OkStep g t event m s = elim (Bool-cases (event == pause_response)) [
  | inl e ↦ rw e (
      if_ok-Post g event t (handle_plain_response g t) (λ t'. after_pause g t')
        (plain-Handled g t m) (λ t' c. pause-OkStep event g t t' (ground arith) s c))
  | inr e ↦ elim (Bool-cases (event == close_response)) [
    | inl k ↦
        rw (e, k)
          (if_ok-Post g event t (handle_plain_response g t) (λ t'. closed t') (plain-Handled g t m)
            (λ t' c. closed-OkStep g event t t' (ground arith) c))
    | inr k ↦ rw (e, k) (refused g event t t)
  ]
]

machine-OkStep :
    (g : Given) (t : RtspThread) (s : States) (event : ℕ)
    → g.mem_rest ≡ true
    → t.status ≡ s
    → s ≢ recording
    → Post (OkStep g event t) (state_machine g s t event)
unfolding state_machine
machine-OkStep g t init event m e r = init-OkStep g t event m e
machine-OkStep g t ready event m e r = ready-OkStep g t event m e
machine-OkStep g t playing event m e r = playing-OkStep g t event m e
machine-OkStep g t recording event m e r = absurd (r refl)

-- A packet of media, which comes interleaved, changes nothing and sends nothing.
abbrev pub Media : RtspThread → RtspThread → List Request → Type 0
Media t₀ t rs =
    ((is_interleaved t₀ && get_or t₀.in_buffer.bytes 0 0 == 36) ≡ true)
    × (t.status ≡ t₀.status)
    × (rs ≡ [])

-- What a message handled with success is: a packet of media, or the answer that the thread waits for,
-- which makes it send one more request or move to another state.
abbrev pub Way : Given → RtspThread → RtspThread → List Request → Type 0
Way g t₀ t rs =
    Media t₀ t rs ⊎ ((n : ℕ) × (check_response g t₀ ≡ opcode n) × (Asks t₀ t rs ⊎ Moves n t₀ t rs))

record Passed (g : Given) (t₀ t : RtspThread) (rs : List Request) : Type 0 where
  way : Way g t₀ t rs
  awaits : Awaits t
  size : t.in_buffer.size ≤ rest_size t₀
  bounded : g.beyond ≡ [] → IsBounded t.in_buffer

abbrev OkPass : Given → RtspThread → Bool → RtspThread → List Request → Type 0
OkPass g t₀ ok t rs = ok ≡ true → Passed g t₀ t rs

OkStep-OkPass :
    (g : Given) (n : ℕ) (t₀ : RtspThread) (r : Ran)
    → check_response g t₀ ≡ opcode n
    → Post (OkStep g n t₀) r
    → Post (OkPass g t₀) r
OkStep-OkPass g n t₀ crashed e h = tt
OkStep-OkPass g n t₀ (ret ok t rs) e h = λ k.
    let s = h k in
    record { way = inr (n, e, s.way); awaits = s.awaits; size = s.size; bounded = s.bounded }

dispatch-OkPass :
    (g : Given) (t : RtspThread) (o : Opcode)
    → check_response g t ≡ o
    → g.mem_rest ≡ true
    → t.status ≢ recording
    → Post (OkPass g t) (dispatch g t o)
unfolding dispatch
dispatch-OkPass g t minus_one c m r = λ e. cc
dispatch-OkPass g t faulty c m r = tt
dispatch-OkPass g t (opcode n) c m r = elim (Bool-cases (n == 0)) [
  | inl e ↦ rw e (λ e. cc)
  | inr e ↦ rw e (
      OkStep-OkPass g n t (state_machine g t.status t n) c (machine-OkStep g t t.status n m refl r))
]

-- A message that is handled without error.
message-OkPass :
    (g : Given) (t : RtspThread)
    → g.mem_rest ≡ true
    → t.status ≢ recording
    → Awaits t
    → Post (OkPass g t) (handle_rtsp_pkt g t)
unfolding handle_rtsp_pkt remove_pkt
message-OkPass g t m r a =
    go (is_interleaved t && get_or t.in_buffer.bytes 0 0 == 36)
      (not (is_version (skip_space (c_str t.in_buffer.bytes)))) refl
  where
    go :
        (b c : Bool)
        → (is_interleaved t && get_or t.in_buffer.bytes 0 0 == 36) ≡ b
        → Post (OkPass g t) (
            if b
            then ret true (record t { in_buffer = remove_pkt g.mem_rest g.beyond t.in_buffer }) []
            else if c
            then ret false t []
            else dispatch g t (check_response g t))
    go true c i = λ e. record {
      way = inl (i, refl, refl);
      awaits = a;
      size = ground (arith, m);
      bounded = λ z. rw m (remove_pkt-IsBounded g.beyond t.in_buffer z);
    }
    go false true i = λ e. cc
    go false false i = dispatch-OkPass g t (check_response g t) refl m r

-- What a message does: a success goes one of the ways, an error resets the thread.
pub record Step (g : Given) (t₀ : RtspThread) (ok : Bool) (t : RtspThread) (rs : List Request)
    : Type 0 where
  pub outcome : ((ok ≡ true) × Way g t₀ t rs) ⊎ ((ok ≡ false) × Fresh t)
  pub awaits : Awaits t
  pub size : t.in_buffer.size ≤ rest_size t₀
  pub bounded : g.beyond ≡ [] → IsBounded t.in_buffer

or_reset-Step :
    (g : Given) (t₀ : RtspThread) (r : Ran) → Post (OkPass g t₀) r → Post (Step g t₀) (or_reset r)
unfolding or_reset
or_reset-Step g t₀ crashed h = tt
or_reset-Step g t₀ (ret true t rs) h =
    let s = h refl in
    record { outcome = inl (refl, s.way); awaits = s.awaits; size = s.size; bounded = s.bounded }
or_reset-Step g t₀ (ret false t rs) h = go (rtsp_reinit t) refl
  where
    go :
        (o : Option RtspThread)
        → rtsp_reinit t ≡ o
        → Post (Step g t₀) (elim o [ none ↦ crashed | some t' ↦ ret false t' rs ])
    go none e = tt
    go (some t') e =
        let f = reinit-Fresh t t' e in
        record {
          outcome = inr (refl, f);
          awaits = λ b. ground arith;
          size = omega (arith, f.size);
          bounded = λ z. Fresh-IsBounded _ f;
        }

pub handle_rtsp_pkt-Step :
    (g : Given) (t : RtspThread)
    → g.mem_rest ≡ true
    → t.status ≢ recording
    → Awaits t
    → Post (Step g t) (or_reset (handle_rtsp_pkt g t))
handle_rtsp_pkt-Step g t m r a = or_reset-Step g t (handle_rtsp_pkt g t) (message-OkPass g t m r a)
