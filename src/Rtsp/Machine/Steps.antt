-- ===== src/Rtsp/Machine/Steps.antt =====
-- What handling a message does to the state of the thread, its flag and its buffer.
use libnemesi.Common.{
  ℕ, ◌+◌, ◌-◌, ◌%◌, ◌^◌, ◌<◌, ◌≤◌, ◌≡◌, refl, sym, ap, ◌∙◌, subst, Bool, true, false, not, Option,
  ◌⊎◌, inl, inr, none, some, List, [], ◌∷◌, arith, if◌then◌else◌, length,
}
use libnemesi.Rtsp.Buffer.Bounds.{IsBounded}
use libnemesi.Rtsp.Thread.{
  RtspThread, States, init, ready, playing, rtsp_unbusy, setup_response, play_response,
  pause_response, close_response,
}
use libnemesi.Rtsp.Send.{Request, Ran, ret, crashed, Given, send_play_request, send_pause_request}
use libnemesi.Rtsp.Setup.{send_setup_request}
use libnemesi.Rtsp.Session.{RtspMedium, RtspSession, Cursor, gcs_nxt_sess, gcs_nxt_med, gcs_init}
use libnemesi.Rtsp.Handlers.Effect.{Post, Cleaned, Handled}
use libnemesi.Rtsp.Machine.{
  sent_before, if_ok, at_first, start_threads, all_set_up, after_setup, after_play, after_pause,
  uninit,
}
use libnemesi.Rtsp.Machine.Effects.{Sent, play-Sent, pause-Sent, setup-Sent}

-- The moves from one state to another, each by the answer that it takes: the media are all set up, they
-- play, they pause, or the session is closed.
pub data Move : ℕ → States → States → Type 0 where
  sets_up : {n : ℕ} → n ≡ setup_response → Move n init ready
  plays : {n : ℕ} → n ≡ play_response → Move n ready playing
  pauses : {n : ℕ} → n ≡ pause_response → Move n playing ready
  closes : {n : ℕ} {s : States} → n ≡ close_response → Move n s init

-- A busy thread waits for an answer.
abbrev pub Awaits : RtspThread → Type 0
Awaits t = t.busy ≡ true → 0 < t.wait_for.res

-- The size of the buffer without its first packet.
abbrev pub rest_size : RtspThread → ℕ
rest_size t = (t.in_buffer.size + 2 ^ 64 - t.in_buffer.first_pkt_size) % 2 ^ 64

-- The state stays, and one more request is sent.
abbrev pub Asks : RtspThread → RtspThread → List Request → Type 0
Asks t₀ t rs = (t.status ≡ t₀.status) × (length rs ≡ 1)

-- The state moves by the answer `n`, and nothing is sent.
abbrev pub Moves : ℕ → RtspThread → RtspThread → List Request → Type 0
Moves n t₀ t rs = Move n t₀.status t.status × (rs ≡ [])

-- What the answer `n`, handled with success, does.
pub record Stepped (g : Given) (n : ℕ) (t₀ t : RtspThread) (rs : List Request) : Type 0 where
  pub way : Asks t₀ t rs ⊎ Moves n t₀ t rs
  pub awaits : Awaits t
  pub size : t.in_buffer.size ≤ rest_size t₀
  pub bounded : g.beyond ≡ [] → IsBounded t.in_buffer

abbrev pub OkStep : Given → ℕ → RtspThread → Bool → RtspThread → List Request → Type 0
OkStep g n t₀ ok t rs = ok ≡ true → Stepped g n t₀ t rs

nothing_before :
    (P : Bool → RtspThread → List Request → Type 0) (r : Ran) → Post P r → Post P (sent_before [] r)
nothing_before P (ret ok t rs) h = h
nothing_before P crashed h = tt

pub if_ok-Post :
    (g : Given) (n : ℕ) (t₀ : RtspThread) (r : Ran) (rest : RtspThread → Ran)
    → Post (Handled g t₀) r
    → ((t : RtspThread) → Cleaned g t₀ t [] → Post (OkStep g n t₀) (rest t))
    → Post (OkStep g n t₀) (if_ok r rest)
if_ok-Post g n t₀ crashed rest h k = tt
if_ok-Post g n t₀ (ret false t rs) rest h k = λ e. cc
if_ok-Post g n t₀ (ret true t rs) rest h k =
    let c = h refl in
    let c' : Cleaned g t₀ t [] = subst (λ rs. Cleaned g t₀ t rs) c.nothing c in
    subst (λ rs. Post (OkStep g n t₀) (sent_before rs (rest t))) (sym c.nothing)
      (nothing_before (OkStep g n t₀) (rest t) (k t c'))

-- After a handler, sending one more request.
Sent-on :
    (g : Given) (n : ℕ) (t₀ t t' : RtspThread) (ok : Bool) (rs : List Request)
    → Cleaned g t₀ t []
    → Sent t ok t' rs
    → OkStep g n t₀ ok t' rs
Sent-on g n t₀ t t' ok rs c s e = record {
  way = inl (s.status ∙ c.status, s.one e);
  awaits = λ b. s.awaited e;
  size = omega (arith, ap (λ b. b.size) s.in_buffer, c.size);
  bounded = λ z. subst IsBounded (sym s.in_buffer) (c.bounded z);
}

Sent-after :
    (g : Given) (n : ℕ) (t₀ t : RtspThread) (r : Ran)
    → Cleaned g t₀ t []
    → Post (Sent t) r
    → Post (OkStep g n t₀) r
Sent-after g n t₀ t (ret ok t' rs) c s = Sent-on g n t₀ t t' ok rs c s
Sent-after g n t₀ t crashed c s = tt

moved :
    (g : Given) (t₀ t : RtspThread) (c : Cursor)
    → Cleaned g t₀ t []
    → Cleaned g t₀ (record t { cursor = c }) []
moved g t₀ t c h = record {
  status = h.status;
  busy = h.busy;
  size = h.size;
  awaited = h.awaited;
  nothing = refl;
  bounded = h.bounded;
}

-- After a handler, a change of the state with which the thread is no longer busy.
pub settled :
    (g : Given) (n : ℕ) (t₀ t t' : RtspThread)
    → Cleaned g t₀ t []
    → Move n t₀.status t'.status
    → t'.busy ≡ false
    → t'.in_buffer ≡ t.in_buffer
    → Stepped g n t₀ t' []
settled g n t₀ t t' c e b i = record {
  way = inr (e, refl);
  awaits = λ h. ground arith;
  size = omega (arith, ap (λ b. b.size) i, c.size);
  bounded = λ z. subst IsBounded (sym i) (c.bounded z);
}

pub play-OkStep :
    (n : ℕ) (g : Given) (t₀ t : RtspThread)
    → n ≡ play_response
    → t₀.status ≡ ready
    → Cleaned g t₀ t []
    → Post (OkStep g n t₀) (after_play g t)
unfolding after_play rtsp_unbusy
play-OkStep n g t₀ t w s c = go (gcs_nxt_sess t.rtsp_queue t.cursor).static_sess
  where
    t' : RtspThread
    t' = record t { cursor = gcs_nxt_sess t.rtsp_queue t.cursor }

    go :
        (o : Option ℕ)
        → Post (OkStep g n t₀) (elim o [
          | none ↦ ret true (rtsp_unbusy (record (uninit t') { status = playing })) []
          | some i ↦ send_play_request g t' []
        ])
    go none = λ e. settled g n t₀ t _ c (subst (λ s. Move n s playing) (sym s) (plays w)) refl refl
    go (some i) =
        Sent-after g n t₀ t' _ (moved g t₀ t (gcs_nxt_sess t.rtsp_queue t.cursor) c)
          (play-Sent g t' [])

pub pause-OkStep :
    (n : ℕ) (g : Given) (t₀ t : RtspThread)
    → n ≡ pause_response
    → t₀.status ≡ playing
    → Cleaned g t₀ t []
    → Post (OkStep g n t₀) (after_pause g t)
unfolding after_pause rtsp_unbusy
pause-OkStep n g t₀ t w s c = go (gcs_nxt_sess t.rtsp_queue t.cursor).static_sess
  where
    t' : RtspThread
    t' = record t { cursor = gcs_nxt_sess t.rtsp_queue t.cursor }

    go :
        (o : Option ℕ)
        → Post (OkStep g n t₀) (elim o [
          | none ↦ ret true (rtsp_unbusy (record (uninit t') { status = ready })) []
          | some i ↦ send_pause_request g t' []
        ])
    go none = λ e. settled g n t₀ t _ c (subst (λ s. Move n s ready) (sym s) (pauses w)) refl refl
    go (some i) =
        Sent-after g n t₀ t' _ (moved g t₀ t (gcs_nxt_sess t.rtsp_queue t.cursor) c)
          (pause-Sent g t' [])

pub start_threads-OkStep :
    (n : ℕ) (g : Given) (t₀ t : RtspThread)
    → n ≡ setup_response
    → t₀.status ≡ init
    → Cleaned g t₀ t []
    → Post (OkStep g n t₀) (start_threads g t)
unfolding start_threads rtsp_unbusy
start_threads-OkStep n g t₀ t w s c = go g.rtp_thread g.rtcp_thread
  where
    go :
        (b c' : Bool)
        → Post (OkStep g n t₀) (
            if not b
            then ret false t []
            else if not c'
            then ret false (record t { rtp_up = true }) []
            else ret true
                (rtsp_unbusy (record (uninit t) { rtp_up = true; rtcp_up = true; status = ready }))
                [])
    go false c' = λ e. cc
    go true false = λ e. cc
    go true true =
        λ e. settled g n t₀ t _ c (subst (λ s. Move n s ready) (sym s) (sets_up w)) refl refl

pub all_set_up-OkStep :
    (n : ℕ) (g : Given) (t₀ t : RtspThread)
    → n ≡ setup_response
    → t₀.status ≡ init
    → Cleaned g t₀ t []
    → Post (OkStep g n t₀) (all_set_up g t)
unfolding all_set_up
all_set_up-OkStep n g t₀ t w s c = go t.rtsp_queue
  where
    with_media :
        (ms : List RtspMedium)
        → Post (OkStep g n t₀) (elim ms [ [] ↦ crashed | m ∷ ms ↦ start_threads g t ])
    with_media [] = tt
    with_media (m ∷ ms) = start_threads-OkStep n g t₀ t w s c

    go :
        (q : List RtspSession)
        → Post (OkStep g n t₀) (elim q [
          | [] ↦ crashed
          | s ∷ q ↦ elim s.media_queue [ [] ↦ crashed | m ∷ ms ↦ start_threads g t ]
        ])
    go [] = tt
    go (s' ∷ q) = with_media s'.media_queue

pub setup-OkStep :
    (n : ℕ) (g : Given) (t₀ t : RtspThread)
    → n ≡ setup_response
    → t₀.status ≡ init
    → Cleaned g t₀ t []
    → Post (OkStep g n t₀) (after_setup g t)
unfolding after_setup
setup-OkStep n g t₀ t w s c = go (gcs_nxt_med t.rtsp_queue t.cursor).static_med
  where
    t' : RtspThread
    t' = record t { cursor = gcs_nxt_med t.rtsp_queue t.cursor }

    go :
        (o : Option (ℕ × ℕ))
        → Post
            (OkStep g n t₀)
            (elim o [ none ↦ all_set_up g t' | some m ↦ send_setup_request g t' ])
    go none = all_set_up-OkStep n g t₀ t' w s (moved g t₀ t (gcs_nxt_med t.rtsp_queue t.cursor) c)
    go (some m) =
        Sent-after g n t₀ t' _ (moved g t₀ t (gcs_nxt_med t.rtsp_queue t.cursor) c)
          (setup-Sent g t')

pub at_first-OkStep :
    (n : ℕ) (g : Given) (t₀ t : RtspThread)
    → Cleaned g t₀ t []
    → Post (OkStep g n t₀) (at_first t (λ t'. send_setup_request g t'))
at_first-OkStep n g t₀ t c = go (gcs_init t.rtsp_queue)
  where
    go :
        (o : Option Cursor)
        → Post
            (OkStep g n t₀)
            (elim o [ none ↦ crashed | some k ↦ send_setup_request g (record t { cursor = k }) ])
    go none = tt
    go (some k) = Sent-after g n t₀ (record t { cursor = k }) _ (moved g t₀ t k c) (setup-Sent g _)
