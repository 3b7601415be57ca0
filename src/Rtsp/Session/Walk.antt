-- ===== src/Rtsp/Session/Walk.antt =====
-- The cursor of get_curr_sess goes through all media.
use libnemesi.Common.{
  ℕ, zero, suc, ◌+◌, ◌<◌, ◌≡◌, refl, sym, ap, ◌∙◌, Option, none, some, List, [], ◌∷◌, ◌++◌, length,
  get_or, drop, arith, All,
}
use libnemesi.Rtsp.Session.{
  RtspSession, Cursor, nowhere, session_at, media_head, next_sess, next_med, gcs_init, med_of,
  follow_sess, follow_med, leave_sess, gcs_nxt_med, no_session,
}

-- Every session has a medium at least.
abbrev pub HasMedia : RtspSession → Type 0
HasMedia s = 0 < length s.media_queue

-- The media of the session `i` from the place `j` on, `n` of them.
abbrev pub media_from : ℕ → ℕ → ℕ → List (ℕ × ℕ)
media_from i j zero = []
media_from i j (suc n) = (i, j) ∷ media_from i (j + 1) n

-- All media of the sessions from the place `i` on.
abbrev pub places_from : ℕ → List RtspSession → List (ℕ × ℕ)
places_from i [] = []
places_from i (s ∷ q) = media_from i 0 (length s.media_queue) ++ places_from (i + 1) q

-- The media that the cursor stands at, one after the other, by calls of GCS_NXT_MED until one
-- returns NULL. `none`: out of fuel.
abbrev pub visit : List RtspSession → ℕ → Cursor → Option (List (ℕ × ℕ))
visit q zero c = none
visit q (suc fuel) c = elim c.static_med [
  | none ↦ some []
  | some m ↦ elim (visit q fuel (gcs_nxt_med q c)) [ none ↦ none | some ms ↦ some (m ∷ ms) ]
]

module _ {ℓ} {A : Type ℓ} where
  get_or-drop : (q r : List A) (i : ℕ) (s d : A) → drop i q ≡ s ∷ r → get_or q i d ≡ s
  get_or-drop [] r zero s d h = cc
  get_or-drop [] r (suc i) s d h = cc
  get_or-drop (x ∷ q) r zero s d h = cc
  get_or-drop (x ∷ q) r (suc i) s d h = get_or-drop q r i s d h

  drop-suc : (q r : List A) (i : ℕ) (s : A) → drop i q ≡ s ∷ r → drop (suc i) q ≡ r
  drop-suc [] r zero s h = cc
  drop-suc [] r (suc i) s h = cc
  drop-suc (x ∷ q) r zero s h = cc
  drop-suc (x ∷ q) r (suc i) s h = drop-suc q r i s h

  drop-next : (q r : List A) (i : ℕ) (s : A) → drop i q ≡ s ∷ r → drop (i + 1) q ≡ r
  drop-next q r i s h =
      let e : i + 1 ≡ suc i = omega arith in ap (λ k. drop k q) e ∙ drop-suc q r i s h

  length-drop : (q r : List A) (i : ℕ) (s : A) → drop i q ≡ s ∷ r → length q ≡ i + 1 + length r
  length-drop [] r zero s h = cc
  length-drop [] r (suc i) s h = cc
  length-drop (x ∷ q) r zero s h = let e : q ≡ r = cc in omega (arith, ap length e)
  length-drop (x ∷ q) r (suc i) s h = omega (arith, length-drop q r i s h)

sized : {A : Type 0} (xs : List A) → 0 < length xs → (k : ℕ) × (length xs ≡ suc k)
sized [] h = absurd (omega arith)
sized (x ∷ xs) h = (length xs, refl)

-- The cursor at a medium.
abbrev pub at : ℕ → ℕ → Cursor
at i j = record { static_sess = some i; static_med = some (i, j) }

media_head-some :
    (q : List RtspSession) (i : ℕ) → HasMedia (session_at q i) → media_head q i ≡ some (i, 0)
unfolding media_head
media_head-some q i h = ground arith

within_sess :
    (q : List RtspSession) (i j : ℕ)
    → j + 1 < length (session_at q i).media_queue
    → gcs_nxt_med q (at i j) ≡ at i (j + 1)
unfolding gcs_nxt_med follow_med next_med
within_sess q i j h = ground arith

to_next_sess :
    (q : List RtspSession) (i j : ℕ)
    → length (session_at q i).media_queue ≡ j + 1
    → i + 1 < length q
    → HasMedia (session_at q (i + 1))
    → gcs_nxt_med q (at i j) ≡ at (i + 1) 0
unfolding gcs_nxt_med follow_med next_med leave_sess follow_sess next_sess med_of
to_next_sess q i j e h m = ground (arith, media_head-some q (i + 1) m)

at_the_end :
    (q : List RtspSession) (i j : ℕ)
    → length (session_at q i).media_queue ≡ j + 1
    → length q ≡ i + 1
    → gcs_nxt_med q (at i j) ≡ nowhere
unfolding gcs_nxt_med follow_med next_med leave_sess follow_sess next_sess med_of
at_the_end q i j e h = ground arith

-- The media that the walk has left at a cursor.
abbrev pub left_at : ℕ → ℕ → ℕ → List RtspSession → List (ℕ × ℕ)
left_at i j n post = media_from i j (suc n) ++ places_from (i + 1) post

visit-step :
    (q : List RtspSession) (fuel i j : ℕ) (c : Cursor) (ms : List (ℕ × ℕ))
    → gcs_nxt_med q (at i j) ≡ c
    → visit q fuel c ≡ some ms
    → visit q (suc fuel) (at i j) ≡ some ((i, j) ∷ ms)
visit-step q fuel i j c ms e h = rw (e, h) refl

visit-left :
    (q post : List RtspSession) (s : RtspSession) (fuel i j n : ℕ)
    → drop i q ≡ s ∷ post
    → length s.media_queue ≡ j + 1 + n
    → All HasMedia post
    → length (left_at i j n post) < fuel
    → visit q fuel (at i j) ≡ some (left_at i j n post)
visit-left q post s zero i j n d l m f = absurd (omega arith)
visit-left q post s (suc fuel) i j (suc n) d l m f =
    let e = get_or-drop q post i s no_session d in
    visit-step q fuel i j (at i (j + 1)) (left_at i (j + 1) n post)
      (within_sess q i j (omega (arith, ap (λ s. length s.media_queue) e)))
      (visit-left q post s fuel i (j + 1) n d (omega arith) m (omega arith))
visit-left q [] s (suc (suc fuel)) i j zero d l m f =
    let e = get_or-drop q [] i s no_session d in
    visit-step q (suc fuel) i j nowhere []
      (at_the_end q i j (omega (arith, ap (λ s. length s.media_queue) e))
        (omega (arith, length-drop q [] i s d)))
      refl
visit-left q [] s (suc zero) i j zero d l m f = absurd (omega arith)
visit-left q (s' ∷ post) s (suc fuel) i j zero d l m f =
    let e = get_or-drop q (s' ∷ post) i s no_session d in
    let d' = drop-next q (s' ∷ post) i s d in
    let e' = get_or-drop q post (i + 1) s' no_session d' in
    let (k, w) = sized s'.media_queue m.0 in
    let g : left_at (i + 1) 0 k post ≡ places_from (i + 1) (s' ∷ post) =
      ap (λ n. media_from (i + 1) 0 n ++ places_from (i + 1 + 1) post) (sym w) in
    visit-step q fuel i j (at (i + 1) 0) (places_from (i + 1) (s' ∷ post))
      (to_next_sess q i j (omega (arith, ap (λ s. length s.media_queue) e))
        (omega (arith, length-drop q (s' ∷ post) i s d))
        (omega (arith, m.0, ap (λ s. length s.media_queue) e')))
      (visit-left q post s' fuel (i + 1) 0 k d' (omega (arith, w)) m.1
          (omega (arith, f, ap length g))
        ∙ ap some g)

-- The cursor set by GCS_INIT goes through all media, those of the first session first, each once:
-- calls of GCS_NXT_MED then give one after the other, and NULL at the end. Each session must have a
-- medium; with `places_from` counting them this many calls and one more are enough.
pub gcs_nxt_med-all :
    (s : RtspSession) (q : List RtspSession)
    → All HasMedia (s ∷ q)
    → (c : Cursor) × (gcs_init (s ∷ q) ≡ some c)
      × (visit (s ∷ q) (suc (length (places_from 0 (s ∷ q)))) c ≡ some (places_from 0 (s ∷ q)))
unfolding gcs_init
gcs_nxt_med-all s q m =
    let (k, w) = sized s.media_queue m.0 in
    let g : left_at 0 0 k q ≡ places_from 0 (s ∷ q) =
      ap (λ n. media_from 0 0 n ++ places_from 1 q) (sym w) in
    (
      at 0 0,
      ap (λ p. some (record { static_sess = some 0; static_med = p }))
          (media_head-some (s ∷ q) 0 m.0),
      visit-left (s ∷ q) q s (suc (length (places_from 0 (s ∷ q)))) 0 0 k refl (omega (arith, w))
            m.1 (omega (arith, ap length g))
          ∙ ap some g,
    )
