-- ===== src/Rtsp/Token/Progress.antt =====
-- The search for lines goes on by a byte at least with each line, so the loops over the lines of an
-- answer, which have fuel for every byte, end by themselves.
use libnemesi.Common.{
  ℕ, zero, suc, ◌+◌, ◌<◌, ◌≤◌, ◌≡◌, refl, ap, some, List, [], ◌∷◌, arith, if◌then◌else◌, length,
  drop, length-set, Option-cases, Bool-cases, inl, inr,
}
use libnemesi.Rtsp.Text.{begins}
use libnemesi.Rtsp.Token.{Token, newlines, line_length, strtok_r, text_at}
use libnemesi.Rtsp.Reply.{session_key}
use libnemesi.Rtsp.Session.{get_session_str}
use libnemesi.Rtsp.Handlers.{Scanned, ends_header, transport_key, setup_line, setup_loop}

-- A token begins within the bytes, and the search goes on behind its beginning; the bytes stay as many.
pub record Found (bytes : List ℕ) (step start : ℕ) (t : Token) : Type 0 where
  pub from : step ≤ start
  pub within : start < length bytes
  pub behind : start < t.step
  pub size : length t.bytes ≡ length bytes

line_length-drop : (bytes : List ℕ) (i : ℕ) → 0 < line_length (drop i bytes) → i < length bytes
line_length-drop [] zero h = absurd (omega arith)
line_length-drop [] (suc i) h = absurd (omega arith)
line_length-drop (c ∷ bytes) zero h = omega arith
line_length-drop (c ∷ bytes) (suc i) h = omega (arith, line_length-drop bytes i h)

pub strtok_r-Found :
    (bytes : List ℕ) (step k : ℕ)
    → (strtok_r bytes step).tkn ≡ some k
    → Found bytes step k (strtok_r bytes step)
unfolding strtok_r
strtok_r-Found bytes step k h =
    let start = step + newlines (drop step bytes) in
    record {
      from = ground arith;
      within = ground (arith, line_length-drop bytes start);
      behind = ground arith;
      size = ground (arith, length-set bytes (start + line_length (drop start bytes)) 0);
    }

setup_line-eq :
    (bytes : List ℕ) (step prev tkn : ℕ) (name : List ℕ) (f g : ℕ → List ℕ → Scanned (List ℕ))
    → ((p : ℕ) (n : List ℕ) → f p n ≡ g p n)
    → setup_line bytes step prev tkn name f ≡ setup_line bytes step prev tkn name g
unfolding setup_line
setup_line-eq bytes step prev tkn name f g e =
    let prev' = if begins (text_at bytes tkn) transport_key then tkn + 9 else tkn in
    let stopped : Scanned (List ℕ) = record {
      tkn = some tkn;
      step = step;
      bytes = bytes;
      value = name;
    } in
    elim (Bool-cases (begins (text_at bytes prev') session_key)) [
      | inl w ↦ elim (Option-cases (get_session_str (text_at bytes (prev' + 7)))) [
        | inl v ↦ rw (w, v) refl
        | inr (s, v) ↦
            rw (w, v)
              (ap (λ r. if ends_header bytes prev tkn then stopped else r) (e (prev' + 7) s))
      ]
      | inr w ↦ rw w (ap (λ r. if ends_header bytes prev tkn then stopped else r) (e prev' name))
    ]

-- Fuel for the bytes that are left and one round more is enough for the loop over the lines of an
-- answer to SETUP.
pub setup_loop-fuel :
    (fuel : ℕ) (bytes : List ℕ) (step prev : ℕ) (name : List ℕ)
    → length bytes ≤ fuel + step
    → setup_loop (suc fuel) bytes step prev name ≡ setup_loop (suc (suc fuel)) bytes step prev name
unfolding setup_loop
setup_loop-fuel zero bytes step prev name h = elim (Option-cases (strtok_r bytes step).tkn) [
  | inl e ↦ rw (setup_loop, e) refl
  | inr (k, e) ↦ let f = strtok_r-Found bytes step k e in absurd (omega (arith, f.from, f.within))
]
setup_loop-fuel (suc fuel) bytes step prev name h = elim (Option-cases (strtok_r bytes step).tkn) [
  | inl e ↦ rw (setup_loop, e) refl
  | inr (k, e) ↦
      let f = strtok_r-Found bytes step k e in
      rw (setup_loop, e)
        (setup_line-eq (strtok_r bytes step).bytes (strtok_r bytes step).step prev k name _ _
          (λ p n.
            setup_loop-fuel fuel (strtok_r bytes step).bytes (strtok_r bytes step).step p n
              (omega (arith, f.size, f.from, f.behind))))
]
