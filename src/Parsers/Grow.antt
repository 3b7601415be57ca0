-- ===== src/Parsers/Grow.antt =====
-- The buffer of a frame where memory never fails: what the functions on it leave.
use libnemesi.Common.{
  ℕ, ◌+◌, ◌≤◌, ◌≡◌, ◌≢◌, ◌==◌, ◌∷◌, length-append, refl, Bool, true, false, ◌&&◌, List, [], ◌++◌,
  arith, ltb, length, Bool-cases, inl, inr,
}
use libnemesi.Parsers.{Buffer, next, resize, nms_alloc_data, nms_append_incr}

-- The buffer is there, and has room for what it holds.
pub record IsBuffer (b : Buffer) : Type 0 where
  pub present : b.lost ≡ false
  pub within : length b.held ≤ b.data_size

abbrev pub sized : List ℕ → ℕ → Buffer
sized xs size = record { held = xs; data_size = size; lost = false }

abbrev pub Ample : (ℕ → Bool) → Type 0
Ample mem = (n : ℕ) → mem n ≡ true

pub nms_alloc_data-sized :
    (mem : ℕ → Bool) (n : ℕ) (b : Buffer)
    → Ample mem
    → b.lost ≡ false
    → (size : ℕ) × (nms_alloc_data mem n b ≡ next (sized b.held size)) × (n ≤ size)
unfolding nms_alloc_data resize
nms_alloc_data-sized mem n b m v = elim (Bool-cases (ltb b.data_size n)) [
  | inl e ↦ (n, ground (arith, m n), omega arith)
  | inr e ↦ (b.data_size, ground arith, ground arith)
]

pub nms_append_incr-sized :
    (xs ys : List ℕ) (size : ℕ)
    → length xs + length ys ≤ size
    → nms_append_incr ys (sized xs size) ≡ next (sized (xs ++ ys) size)
unfolding nms_append_incr
nms_append_incr-sized xs ys size h = ground arith

pub sized-IsBuffer : (xs : List ℕ) (size : ℕ) → length xs ≤ size → IsBuffer (sized xs size)
sized-IsBuffer xs size h = record { present = refl; within = h }

-- A piece put behind what is held, with memory got for both.
pub grown :
    (mem : ℕ → Bool) (n : ℕ) (b : Buffer) (piece : List ℕ)
    → Ample mem
    → b.lost ≡ false
    → length b.held + length piece ≤ n
    → (size : ℕ) × (length (b.held ++ piece) ≤ size)
      × (nms_alloc_data mem n b ≡ next (sized b.held size))
      × (nms_append_incr piece (sized b.held size) ≡ next (sized (b.held ++ piece) size))
grown mem n b piece m v h =
    let (size, e, fits) = nms_alloc_data-sized mem n b m v in
    (
      size,
      omega (arith, length-append b.held piece),
      e,
      nms_append_incr-sized b.held piece size (omega arith),
    )

-- The first packet of a frame has a bit set.
pub begins :
    (xs : List ℕ) (bit : ℕ) → (xs ≡ [] → bit ≢ 0) → ((length xs == 0) && (bit == 0)) ≡ false
begins [] bit h = ground (arith, h refl)
begins (x ∷ xs) bit h = ground arith
