-- ===== src/Playout/Segment.antt =====
-- Stretches of the playout list.
use libnemesi.Common.{
  ℕ, ◌<◌, ◌≡◌, ◌≢◌, refl, sym, none, some, List, [], ◌∷◌, ◌++◌, set, length, get_or-set_self,
  get_or-set_ne, Fresh, Distinct, last, All-last,
}
use libnemesi.Bufferpool.{Link}
use libnemesi.Playout.{PoItem, zero_item, item, set_prev, set_next}

-- From the link `h`, behind the element `p`, the indices `xs` follow one another; the last of them is `l`,
-- and what follows it is `e`.
abbrev pub Seg : List PoItem → Link → Link → List ℕ → Link → Link → Type 0
Seg a p h [] l e = (l ≡ p) × (h ≡ e)
Seg a p h (x ∷ xs) l e =
    (h ≡ some x) × ((item a x).prev ≡ p) × Seg a (some x) (item a x).next xs l e

-- A write outside a stretch leaves it alone.
pub Seg-set :
    (a : List PoItem) (y : ℕ) (v : PoItem) (p h : Link) (xs : List ℕ) (l e : Link)
    → Fresh y xs
    → Seg a p h xs l e
    → Seg (set a y v) p h xs l e
Seg-set a y v p h [] l e f s = s
Seg-set a y v p h (x ∷ xs) l e f s =
    rw (get_or-set_ne a y x v zero_item (λ q. f.0 (sym q)))
      (s.0, s.1, Seg-set a y v (some x) (item a x).next xs l e f.1 s.2)

pub Seg-append :
    (a : List PoItem) (p h : Link) (xs : List ℕ) (m n : Link) (ys : List ℕ) (l e : Link)
    → Seg a p h xs m n
    → Seg a m n ys l e
    → Seg a p h (xs ++ ys) l e
Seg-append a p h [] m n ys l e s t = rw (s.1, ← s.0) t
Seg-append a p h (x ∷ xs) m n ys l e s t =
    (s.0, s.1, Seg-append a (some x) (item a x).next xs m n ys l e s.2 t)

-- A stretch in two parts: what joins them.
pub Seg-split :
    (a : List PoItem) (p h : Link) (xs ys : List ℕ) (l e : Link)
    → Seg a p h (xs ++ ys) l e
    → (m : Link) × (n : Link) × Seg a p h xs m n × Seg a m n ys l e
Seg-split a p h [] ys l e s = (p, h, (refl, refl), s)
Seg-split a p h (x ∷ xs) ys l e s =
    let (m, n, s1, s2) = Seg-split a (some x) (item a x).next xs ys l e s.2 in
    (m, n, (s.0, s.1, s1), s2)

pub Seg-last :
    (a : List PoItem) (p h : Link) (x : ℕ) (xs : List ℕ) (l e : Link)
    → Seg a p h (x ∷ xs) l e
    → l ≡ some (last x xs)
Seg-last a p h x [] l e s = s.2.0
Seg-last a p h x (y ∷ ys) l e s = Seg-last a (some x) (item a x).next y ys l e s.2

-- The link behind the last element is redirected.
pub Seg-set_next :
    (a : List PoItem) (p h : Link) (x : ℕ) (xs : List ℕ) (l e n : Link)
    → Distinct (x ∷ xs)
    → last x xs < length a
    → Seg a p h (x ∷ xs) l e
    → Seg (set_next a (last x xs) n) p h (x ∷ xs) l n
Seg-set_next a p h x [] l e n d b s =
    rw (get_or-set_self a x (record (item a x) { next = n }) zero_item b) (s.0, s.1, (s.2.0, refl))
Seg-set_next a p h x (y ∷ ys) l e n d b s =
    let w = last y ys in
    rw
      (get_or-set_ne a w x (record (item a w) { next = n }) zero_item
        (All-last (λ z. z ≢ x) y ys d.0))
      (s.0, s.1, Seg-set_next a (some x) (item a x).next y ys l e n d.1 b s.2)

-- The link in front of the first element is redirected.
pub Seg-set_prev :
    (a : List PoItem) (p h : Link) (x : ℕ) (xs : List ℕ) (l e m : Link)
    → Fresh x xs
    → x < length a
    → Seg a p h (x ∷ xs) l e
    → Seg (set_prev a x m) m h (x ∷ xs) l e
Seg-set_prev a p h x xs l e m f b s =
    rw (get_or-set_self a x (record (item a x) { prev = m }) zero_item b) (
      s.0,
      refl,
      Seg-set a x (record (item a x) { prev = m }) (some x) (item a x).next xs l e f s.2,
    )

pub Seg-last_next :
    (a : List PoItem) (p h : Link) (x : ℕ) (xs : List ℕ) (l e : Link)
    → Seg a p h (x ∷ xs) l e
    → (item a (last x xs)).next ≡ e
Seg-last_next a p h x [] l e s = s.2.1
Seg-last_next a p h x (y ∷ ys) l e s = Seg-last_next a (some x) (item a x).next y ys l e s.2

abbrev pub first : List ℕ → Link
first [] = none
first (x ∷ xs) = some x

pub Seg-first :
    (a : List PoItem) (p h : Link) (xs : List ℕ) (l : Link) → Seg a p h xs l none → h ≡ first xs
Seg-first a p h [] l s = s.1
Seg-first a p h (x ∷ xs) l s = s.0
