-- ===== src/Common/Members.antt =====
-- Membership in lists of indices, as predicates by recursion that the tactics read.
use Prim.Native.Nat.{ℕ}
use mathlib.Core.Path.{sym}
use mathlib.Core.Logic.{◌≢◌}
use mathlib.Core.List.{List, [], ◌∷◌, ◌++◌}

abbrev pub All {ℓ κ} : {A : Type ℓ} → (A → Type κ) → List A → Type κ
All P [] = Unit
All P (x ∷ xs) = P x × All P xs

pub All-append {ℓ κ} :
    {A : Type ℓ} (P : A → Type κ) (xs ys : List A) → All P xs → All P ys → All P (xs ++ ys)
All-append P [] ys hx hy = hy
All-append P (x ∷ xs) ys hx hy = (hx.0, All-append P xs ys hx.1 hy)

pub All-left {ℓ κ} : {A : Type ℓ} (P : A → Type κ) (xs ys : List A) → All P (xs ++ ys) → All P xs
All-left P [] ys h = tt
All-left P (x ∷ xs) ys h = (h.0, All-left P xs ys h.1)

pub All-right {ℓ κ} : {A : Type ℓ} (P : A → Type κ) (xs ys : List A) → All P (xs ++ ys) → All P ys
All-right P [] ys h = h
All-right P (x ∷ xs) ys h = All-right P xs ys h.1

pub All-map {ℓ κ μ} :
    {A : Type ℓ} (P : A → Type κ) (Q : A → Type μ) (f : (a : A) → P a → Q a) (xs : List A)
    → All P xs
    → All Q xs
All-map P Q f [] h = tt
All-map P Q f (x ∷ xs) h = (f x h.0, All-map P Q f xs h.1)

-- `y` is not among `xs`.
abbrev pub Fresh : ℕ → List ℕ → Type 0
Fresh y xs = All (λ x. x ≢ y) xs

abbrev pub Distinct : List ℕ → Type 0
Distinct [] = Unit
Distinct (x ∷ xs) = Fresh x xs × Distinct xs

pub Distinct-left : (xs ys : List ℕ) → Distinct (xs ++ ys) → Distinct xs
Distinct-left [] ys d = tt
Distinct-left (x ∷ xs) ys d = (All-left (λ z. z ≢ x) xs ys d.0, Distinct-left xs ys d.1)

pub Distinct-right : (xs ys : List ℕ) → Distinct (xs ++ ys) → Distinct ys
Distinct-right [] ys d = d
Distinct-right (x ∷ xs) ys d = Distinct-right xs ys d.1

-- No element of the first part stands in the second.
pub Distinct-apart : (xs ys : List ℕ) → Distinct (xs ++ ys) → All (λ x. Fresh x ys) xs
Distinct-apart [] ys d = tt
Distinct-apart (x ∷ xs) ys d = (All-right (λ z. z ≢ x) xs ys d.0, Distinct-apart xs ys d.1)

pub Distinct-append :
    (xs ys : List ℕ) → Distinct xs → Distinct ys → All (λ x. Fresh x ys) xs → Distinct (xs ++ ys)
Distinct-append [] ys dx dy h = dy
Distinct-append (x ∷ xs) ys dx dy h =
    (All-append (λ z. z ≢ x) xs ys dx.0 h.0, Distinct-append xs ys dx.1 dy h.1)

-- An element that is fresh for all of the second part's elements, seen from them.
pub Fresh-flip : (xs ys : List ℕ) → All (λ x. Fresh x ys) xs → All (λ y. Fresh y xs) ys
Fresh-flip xs [] h = tt
Fresh-flip xs (y ∷ ys) h = (
  All-map (λ x. Fresh x (y ∷ ys)) (λ x. x ≢ y) (λ x f e. f.0 (sym e)) xs h,
  Fresh-flip xs ys (All-map (λ x. Fresh x (y ∷ ys)) (λ x. Fresh x ys) (λ x f. f.1) xs h),
)

-- The last of a non-empty list.
abbrev pub last : ℕ → List ℕ → ℕ
last x [] = x
last x (y ∷ ys) = last y ys

pub All-last {κ} : (P : ℕ → Type κ) (x : ℕ) (xs : List ℕ) → All P (x ∷ xs) → P (last x xs)
All-last P x [] h = h.0
All-last P x (y ∷ ys) h = All-last P y ys h.1

-- An element put between two parts, and taken from between them.
pub Distinct-insert :
    (i : ℕ) (xs ys : List ℕ) → Fresh i (xs ++ ys) → Distinct (xs ++ ys) → Distinct (xs ++ i ∷ ys)
Distinct-insert i [] ys f d = (f, d)
Distinct-insert i (x ∷ xs) ys f d = (
  All-append (λ z. z ≢ x) xs (i ∷ ys) (All-left (λ z. z ≢ x) xs ys d.0)
      ((λ e. f.0 (sym e)), All-right (λ z. z ≢ x) xs ys d.0),
  Distinct-insert i xs ys f.1 d.1,
)

pub Distinct-remove : (xs ys : List ℕ) (y : ℕ) → Distinct (xs ++ y ∷ ys) → Distinct (xs ++ ys)
Distinct-remove [] ys y d = d.1
Distinct-remove (x ∷ xs) ys y d = (
  All-append (λ z. z ≢ x) xs ys (All-left (λ z. z ≢ x) xs (y ∷ ys) d.0)
      (All-right (λ z. z ≢ x) xs (y ∷ ys) d.0).1,
  Distinct-remove xs ys y d.1,
)

pub Fresh-middle : (xs ys : List ℕ) (y : ℕ) → Distinct (xs ++ y ∷ ys) → Fresh y (xs ++ ys)
Fresh-middle [] ys y d = d.0
Fresh-middle (x ∷ xs) ys y d =
    ((λ e. (All-right (λ z. z ≢ x) xs (y ∷ ys) d.0).0 (sym e)), Fresh-middle xs ys y d.1)

pub All-remove {κ} :
    (P : ℕ → Type κ) (xs ys : List ℕ) (y : ℕ) → All P (xs ++ y ∷ ys) → All P (xs ++ ys)
All-remove P xs ys y h = All-append P xs ys (All-left P xs (y ∷ ys) h) (All-right P xs (y ∷ ys) h).1

pub All-insert {κ} :
    (P : ℕ → Type κ) (xs ys : List ℕ) (y : ℕ) → P y → All P (xs ++ ys) → All P (xs ++ y ∷ ys)
All-insert P xs ys y p h = All-append P xs (y ∷ ys) (All-left P xs ys h) (p, All-right P xs ys h)

pub All-zip {ℓ κ μ} :
    {A : Type ℓ} (P : A → Type κ) (Q : A → Type μ) (xs : List A)
    → All P xs
    → All Q xs
    → All (λ x. P x × Q x) xs
All-zip P Q [] h k = tt
All-zip P Q (x ∷ xs) h k = ((h.0, k.0), All-zip P Q xs h.1 k.1)
