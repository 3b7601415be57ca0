-- ===== src/Parsers/Text/Base64.antt =====
-- Bytes written as base64 text and read again.
use libnemesi.Common.{
  ℕ, zero, suc, ◌+◌, ◌-◌, ◌*◌, ◌/◌, ◌%◌, ◌^◌, ◌<◌, ◌≤◌, ◌≡◌, ◌≢◌, refl, ap, sym, subst, ◌∙◌, Bool,
  true, false, ◌&&◌, Option, some, List, [], ◌∷◌, length, ltb, ◌==◌, if◌then◌else◌, arith,
  Bool-cases, inl, inr,
}
use libnemesi.Parsers.Text.{
  in_front, emit, map2, sextet, shifted, base64_step, base64_loop, nms_base64_decode,
}
use libnemesi.Parsers.Text.Hex.{AreBytes}

abbrev pub base64_char : ℕ → ℕ
base64_char d =
    if ltb d 26
    then 65 + d
    else if ltb d 52
    then 71 + d
    else if ltb d 62
    then d - 4
    else if d == 62
    then 43
    else 47

-- The text, filled up with `=`.
abbrev pub base64_text : List ℕ → List ℕ
base64_text [] = []
base64_text (a ∷ []) = base64_char (a / 4) ∷ base64_char (a % 4 * 16) ∷ 61 ∷ 61 ∷ []
base64_text (a ∷ b ∷ []) =
    base64_char (a / 4) ∷ base64_char (a % 4 * 16 + b / 16) ∷ base64_char (b % 16 * 4) ∷ 61 ∷ []
base64_text (a ∷ b ∷ c ∷ bs) =
    base64_char (a / 4)
    ∷ base64_char (a % 4 * 16 + b / 16)
    ∷ base64_char (b % 16 * 4 + c / 64)
    ∷ base64_char (c % 64)
    ∷ base64_text bs

-- A test that the first `n` numbers pass.
abbrev passes : (ℕ → Bool) → ℕ → Bool
passes f zero = true
passes f (suc n) = f n && passes f n

and-true : (a b : Bool) → (a && b) ≡ true → (a ≡ true) × (b ≡ true)
and-true true b h = (refl, h)
and-true false b h = ground arith

passes-at : (f : ℕ → Bool) (n d : ℕ) → passes f n ≡ true → d < n → f d ≡ true
passes-at f zero d h l = absurd (omega arith)
passes-at f (suc n) d h l =
    let (a, b) = and-true (f n) (passes f n) h in
    elim (Bool-cases (d == n)) [
      | inl e ↦ let q : d ≡ n = ground arith in subst (λ m. f m ≡ true) (sym q) a
      | inr e ↦ passes-at f n d b (let q : d ≢ n = ground arith in omega (arith, q))
    ]

is_read : ℕ → Bool
is_read d = sextet (base64_char d) == d

reads_all : passes is_read 64 ≡ true
unfolding is_read sextet map2
reads_all = refl

sextet-char : (d : ℕ) → d < 64 → sextet (base64_char d) ≡ d
unfolding is_read
sextet-char d h =
    let e : (sextet (base64_char d) == d) ≡ true = passes-at is_read 64 d reads_all h in
    ground arith

char_ne : (d : ℕ) → d < 64 → (base64_char d == 61) ≡ false
char_ne d h = ground arith

-- A character of base64 with the value `d`.
base64_loop-char :
    (k v room d : ℕ) (s : List ℕ)
    → d < 64
    → base64_loop k v room (base64_char d ∷ s)
      ≡ base64_step k v room d (λ v' room'. base64_loop ((k + 1) % 4) v' room' s)
unfolding base64_loop
base64_loop-char k v room d s h = rw (char_ne d h, sextet-char d h) refl

byte_a :
    (v d a : ℕ)
    → a < 256
    → d < 16
    → (((v * 64 + a / 4) % 2 ^ 32 * 64 + (a % 4 * 16 + d)) % 2 ^ 32) / 16 % 256 ≡ a
byte_a v d a h k = omega arith

byte_b :
    (v x d b : ℕ)
    → b < 256
    → d < 4
    → ((v * 64 + (x * 16 + b / 16)) % 2 ^ 32 * 64 + (b % 16 * 4 + d)) % 2 ^ 32 / 4 % 256 ≡ b
byte_b v x d b h k = omega arith

byte_c :
    (v x c : ℕ) → c < 256 → ((v * 64 + (x * 4 + c / 64)) % 2 ^ 32 * 64 + c % 64) % 2 ^ 32 % 256 ≡ c
byte_c v x c h = omega arith

module _ (v room d : ℕ) (rest : ℕ → ℕ → Option (List ℕ)) (h : d < 64) where
  step-first : base64_step 0 v room d rest ≡ rest ((v * 64 + d) % 2 ^ 32) room
  unfolding base64_step
  step-first = ground arith

  step-byte :
      (k b : ℕ)
      → shifted (suc k) ((v * 64 + d) % 2 ^ 32) % 256 ≡ b
      → base64_step (suc k) v (suc room) d rest ≡ in_front b (rest ((v * 64 + d) % 2 ^ 32) room)
  unfolding base64_step emit
  step-byte k b e = ground arith

-- What the two last characters of a group leave.
abbrev next_v : ℕ → ℕ → ℕ
next_v v d = (v * 64 + d) % 2 ^ 32

module _ (v room a c d : ℕ) (s : List ℕ) (h : a < 256) (l : d < 16) (q : c ≡ a % 4 * 16 + d) where
  second_byte : shifted 1 (next_v (next_v v (a / 4)) c) % 256 ≡ a
  unfolding shifted
  second_byte = rw q (byte_a v d a h l)

  first_byte :
      base64_loop 0 v (suc room) (base64_char (a / 4) ∷ base64_char c ∷ s)
      ≡ in_front a (base64_loop 2 (next_v (next_v v (a / 4)) c) room s)
  first_byte =
      base64_loop-char 0 v (suc room) (a / 4) (base64_char c ∷ s) (omega arith)
      ∙ step-first v (suc room) (a / 4) (λ v' r. base64_loop 1 v' r (base64_char c ∷ s))
          (omega arith)
      ∙ base64_loop-char 1 (next_v v (a / 4)) (suc room) c s (omega arith)
      ∙ step-byte (next_v v (a / 4)) room c (λ v' r. base64_loop 2 v' r s) (omega arith) 0 a
          second_byte

-- A character that completes a byte.
next_byte :
    (k v room d b : ℕ) (s : List ℕ)
    → d < 64
    → shifted (suc k) (next_v v d) % 256 ≡ b
    → base64_loop (suc k) v (suc room) (base64_char d ∷ s)
      ≡ in_front b (base64_loop ((suc k + 1) % 4) (next_v v d) room s)
next_byte k v room d b s h e =
    base64_loop-char (suc k) v (suc room) d s h
    ∙ step-byte v room d (λ v' r. base64_loop ((suc k + 1) % 4) v' r s) h k b e

third_char :
    (v x d c b : ℕ)
    → b < 256
    → d < 4
    → c ≡ b % 16 * 4 + d
    → shifted 2 (next_v (next_v v (x * 16 + b / 16)) c) % 256 ≡ b
unfolding shifted
third_char v x d c b h k q = rw q (byte_b v x d b h k)

fourth_char :
    (v x c : ℕ) → c < 256 → shifted 3 (next_v (next_v v (x * 4 + c / 64)) (c % 64)) % 256 ≡ c
unfolding shifted
fourth_char v x c h = byte_c v x c h

padding : (k v room : ℕ) (s : List ℕ) → base64_loop k v room (61 ∷ s) ≡ some []
unfolding base64_loop
padding k v room s = refl

nothing_left : (v room : ℕ) → base64_loop 0 v room [] ≡ some []
unfolding base64_loop
nothing_left v room = refl

base64_loop-text :
    (bs : List ℕ) (v room : ℕ)
    → AreBytes bs
    → length bs ≤ room
    → base64_loop 0 v room (base64_text bs) ≡ some bs
base64_loop-text [] v room u h = nothing_left v room
base64_loop-text (a ∷ bs) v zero u h = absurd (omega arith)
base64_loop-text (a ∷ b ∷ bs) v (suc zero) u h = absurd (omega arith)
base64_loop-text (a ∷ b ∷ c ∷ bs) v (suc (suc zero)) u h = absurd (omega arith)
base64_loop-text (a ∷ []) v (suc room) u h =
    let c = a % 4 * 16 in
    first_byte v room a c 0 (61 ∷ 61 ∷ []) u.0 (omega arith) (omega arith)
    ∙ ap (in_front a) (padding 2 (next_v (next_v v (a / 4)) c) room (61 ∷ []))
base64_loop-text (a ∷ b ∷ []) v (suc (suc room)) u h =
    let c = a % 4 * 16 + b / 16 in
    let w = next_v (next_v v (a / 4)) c in
    let d = b % 16 * 4 in
    first_byte v (suc room) a c (b / 16) (base64_char d ∷ 61 ∷ []) u.0 (omega (arith, u.1.0)) refl
    ∙ ap (in_front a) (
        next_byte 1 w room d b (61 ∷ []) (omega arith)
          (third_char (next_v v (a / 4)) (a % 4) 0 d b u.1.0 (omega arith) (omega arith))
        ∙ ap (in_front b) (padding 3 (next_v w d) room []))
base64_loop-text (a ∷ b ∷ c ∷ bs) v (suc (suc (suc room))) u h =
    let d = a % 4 * 16 + b / 16 in
    let w = next_v (next_v v (a / 4)) d in
    let e = b % 16 * 4 + c / 64 in
    first_byte v (suc (suc room)) a d (b / 16)
      (base64_char e ∷ base64_char (c % 64) ∷ base64_text bs) u.0 (omega (arith, u.1.0)) refl
    ∙ ap (in_front a) (
        next_byte 1 w (suc room) e b (base64_char (c % 64) ∷ base64_text bs)
          (omega (arith, u.1.1.0))
          (third_char (next_v v (a / 4)) (a % 4) (c / 64) e b u.1.0 (omega (arith, u.1.1.0)) refl)
        ∙ ap (in_front b) (
            next_byte 2 (next_v w e) room (c % 64) c (base64_text bs) (omega arith)
              (fourth_char w (b % 16) c u.1.1.0)
            ∙ ap (in_front c)
                (base64_loop-text bs (next_v (next_v w e) (c % 64)) room u.1.1.1 (omega arith))))

-- Bytes are written as base64 text, and the output has room for them: then nms_base64_decode gives
-- them back.
pub nms_base64_decode-text :
    (n : ℕ) (bs : List ℕ)
    → AreBytes bs
    → length bs ≤ n
    → nms_base64_decode n (base64_text bs) ≡ some bs
unfolding nms_base64_decode
nms_base64_decode-text n bs v h = base64_loop-text bs 0 n v h
