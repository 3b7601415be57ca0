-- ===== src/Parsers/Text/Hex.antt =====
-- Bytes written as hexadecimal text and read again.
use libnemesi.Common.{
  ℕ, zero, suc, ◌+◌, ◌*◌, ◌/◌, ◌%◌, ◌<◌, ◌≤◌, ◌≡◌, refl, ap, ◌∙◌, false, some, List, [], ◌∷◌, All,
  length, ltb, if◌then◌else◌, arith,
}
use libnemesi.Parsers.Text.{in_front, hex_digit, emit, hex_step, hex_loop, nms_hex_decode}

abbrev pub hex_char : ℕ → ℕ
hex_char d = if ltb d 10 then 48 + d else 87 + d

abbrev pub hex_text : List ℕ → List ℕ
hex_text [] = []
hex_text (b ∷ bs) = hex_char (b / 16) ∷ hex_char (b % 16) ∷ hex_text bs

abbrev pub AreBytes : List ℕ → Type 0
AreBytes bs = All (λ b. b < 256) bs

hex_digit-char : (d : ℕ) → d < 16 → hex_digit (hex_char d) ≡ some d
unfolding hex_digit
hex_digit-char d h = ground arith

-- Two digits make a byte; what a byte leaves behind it is a multiple of 16.
hex_loop-byte :
    (b k room : ℕ) (s : List ℕ)
    → b < 256
    → hex_loop false (16 * k) (suc room) (hex_char (b / 16) ∷ hex_char (b % 16) ∷ s)
      ≡ in_front b (hex_loop false (16 * (b % 16)) room s)
unfolding hex_loop hex_step emit
hex_loop-byte b k room s h =
    let byte : ((16 * k + b / 16) * 16 % 256 + b % 16) % 256 ≡ b = omega arith in
    let left : ((16 * k + b / 16) * 16 % 256 + b % 16) * 16 % 256 ≡ 16 * (b % 16) = omega arith in
    rw (hex_digit-char (b / 16) (omega arith), hex_digit-char (b % 16) (omega arith))
      (λ i. in_front (byte i) (hex_loop false (left i) room s))

hex_loop-text :
    (bs : List ℕ) (k room : ℕ)
    → AreBytes bs
    → length bs ≤ room
    → hex_loop false (16 * k) room (hex_text bs) ≡ some bs
unfolding hex_loop
hex_loop-text [] k room v h = refl
hex_loop-text (b ∷ bs) k zero v h = absurd (omega arith)
hex_loop-text (b ∷ bs) k (suc room) v h =
    hex_loop-byte b k room (hex_text bs) v.0
    ∙ ap (in_front b) (hex_loop-text bs (b % 16) room v.1 (omega arith))

-- Bytes are written as text, each in two hexadecimal digits, and the output has room for them: then
-- nms_hex_decode gives them back.
pub nms_hex_decode-text :
    (n : ℕ) (bs : List ℕ) → AreBytes bs → length bs ≤ n → nms_hex_decode n (hex_text bs) ≡ some bs
unfolding nms_hex_decode
nms_hex_decode-text n bs v h = hex_loop-text bs 0 n v h
