-- ===== src/Parsers/Text.antt =====
-- The text functions of src/parsers/rtp_utils.c: hexadecimal and base64 text. A string is the list of
-- its characters, without the final 0. `room` is how many bytes the output has left; a byte that
-- finds no room is dropped.
pub mod Hex
pub mod Base64
use libnemesi.Common.{
  ℕ, zero, suc, ◌+◌, ◌-◌, ◌*◌, ◌/◌, ◌%◌, ◌^◌, Bool, true, false, not, ◌&&◌, ◌||◌, Option, none,
  some, List, [], ◌∷◌, ltb, leb, ◌==◌, if◌then◌else◌, get_or,
}

-- A byte in front of what is decoded behind it.
abbrev pub in_front : ℕ → Option (List ℕ) → Option (List ℕ)
in_front b none = none
in_front b (some xs) = some (b ∷ xs)

unfoldable pub hex_digit : ℕ → Option ℕ
hex_digit c =
    if leb 48 c && leb c 57
    then some (c - 48)
    else if leb 97 c && leb c 102
    then some (c - 97 + 10)
    else if leb 65 c && leb c 70
    then some (c - 65 + 10)
    else none

-- The byte is written where there is room for it.
unfoldable pub emit : ℕ → ℕ → (ℕ → Option (List ℕ)) → Option (List ℕ)
emit zero b rest = rest zero
emit (suc room) b rest = in_front (b % 256) (rest room)

-- One character; `odd` is `i % 2`, and `c` what the characters before it leave.
unfoldable pub hex_step : Bool → ℕ → ℕ → Option ℕ → (ℕ → ℕ → Option (List ℕ)) → Option (List ℕ)
unfolding emit
hex_step odd c room none rest = none
hex_step odd c room (some d) rest =
    if odd then emit room (c + d) (rest ((c + d) * 16 % 256)) else rest ((c + d) * 16 % 256) room

unfoldable pub hex_loop : Bool → ℕ → ℕ → List ℕ → Option (List ℕ)
unfolding hex_step hex_digit
hex_loop odd c room [] = some []
hex_loop odd c room (x ∷ s) =
    let rest : ℕ → ℕ → Option (List ℕ) = λ c' room'. hex_loop (not odd) c' room' s in
    hex_step odd c room (hex_digit x) rest

-- The bytes that are written; `none` where the function returns -1.
unfoldable pub nms_hex_decode : ℕ → List ℕ → Option (List ℕ)
unfolding hex_loop
nms_hex_decode out_length s = hex_loop false 0 out_length s

unfoldable pub map2 : List ℕ
map2 =
    62 ∷ 255 ∷ 255 ∷ 255 ∷ 63 ∷ 52 ∷ 53 ∷ 54 ∷ 55 ∷ 56 ∷ 57 ∷ 58 ∷ 59 ∷ 60 ∷ 61 ∷ 255 ∷ 255 ∷ 255
    ∷ 255 ∷ 255 ∷ 255 ∷ 255 ∷ 0 ∷ 1 ∷ 2 ∷ 3 ∷ 4 ∷ 5 ∷ 6 ∷ 7 ∷ 8 ∷ 9 ∷ 10 ∷ 11 ∷ 12 ∷ 13 ∷ 14 ∷ 15
    ∷ 16 ∷ 17 ∷ 18 ∷ 19 ∷ 20 ∷ 21 ∷ 22 ∷ 23 ∷ 24 ∷ 25 ∷ 255 ∷ 255 ∷ 255 ∷ 255 ∷ 255 ∷ 255 ∷ 26 ∷ 27
    ∷ 28 ∷ 29 ∷ 30 ∷ 31 ∷ 32 ∷ 33 ∷ 34 ∷ 35 ∷ 36 ∷ 37 ∷ 38 ∷ 39 ∷ 40 ∷ 41 ∷ 42 ∷ 43 ∷ 44 ∷ 45 ∷ 46
    ∷ 47 ∷ 48 ∷ 49 ∷ 50 ∷ 51 ∷ []

-- 255 for a character that is none of base64; so is one that the table does not reach.
unfoldable pub sextet : ℕ → ℕ
unfolding map2
sextet c = if ltb c 43 then 255 else get_or map2 (c - 43) 255

-- `v >> (6 - 2 * k)`, for the characters that complete a byte.
unfoldable pub shifted : ℕ → ℕ → ℕ
shifted zero v = v / 64
shifted (suc zero) v = v / 16
shifted (suc (suc zero)) v = v / 4
shifted (suc (suc (suc k))) v = v

-- One character; `k` is `i & 3`. The 32 bits of `v` lose those that are shifted out.
unfoldable pub base64_step : ℕ → ℕ → ℕ → ℕ → (ℕ → ℕ → Option (List ℕ)) → Option (List ℕ)
unfolding emit shifted
base64_step k v room d rest =
    let v' = (v * 64 + d) % 2 ^ 32 in
    if d == 255 then none else if k == 0 then rest v' room else emit room (shifted k v') (rest v')

unfoldable pub base64_loop : ℕ → ℕ → ℕ → List ℕ → Option (List ℕ)
unfolding base64_step sextet
base64_loop k v room [] = some []
base64_loop k v room (x ∷ s) =
    let rest : ℕ → ℕ → Option (List ℕ) = λ v' room'. base64_loop ((k + 1) % 4) v' room' s in
    if x == 61 then some [] else base64_step k v room (sextet x) rest

unfoldable pub nms_base64_decode : ℕ → List ℕ → Option (List ℕ)
unfolding base64_loop
nms_base64_decode out_length s = base64_loop 0 0 out_length s
