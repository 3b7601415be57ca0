-- ===== src/Rtsp/Token.antt =====
-- The lines of an answer, as strtok_r with "\n" gives them: it writes a 0 over the newline at which a
-- line ends, in the buffer itself. A pointer into the buffer is an offset.
pub mod Progress
use libnemesi.Common.{
  ℕ, suc, ◌+◌, ◌||◌, Option, none, some, List, [], ◌∷◌, ◌==◌, if◌then◌else◌, get_or, set, drop,
}
use libnemesi.Rtsp.Text.{newline, c_str}

-- The beginning of the token, if there is one, where the search goes on, and the bytes.
pub record Token : Type 0 where
  pub tkn : Option ℕ
  pub step : ℕ
  pub bytes : List ℕ

-- How many newlines a list begins with, and how many bytes come before a newline or a 0.
abbrev pub newlines : List ℕ → ℕ
newlines [] = 0
newlines (c ∷ s) = let rest = suc (newlines s) in if c == newline then rest else 0

abbrev pub line_length : List ℕ → ℕ
line_length [] = 0
line_length (c ∷ s) =
    let rest = suc (line_length s) in if (c == newline) || (c == 0) then 0 else rest

-- A token of no bytes is no token.
unfoldable pub strtok_r : List ℕ → ℕ → Token
strtok_r bytes step =
    let start = step + newlines (drop step bytes) in
    let end = start + line_length (drop start bytes) in
    if end == start
    then record { tkn = none; step = start; bytes = bytes }
    else if get_or bytes end 0 == newline
    then record { tkn = some start; step = end + 1; bytes = set bytes end 0 }
    else record { tkn = some start; step = end; bytes = bytes }

-- The string at an offset.
abbrev pub text_at : List ℕ → ℕ → List ℕ
text_at bytes i = c_str (drop i bytes)
