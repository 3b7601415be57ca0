-- ===== src/Rtsp/Text.antt =====
-- What the RTSP code uses of C's string functions, on lists of bytes. A string ends before its
-- first 0, or with the list.
use libnemesi.Common.{
  ℕ, zero, suc, ◌+◌, ◌-◌, ◌*◌, ◌^◌, ◌≤◌, Bool, true, false, ◌&&◌, ◌||◌, Option, none, some, List,
  [], ◌∷◌, arith, leb, ◌==◌, if◌then◌else◌, length,
}
use libnemesi.Common.Int.{ℤ, pos, negsuc, sub_ℕ}

abbrev pub newline : ℕ
newline = 10

abbrev pub return : ℕ
return = 13

-- The string at the beginning of an array.
abbrev pub c_str : List ℕ → List ℕ
c_str [] = []
c_str (c ∷ s) = if c == 0 then [] else c ∷ c_str s

abbrev pub tolower : ℕ → ℕ
tolower c = if leb 65 c && leb c 90 then c + 32 else c

-- `strncasecmp(s, key, strlen(key)) == 0`
abbrev pub begins : List ℕ → List ℕ → Bool
begins s [] = true
begins [] (k ∷ key) = false
begins (c ∷ s) (k ∷ key) = (tolower c == tolower k) && begins s key

-- `strcasestr`: the rest of the string from the first match on.
abbrev pub strcasestr : List ℕ → List ℕ → Option (List ℕ)
strcasestr [] key = if begins [] key then some [] else none
strcasestr (c ∷ s) key =
    let rest = strcasestr s key in if begins (c ∷ s) key then some (c ∷ s) else rest

-- `strchr`: the rest of the string from the first `c` on.
abbrev pub strchr : List ℕ → ℕ → Option (List ℕ)
strchr [] c = none
strchr (d ∷ s) c = let rest = strchr s c in if d == c then some (d ∷ s) else rest

-- `while (*s == ' ' || *s == ':') s++`
abbrev pub skip_sep : List ℕ → List ℕ
skip_sep [] = []
skip_sep (c ∷ s) = let rest = skip_sep s in if (c == 32) || (c == 58) then rest else c ∷ s

abbrev pub isspace : ℕ → Bool
isspace c = (c == 32) || (leb 9 c && leb c 13)

abbrev pub skip_space : List ℕ → List ℕ
skip_space [] = []
skip_space (c ∷ s) = let rest = skip_space s in if isspace c then rest else c ∷ s

abbrev pub isdigit : ℕ → Bool
isdigit c = leb 48 c && leb c 57

-- The number that the digits at the beginning make, onto what was read before them.
abbrev pub digits : ℕ → List ℕ → ℕ
digits n [] = n
digits n (c ∷ s) = if isdigit c then digits (10 * n + (c - 48)) s else n

abbrev pub scan_digits : List ℕ → Option ℕ
scan_digits [] = none
scan_digits (c ∷ s) = if isdigit c then some (digits 0 (c ∷ s)) else none

abbrev pub negated : Option ℕ → Option ℤ
negated none = none
negated (some n) = some (sub_ℕ 0 n)

abbrev pub unsigned : Option ℕ → Option ℤ
unsigned none = none
unsigned (some n) = some (pos n)

abbrev pub scan_signed : List ℕ → Option ℤ
scan_signed [] = none
scan_signed (c ∷ s) =
    if c == 45
    then negated (scan_digits s)
    else if c == 43
    then unsigned (scan_digits s)
    else unsigned (scan_digits (c ∷ s))

-- `sscanf(s, "%d", &n)`, `none` where nothing is stored.
abbrev pub scan_int : List ℕ → Option ℤ
scan_int s = scan_signed (skip_space s)

-- What `%31s` leaves of the string, after the white space: up to `n` other characters are read.
abbrev pub skip_word : ℕ → List ℕ → List ℕ
skip_word zero s = s
skip_word (suc n) [] = []
skip_word (suc n) (c ∷ s) = let rest = skip_word n s in if isspace c then c ∷ s else rest

-- The conversion to `size_t`.
abbrev pub to_size : ℤ → ℕ
to_size (pos n) = n
to_size (negsuc n) = (2 ^ 64) - 1 - n

-- Up to the first of the characters of `stop`: `strcspn`.
abbrev pub is_one_of : ℕ → List ℕ → Bool
is_one_of c [] = false
is_one_of c (k ∷ ks) = (c == k) || is_one_of c ks

abbrev pub strcspn : List ℕ → List ℕ → ℕ
strcspn [] stop = 0
strcspn (c ∷ s) stop = let rest = strcspn s stop in if is_one_of c stop then 0 else suc rest

-- `strcmp(s, t) == 0`
abbrev pub same : List ℕ → List ℕ → Bool
same [] [] = true
same [] (d ∷ t) = false
same (c ∷ s) [] = false
same (c ∷ s) (d ∷ t) = (c == d) && same s t

pub c_str-length : (s : List ℕ) → length (c_str s) ≤ length s
c_str-length [] = omega arith
c_str-length (c ∷ s) = ground (arith, c_str-length s)
