-- ===== src/Utils/Url.antt =====
-- The parts of a URL, src/utils/urltokenize.c. A string is the list of its bytes, without the final
-- 0, and a pointer into it an offset. malloc is taken to succeed, as the code does.
pub mod Parts
mod Examples
use mathlib.Core.List.{append_assoc}
use libnemesi.Common.{
  ℕ, zero, suc, ◌+◌, ◌-◌, ◌<◌, ◌≡◌, ◌≢◌, refl, sym, ap, ◌∙◌, Bool, true, false, ◌&&◌, Option, none,
  some, List, [], ◌∷◌, ◌++◌, arith, length, length-append, subst, take, drop, ltb, leb, ◌==◌,
  if◌then◌else◌, All, All-append,
}

abbrev pub colon : ℕ
colon = 58

abbrev pub slash : ℕ
slash = 47

-- `RTSP_Url`, with NULL as `none`
pub record RtspUrl : Type 0 where
  pub protocol : Option (List ℕ)
  pub hostname : List ℕ
  pub port : Option (List ℕ)
  pub path : Option (List ℕ)

abbrev pub shift : Option ℕ → Option ℕ
shift none = none
shift (some k) = some (suc k)

-- `strstr` of a string of one character
unfoldable pub index_of : ℕ → List ℕ → Option ℕ
index_of c [] = none
index_of c (x ∷ s) = let rest = index_of c s in if x == c then some 0 else shift rest

abbrev pub starts : List ℕ → Bool
starts (x ∷ y ∷ z ∷ s) = (x == colon) && ((y == slash) && (z == slash))
starts s = false

-- `strstr` of "://"
unfoldable pub scheme_at : List ℕ → Option ℕ
scheme_at [] = none
scheme_at (x ∷ s) = let rest = scheme_at s in if starts (x ∷ s) then some 0 else shift rest

-- A copy of a part, made only if it is not empty.
unfoldable pub copy : List ℕ → Option (List ℕ)
copy [] = none
copy (x ∷ s) = some (x ∷ s)

-- `hostname_begin`
unfoldable pub host_begin : Option ℕ → ℕ
host_begin none = 0
host_begin (some k) = k + 3

-- The protocol.
unfoldable pub protocol_of : Option ℕ → List ℕ → Option (List ℕ)
unfolding copy
protocol_of none s = none
protocol_of (some k) s = copy (take k s)

-- Where the port begins, by the first colon and the first slash.
unfoldable pub port_begin : Option ℕ → Option ℕ → Option ℕ
port_begin none path_begin = none
port_begin (some c) none = some (c + 1)
port_begin (some c) (some k) = if leb k c then none else some (c + 1)

-- The parts from the host on, by the beginnings of the port and the path.
unfoldable pub parts : Option (List ℕ) → List ℕ → Option ℕ → Option ℕ → RtspUrl
unfolding copy
parts protocol s none none = record { protocol = protocol; hostname = s; port = none; path = none }
parts protocol s none (some k) = record {
  protocol = protocol;
  hostname = take k s;
  port = none;
  path = copy (drop k s);
}
parts protocol s (some q) none = record {
  protocol = protocol;
  hostname = take (q - 1) s;
  port = copy (drop q s);
  path = none;
}
parts protocol s (some q) (some k) = record {
  protocol = protocol;
  hostname = take (q - 1) s;
  port = copy (take (k - q) (drop q s));
  path = copy (drop k s);
}

unfoldable pub rtsp_url_init : List ℕ → RtspUrl
unfolding scheme_at index_of host_begin protocol_of port_begin parts
rtsp_url_init urlname =
    let scheme = scheme_at urlname in
    let s = drop (host_begin scheme) urlname in
    parts (protocol_of scheme urlname) s (port_begin (index_of colon s) (index_of slash s))
      (index_of slash s)

-- `urltokenize`, where all three results are wanted: host, port and path.
unfoldable pub urltokenize : List ℕ → List ℕ × Option (List ℕ) × Option (List ℕ)
unfolding rtsp_url_init
urltokenize urlname = let url = rtsp_url_init urlname in (url.hostname, url.port, url.path)
