-- ===== src/Utils/Url/Parts.antt =====
-- A URL is taken apart into the parts that it was made of.
use mathlib.Core.List.{append_assoc}
use libnemesi.Common.{
  ℕ, suc, ◌+◌, ◌-◌, ◌≡◌, ◌≢◌, refl, sym, ap, ◌∙◌, false, some, List, [], ◌∷◌, ◌++◌, arith, length,
  length-append, take, drop, ◌==◌, if◌then◌else◌, All, All-append,
}
use libnemesi.Utils.Url.{
  colon, slash, starts, index_of, scheme_at, copy, host_begin, protocol_of, port_begin, parts,
  rtsp_url_init,
}

-- The character `c` is not in the string.
abbrev pub Without : ℕ → List ℕ → Type 0
Without c s = All (λ x. x ≢ c) s

index_of-append : (c : ℕ) (s t : List ℕ) → Without c s → index_of c (s ++ c ∷ t) ≡ some (length s)
unfolding index_of
index_of-append c [] t w = ground arith
index_of-append c (x ∷ s) t w =
    let e : (x == c) ≡ false = ground (arith, w.0) in rw (e, index_of-append c s t w.1) refl

scheme_at-append :
    (s t : List ℕ) → Without colon s → scheme_at (s ++ colon ∷ slash ∷ slash ∷ t) ≡ some (length s)
unfolding scheme_at
scheme_at-append [] t w = refl
scheme_at-append (x ∷ s) t w = rw (scheme_at-append s t w.1) (no_start x _ w.0)
  where
    no_start :
        (x : ℕ) (u : List ℕ)
        → x ≢ colon
        → (if starts (x ∷ u) then some 0 else some (suc (length s))) ≡ some (suc (length s))
    no_start x [] h = refl
    no_start x (y ∷ []) h = refl
    no_start x (y ∷ z ∷ u) h = ground arith

take-length : (s t : List ℕ) → take (length s) (s ++ t) ≡ s
take-length [] t = refl
take-length (x ∷ s) t = ap (λ k. x ∷ k) (take-length s t)

drop-length : (s t : List ℕ) → drop (length s) (s ++ t) ≡ t
drop-length [] t = refl
drop-length (x ∷ s) t = drop-length s t

drop-scheme : (s : List ℕ) (x y z : ℕ) (t : List ℕ) → drop (length s + 3) (s ++ x ∷ y ∷ z ∷ t) ≡ t
drop-scheme [] x y z t = refl
drop-scheme (a ∷ s) x y z t =
    ap (λ n. drop n (a ∷ (s ++ x ∷ y ∷ z ∷ t)))
      (let e : suc (length s) + 3 ≡ suc (length s + 3) = omega arith in e)
    ∙ drop-scheme s x y z t

drop-past : (s : List ℕ) (x : ℕ) (t : List ℕ) → drop (length s + 1) (s ++ x ∷ t) ≡ t
drop-past [] x t = refl
drop-past (a ∷ s) x t =
    ap (λ n. drop n (a ∷ (s ++ x ∷ t)))
      (let e : suc (length s) + 1 ≡ suc (length s + 1) = omega arith in e)
    ∙ drop-past s x t

module _ (p h port tail : List ℕ) where
  -- From the host on.
  abbrev rest : List ℕ
  rest = h ++ (colon ∷ (port ++ (slash ∷ tail)))

  abbrev path_at : ℕ
  path_at = length h + suc (length port)

  grouped : rest ≡ (h ++ (colon ∷ port)) ++ (slash ∷ tail)
  grouped = sym (append_assoc h (colon ∷ port) (slash ∷ tail))

  length-front : length (h ++ (colon ∷ port)) ≡ path_at
  length-front = length-append h (colon ∷ port)

  index_of-slash : Without slash h → Without slash port → index_of slash rest ≡ some path_at
  index_of-slash wh wp =
      ap (index_of slash) grouped
      ∙ index_of-append slash (h ++ (colon ∷ port)) tail
          (All-append (λ x. x ≢ slash) h (colon ∷ port) wh ((omega arith), wp))
      ∙ ap some length-front

  drop-path : drop path_at rest ≡ slash ∷ tail
  drop-path =
      ap (λ n. drop n rest) (sym length-front)
      ∙ ap (drop (length (h ++ (colon ∷ port)))) grouped
      ∙ drop-length (h ++ (colon ∷ port)) (slash ∷ tail)

  take-port : take (path_at - (length h + 1)) (drop (length h + 1) rest) ≡ port
  take-port =
      ap (take (path_at - (length h + 1))) (drop-past h colon (port ++ (slash ∷ tail)))
      ∙ ap (λ n. take n (port ++ (slash ∷ tail)))
          (let e : path_at - (length h + 1) ≡ length port = omega arith in e)
      ∙ take-length port (slash ∷ tail)

  take-host : take (length h + 1 - 1) rest ≡ h
  take-host =
      ap (λ n. take n rest) (let e : length h + 1 - 1 ≡ length h = omega arith in e)
      ∙ take-length h (colon ∷ (port ++ (slash ∷ tail)))

  port_begin_eq : port_begin (some (length h)) (some path_at) ≡ some (length h + 1)
  unfolding port_begin
  port_begin_eq = ground arith

  -- A URL put together as protocol, "://", host, ":", port, and a path that begins with a slash is
  -- taken apart into the same parts, an empty protocol or port as NULL, if the protocol and the host
  -- have no colon and the host and the port no slash.
  pub rtsp_url_init_lem :
      Without colon p
      → Without colon h
      → Without slash h
      → Without slash port
      → rtsp_url_init (p ++ (colon ∷ slash ∷ slash ∷ rest))
        ≡ record { protocol = copy p; hostname = h; port = copy port; path = some (slash ∷ tail) }
  unfolding rtsp_url_init host_begin protocol_of parts copy
  rtsp_url_init_lem wp wh sh sp =
      rw
        (
          scheme_at-append p rest wp,
          drop-scheme p colon slash slash rest,
          take-length p (colon ∷ slash ∷ slash ∷ rest),
          index_of-append colon h (port ++ (slash ∷ tail)) wh,
          index_of-slash sh sp,
          port_begin_eq,
          take-host,
          take-port,
          drop-path,
        )
        refl
