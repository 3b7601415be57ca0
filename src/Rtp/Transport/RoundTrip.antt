-- ===== src/Rtp/Transport/RoundTrip.antt =====
-- What a transport's options read as once they are set.
use libnemesi.Common.{
  ℕ, zero, suc, ◌+◌, ◌*◌, ◌/◌, ◌%◌, ◌<◌, ◌≤◌, ◌≡◌, ◌≢◌, ◌⊎◌, inl, inr, refl, sym, ap, ◌∙◌, Bool,
  true, Option, some, List, [], ◌∷◌, ◌++◌, take, drop, length, arith,
}
use mathlib.Core.List.{append-nil}
use libnemesi.Common.Int.{ℤ, pos, negsuc}
use libnemesi.Rtp.Transport.{
  is_set, not_set, RtpTransport, Par, ValueOf, socktype, srcaddrstr, dstaddrstr, mcsrtp, mcsrtcp,
  mcsports, clirtp, clirtcp, cliports, srvrtp, srvrtcp, srvports, ilvdrtp, ilvdrtcp, interleaved,
  streamrtp, streamrtcp, streams, other, ret_of, put_bytes, Pton, converted, invalid, family_bytes,
  convert4, convert6, convert_addr_str, assign, rtp_transport_set,
}
use libnemesi.Rtp.Transport.Get.{
  unless_zero, unless_zero_int, both, copy_addr, family, nms_addr_ntop, address_text, fetch, read,
  rtp_transport_get,
}

abbrev NonZero : ℕ × ℕ → Type 0
NonZero (v, w) = (v ≢ 0) × (w ≢ 0)

-- A buffer of `len` bytes that held `old` takes the address `v`.
abbrev IsAddress : List ℕ → List ℕ → ℕ → Type 0
IsAddress v old len = (length v ≡ 20) × (length old ≡ 20) × (20 ≤ len)

module _ (pton4 pton6 : List ℕ → Pton) (ntop : ℕ → List ℕ → ℕ → Option (List ℕ))
    (printed : ℕ → ℕ → List ℕ) where
  -- The text is that of an address of version 4, or else of version 6, as inet_ntop writes it.
  abbrev pub IsText : List ℕ → ℕ → Type 0
  IsText v len =
      ((xs : List ℕ) × (pton4 v ≡ converted xs) × (length xs ≡ 4) × (ntop 2 xs len ≡ some v))
      ⊎ ((xs : List ℕ) × (pton4 v ≡ invalid)
          × (pton6 v ≡ converted xs)
          × (length xs ≡ 16)
          × (ntop 10 xs len ≡ some v))

  -- The option can be set, and the value `v` is one that a buffer of `len` bytes takes and that does
  -- not count as unset.
  abbrev pub IsVisible : (p : Par) → ValueOf p → ValueOf p → ℕ → RtpTransport → Type 0
  IsVisible Par.spec v old len t = ⊥
  IsVisible socktype v old len t = Unit
  IsVisible Par.delivery v old len t = Unit
  IsVisible Par.srcaddr v old len t = IsAddress v old len
  IsVisible srcaddrstr v old len t = IsText v len × (length t.rtp.srcaddr ≡ 20)
  IsVisible Par.dstaddr v old len t = IsAddress v old len
  IsVisible dstaddrstr v old len t = IsText v len × (length t.rtp.dstaddr ≡ 20)
  IsVisible Par.layers v old len t = v ≢ pos 0
  IsVisible Par.mode v old len t = Unit
  IsVisible Par.append v old len t = v ≢ pos 0
  IsVisible Par.ttl v old len t = v ≢ pos 0
  IsVisible mcsrtp v old len t = v ≢ 0
  IsVisible mcsrtcp v old len t = v ≢ 0
  IsVisible mcsports v old len t = NonZero v
  IsVisible clirtp v old len t = v ≢ 0
  IsVisible clirtcp v old len t = v ≢ 0
  IsVisible cliports v old len t = NonZero v
  IsVisible srvrtp v old len t = v ≢ 0
  IsVisible srvrtcp v old len t = v ≢ 0
  IsVisible srvports v old len t = NonZero v
  IsVisible ilvdrtp v old len t = v < 256
  IsVisible ilvdrtcp v old len t = v < 256
  IsVisible interleaved v old len t = (v.0 < 256) × (v.1 < 256)
  IsVisible streamrtp v old len t = v ≢ 0
  IsVisible streamrtcp v old len t = v ≢ 0
  IsVisible streams v old len t = NonZero v
  IsVisible Par.ssrc v old len t = v ≢ 0
  IsVisible (other n) v old len t = ⊥

unless_zero-set : (v : ℕ) → v ≢ 0 → unless_zero v ≡ (is_set, v)
unless_zero-set v h = ground (arith, h)

unless_zero_int-set : (v : ℤ) → v ≢ pos 0 → unless_zero_int v ≡ (is_set, v)
unless_zero_int-set (pos zero) h = absurd (h refl)
unless_zero_int-set (pos (suc n)) h = refl
unless_zero_int-set (negsuc n) h = refl

both-set : (v w : ℕ) (old : ℕ × ℕ) → v ≢ 0 → w ≢ 0 → both v w old ≡ (is_set, (v, w))
both-set v w old h k = ground (arith, h, k)

stream_of : (v : ℕ) → v % 256 + 256 * (v / 256) ≡ v
stream_of v = omega arith

channel : (v : ℕ) → v < 256 → v % 256 ≡ v
channel v h = omega arith

stream-set : (v : ℕ) → v ≢ 0 → unless_zero (v % 256 + 256 * (v / 256)) ≡ (is_set, v)
stream-set v h = rw (stream_of v) (unless_zero-set v h)

take_all : (xs ys : List ℕ) → take (length xs) (xs ++ ys) ≡ xs
take_all [] ys = refl
take_all (x ∷ xs) ys = ap (λ l. x ∷ l) (take_all xs ys)

take_long : (xs : List ℕ) (n : ℕ) → length xs ≤ n → take n xs ≡ xs
take_long [] zero h = refl
take_long [] (suc n) h = refl
take_long (x ∷ xs) zero h = absurd (omega arith)
take_long (x ∷ xs) (suc n) h = ap (λ l. x ∷ l) (take_long xs n (omega arith))

drop_long : (xs : List ℕ) (n : ℕ) → length xs ≤ n → drop n xs ≡ []
drop_long [] zero h = refl
drop_long [] (suc n) h = refl
drop_long (x ∷ xs) zero h = absurd (omega arith)
drop_long (x ∷ xs) (suc n) h = drop_long xs n (omega arith)

copy_addr-all : (v old : List ℕ) (len : ℕ) → IsAddress v old len → copy_addr len v old ≡ v
copy_addr-all v old len (h, k, l) =
    rw (take_long v len (omega arith), drop_long old (0 + length v) (omega arith)) (append-nil v)

-- The family and the address, put over one that was there.
written : ℕ → List ℕ → List ℕ → List ℕ
written f xs a = put_bytes 0 (family_bytes f) (put_bytes 4 xs (put_bytes 0 (family_bytes 0) a))

written-address :
    (n f : ℕ) (xs a : List ℕ) → length xs ≡ n → 4 ≤ length a → take n (drop 4 (written f xs a)) ≡ xs
unfolding written
written-address n f xs [] h k = absurd (omega arith)
written-address n f xs (a ∷ []) h k = absurd (omega arith)
written-address n f xs (a ∷ b ∷ []) h k = absurd (omega arith)
written-address n f xs (a ∷ b ∷ c ∷ []) h k = absurd (omega arith)
written-address n f xs (a ∷ b ∷ c ∷ d ∷ r) h k =
    rw (sym h) (take_all xs (drop (4 + length xs) (0 ∷ 0 ∷ c ∷ d ∷ r)))

module _ (pton4 pton6 : List ℕ → Pton) (ntop : ℕ → List ℕ → ℕ → Option (List ℕ))
    (printed : ℕ → ℕ → List ℕ) where
  -- The text of an address, set over one and read again.
  Reads : List ℕ → ℕ → Bool × List ℕ → Type 0
  Reads v len (ok, a) = (ok ≡ true) × (nms_addr_ntop ntop printed a len ≡ some v)

  text-read :
      (v a : List ℕ) (len : ℕ)
      → IsText pton4 pton6 ntop printed v len
      → length a ≡ 20
      → Reads v len (convert_addr_str pton4 pton6 v a)
  unfolding Reads written convert_addr_str convert4 convert6 nms_addr_ntop
  text-read v a len (inl (xs, e, n, f)) h =
      rw e (refl, ap (λ ys. ntop 2 ys len) (written-address 4 2 xs a n (omega arith)) ∙ f)
  text-read v a len (inr (xs, e, e6, n, f)) h =
      rw (e, e6) (refl, ap (λ ys. ntop 10 ys len) (written-address 16 10 xs a n (omega arith)) ∙ f)

  text-both :
      (v old : List ℕ) (len : ℕ) (c : Bool × List ℕ)
      → Reads v len c
      → (ret_of c.0 ≡ is_set)
        × (address_text ntop printed (nms_addr_ntop ntop printed c.1 len) old ≡ (is_set, v))
  unfolding Reads address_text
  text-both v old len (ok, a) (e, f) = (rw e refl, rw f refl)

  fetch-assign :
      (p : Par) (v old : ValueOf p) (len : ℕ) (t : RtpTransport)
      → IsVisible pton4 pton6 ntop printed p v old len t
      → ((assign pton4 pton6 p v t).0 ≡ is_set)
        × (fetch ntop printed p old len (assign pton4 pton6 p v t).1 ≡ (is_set, v))
  unfolding assign fetch
  fetch-assign Par.spec v old len t h = absurd h
  fetch-assign socktype v old len t h = (refl, refl)
  fetch-assign Par.delivery v old len t h = (refl, refl)
  fetch-assign Par.srcaddr v old len t h =
      (refl, ap (λ xs. (is_set, xs)) (copy_addr-all v old len h))
  fetch-assign srcaddrstr v old len t (h, k) =
      text-both v old len (convert_addr_str pton4 pton6 v t.rtp.srcaddr)
        (text-read v t.rtp.srcaddr len h k)
  fetch-assign Par.dstaddr v old len t h =
      (refl, ap (λ xs. (is_set, xs)) (copy_addr-all v old len h))
  fetch-assign dstaddrstr v old len t (h, k) =
      text-both v old len (convert_addr_str pton4 pton6 v t.rtp.dstaddr)
        (text-read v t.rtp.dstaddr len h k)
  fetch-assign Par.layers v old len t h = (refl, unless_zero_int-set v h)
  fetch-assign Par.mode v old len t h = (refl, refl)
  fetch-assign Par.append v old len t h = (refl, unless_zero_int-set v h)
  fetch-assign Par.ttl v old len t h = (refl, unless_zero_int-set v h)
  fetch-assign mcsrtp v old len t h = (refl, unless_zero-set v h)
  fetch-assign mcsrtcp v old len t h = (refl, unless_zero-set v h)
  fetch-assign mcsports (v, w) old len t (h, k) = (refl, both-set v w old h k)
  fetch-assign clirtp v old len t h = (refl, unless_zero-set v h)
  fetch-assign clirtcp v old len t h = (refl, unless_zero-set v h)
  fetch-assign cliports (v, w) old len t (h, k) = (refl, both-set v w old h k)
  fetch-assign srvrtp v old len t h = (refl, unless_zero-set v h)
  fetch-assign srvrtcp v old len t h = (refl, unless_zero-set v h)
  fetch-assign srvports (v, w) old len t (h, k) = (refl, both-set v w old h k)
  fetch-assign ilvdrtp v old len t h = (refl, ap (λ n. (is_set, n)) (channel v h))
  fetch-assign ilvdrtcp v old len t h = (refl, ap (λ n. (is_set, n)) (channel v h))
  fetch-assign interleaved (v, w) old len t (h, k) =
      (refl, λ i. (is_set, (channel v h i, channel w k i)))
  fetch-assign streamrtp v old len t h = (refl, stream-set v h)
  fetch-assign streamrtcp v old len t h = (refl, stream-set v h)
  fetch-assign streams (v, w) old len t (h, k) =
      (refl, rw (stream_of v, stream_of w) (both-set v w old h k))
  fetch-assign Par.ssrc v old len t h = (refl, unless_zero-set v h)
  fetch-assign (other n) v old len t h = absurd h

  -- The value `v` of an option is not NULL and can be set; a number is not 0, nor is either of two
  -- ports or streams; a channel is within its 8 bits; an address has its 20 bytes, and the buffer that
  -- it is read into has room for them; a text is an address as inet_ntop writes it. Then
  -- rtp_transport_set returns RTP_TRANSPORT_SET, and rtp_transport_get for that option returns
  -- RTP_TRANSPORT_SET with this value.
  pub rtp_transport_get-set :
      (p : Par) (v old : ValueOf p) (len : ℕ) (t : RtpTransport)
      → IsVisible pton4 pton6 ntop printed p v old len t
      → let (r, t') = rtp_transport_set pton4 pton6 p (some v) t in
        (r ≡ is_set) × (rtp_transport_get ntop printed p (some old) len t' ≡ (is_set, some v))
  unfolding rtp_transport_set rtp_transport_get
  rtp_transport_get-set p v old len t h =
      let (a, b) = fetch-assign p v old len t h in (a, ap (read ntop printed p) b)

  -- A text that is no address, set as the source address: rtp_transport_set returns
  -- RTP_TRANSPORT_NOTSET. The family of the address that was there is gone all the same: reading the
  -- text of the address then returns RTP_TRANSPORT_SET with the text for an unknown family.
  pub rtp_transport_set-invalid :
      (v old : List ℕ) (len : ℕ) (t : RtpTransport)
      → pton4 v ≡ invalid
      → pton6 v ≡ invalid
      → let (r, t') = rtp_transport_set pton4 pton6 srcaddrstr (some v) t in
        (r ≡ not_set)
        × (family t'.rtp.srcaddr ≡ 0)
        × (rtp_transport_get ntop printed srcaddrstr (some old) len t'
            ≡ (is_set, some (printed 0 len)))
  unfolding rtp_transport_set rtp_transport_get convert_addr_str nms_addr_ntop
  rtp_transport_set-invalid v old len t e f = rw (e, f) (refl, refl, refl)
