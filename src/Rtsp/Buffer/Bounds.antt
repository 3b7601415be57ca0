-- ===== src/Rtsp/Buffer/Bounds.antt =====
-- A whole message lies within the buffer, and taking it out leaves what follows it.
use libnemesi.Common.{
  ℕ, zero, suc, ◌+◌, ◌-◌, ◌%◌, ◌^◌, ◌<◌, ◌≤◌, ◌≡◌, refl, ap, Bool, true, ◌&&◌, if◌then◌else◌,
  Option, none, some, List, [], ◌∷◌, ltb, ◌==◌, length, get_or, drop, take, ◌++◌, length-append,
  arith, Option-cases, Bool-cases, inl, inr,
}
use libnemesi.Rtsp.Text.{c_str, c_str-length, to_size}
use libnemesi.Rtsp.Buffer.{
  RtspBuffer, body_exists, next_line, is_empty_line, head_loop, find_header, blanks, with_body,
  after_header, full_msg_rcvd, remove_pkt, append_read,
}

-- The sizes agree with the bytes, which fit in memory, and the 0 stands right behind them.
pub record IsBuffer (b : RtspBuffer) : Type 0 where
  pub sized : b.size ≡ length b.bytes
  pub first : b.first_pkt_size ≤ b.size
  pub fits : b.size < 2 ^ 64

next_line-lt : (s : List ℕ) (i k : ℕ) → next_line s i ≡ some k → k < length s
unfolding next_line
next_line-lt [] i k h = cc
next_line-lt (c ∷ s) zero k h = elim (Option-cases (next_line s 0)) [
  | inl e ↦ ground arith
  | inr (j, e) ↦ ground (arith, next_line-lt s 0 j e)
]
next_line-lt (c ∷ s) (suc i) k h = elim (Option-cases (next_line s i)) [
  | inl e ↦ ground arith
  | inr (j, e) ↦ ground (arith, next_line-lt s i j e)
]

head_loop-lt : (s : List ℕ) (fuel n k : ℕ) → head_loop s fuel n ≡ some k → k < length s
unfolding head_loop
head_loop-lt s zero n k h = cc
head_loop-lt s (suc fuel) n k h = elim (Option-cases (next_line s (n + 1))) [
  | inl e ↦ ground arith
  | inr (j, e) ↦ ground (arith, next_line-lt s (n + 1) j e, head_loop-lt s fuel j k)
]

next_line-ge : (s : List ℕ) (i k : ℕ) → next_line s i ≡ some k → i ≤ k
unfolding next_line
next_line-ge [] i k h = cc
next_line-ge (c ∷ s) zero k h = omega arith
next_line-ge (c ∷ s) (suc i) k h = elim (Option-cases (next_line s i)) [
  | inl e ↦ ground arith
  | inr (j, e) ↦ ground (arith, next_line-ge s i j e)
]

-- Fuel for the bytes that are left is enough: more does not change where the header ends.
pub head_loop-fuel :
    (s : List ℕ) (fuel n : ℕ) → length s ≤ fuel + n → head_loop s fuel n ≡ head_loop s (suc fuel) n
unfolding head_loop
head_loop-fuel s zero n h = elim (Option-cases (next_line s (n + 1))) [
  | inl e ↦ rw (head_loop, e) refl
  | inr (j, e) ↦ absurd (omega (arith, next_line-ge s (n + 1) j e, next_line-lt s (n + 1) j e))
]
head_loop-fuel s (suc fuel) n h = elim (Option-cases (next_line s (n + 1))) [
  | inl e ↦ rw (head_loop, e) refl
  | inr (j, e) ↦
      let r = head_loop-fuel s fuel j (omega (arith, next_line-ge s (n + 1) j e)) in
      rw (head_loop, e) (ap (λ rest. if is_empty_line s n j then some j else rest) r)
]

find_header-lt : (s : List ℕ) (k : ℕ) → find_header s ≡ some k → k < length s
unfolding find_header
find_header-lt s k h = elim (Option-cases (next_line s 0)) [
  | inl e ↦ ground arith
  | inr (j, e) ↦ ground (arith, head_loop-lt s (length s) j k)
]

blanks-le : (s : List ℕ) → blanks s ≤ length s
unfolding blanks
blanks-le [] = omega arith
blanks-le (c ∷ s) = ground (arith, blanks-le s)

drop-length : (n : ℕ) (s : List ℕ) → length (drop n s) ≡ length s - n
drop-length zero s = omega arith
drop-length (suc n) [] = omega arith
drop-length (suc n) (c ∷ s) = omega (arith, drop-length n s)

take-length : (n : ℕ) (s : List ℕ) → n ≤ length s → length (take n s) ≡ n
take-length zero s h = refl
take-length (suc n) [] h = absurd (omega arith)
take-length (suc n) (c ∷ s) h = omega (arith, take-length n s (omega arith))

take_all : (n : ℕ) (s : List ℕ) → length s ≤ n → take n s ≡ s
take_all zero [] h = refl
take_all zero (c ∷ s) h = absurd (omega arith)
take_all (suc n) [] h = refl
take_all (suc n) (c ∷ s) h = ap (λ r. c ∷ r) (take_all n s (omega arith))

-- What full_msg_rcvd does to a buffer.
pub record Received (b b' : RtspBuffer) : Type 0 where
  pub size : b'.size ≡ b.size
  pub bytes : b'.bytes ≡ b.bytes
  pub some_bytes : 0 < b'.first_pkt_size
  pub first : b'.first_pkt_size ≤ b.size

with_body-Received :
    (b b' : RtspBuffer) (head_end left body_len : ℕ)
    → 0 < head_end
    → head_end + left ≤ b.size
    → with_body b head_end left body_len ≡ (true, b')
    → Received b b'
unfolding with_body
with_body-Received b b' head_end left body_len h k e = record {
  size = ground arith;
  bytes = ground arith;
  some_bytes = ground arith;
  first = ground arith;
}

after_header-Received :
    (b b' : RtspBuffer) (s : List ℕ) (o : Option ℕ)
    → length s ≤ b.size
    → ((k : ℕ) → o ≡ some k → k < length s)
    → after_header b s o ≡ (true, b')
    → Received b b'
unfolding after_header
after_header-Received b b' s none l f e = cc
after_header-Received b b' s (some nl) l f e =
    with_body-Received b b' (nl + 1 + blanks (drop (nl + 1) s))
      (length s - (nl + 1 + blanks (drop (nl + 1) s))) (to_size (body_exists s)) (omega arith)
      (omega (arith, f nl refl, blanks-le (drop (nl + 1) s), drop-length (nl + 1) s)) e

-- A message that full_msg_rcvd takes for whole has a byte at least and ends within the buffer; the
-- bytes stay as they are.
pub full_msg_rcvd-Received :
    (ilvd : Bool) (b b' : RtspBuffer)
    → length b.bytes ≤ b.size
    → full_msg_rcvd ilvd b ≡ (true, b')
    → Received b b'
unfolding full_msg_rcvd
full_msg_rcvd-Received ilvd b b' v e =
    elim (Bool-cases (ilvd && (ltb 4 b.size && get_or b.bytes 0 0 == 36))) [
      | inl c ↦ record {
        size = ground arith;
        bytes = ground arith;
        some_bytes = ground arith;
        first = ground arith;
      }
      | inr c ↦
          after_header-Received b b' (c_str b.bytes) (find_header (c_str b.bytes))
            (omega (arith, c_str-length b.bytes, v)) (λ k h. find_header-lt (c_str b.bytes) k h)
            (rw c at e)
    ]

-- The text in the buffer is no longer than the bytes that it counts.
abbrev pub IsBounded : RtspBuffer → Type 0
IsBounded b = length b.bytes ≤ b.size

take-length_le : (n : ℕ) (s : List ℕ) → length (take n s) ≤ n
take-length_le zero s = omega arith
take-length_le (suc n) [] = omega arith
take-length_le (suc n) (c ∷ s) = omega (arith, take-length_le n s)

abbrev behind : List ℕ → ℕ → List ℕ
behind beyond n = if n == 0 then [] else beyond

removed :
    (beyond : List ℕ) (b : RtspBuffer)
    → let n = (b.size + 2 ^ 64 - b.first_pkt_size) % 2 ^ 64 in
      remove_pkt true beyond b ≡ record {
        size = n;
        first_pkt_size = 0;
        bytes = take n (drop b.first_pkt_size b.bytes) ++ behind beyond n;
      }
unfolding remove_pkt
removed beyond b = ground arith

-- Where a 0 stands right behind the bytes of the buffer, as rtsp_recv puts it there: after a whole
-- message has been found at the beginning, and with memory for the rest, remove_pkt leaves the bytes
-- behind that message, and fewer than there were. No 0 is put behind them: the text goes on with what
-- happens to lie behind the new memory.
pub remove_pkt-rest :
    (ilvd : Bool) (beyond : List ℕ) (b b' : RtspBuffer)
    → IsBuffer b
    → full_msg_rcvd ilvd b ≡ (true, b')
    → let r = remove_pkt true beyond b' in
      let rest = drop b'.first_pkt_size b.bytes in
      (r.bytes ≡ rest ++ (if length rest == 0 then [] else beyond))
      × (r.size ≡ length rest)
      × (r.first_pkt_size ≡ 0)
      × (r.size < b.size)
remove_pkt-rest ilvd beyond b b' v e =
    let r = full_msg_rcvd-Received ilvd b b' (omega (arith, v.sized)) e in
    let l : length (drop b'.first_pkt_size b.bytes) ≡ b.size - b'.first_pkt_size =
      omega (arith, drop-length b'.first_pkt_size b.bytes, v.sized) in
    let n : (b'.size + 2 ^ 64 - b'.first_pkt_size) % 2 ^ 64
        ≡ length (drop b'.first_pkt_size b.bytes) =
      omega (arith, r.size, r.some_bytes, r.first, v.fits, l) in
    let e' = removed beyond b' in
    rw
      (
        e',
        n,
        r.bytes,
        take_all (length (drop b'.first_pkt_size b.bytes)) (drop b'.first_pkt_size b.bytes)
            (omega arith),
      )
      (refl, refl, refl, omega (arith, r.some_bytes, r.first, l))

-- Where a 0 happens to lie behind the new memory, the text ends with the bytes.
pub remove_pkt-IsBounded :
    (beyond : List ℕ) (b : RtspBuffer) → beyond ≡ [] → IsBounded (remove_pkt true beyond b)
remove_pkt-IsBounded beyond b e =
    let n = (b.size + 2 ^ 64 - b.first_pkt_size) % 2 ^ 64 in
    let s = take n (drop b.first_pkt_size b.bytes) in
    let l = take-length_le n (drop b.first_pkt_size b.bytes) in rw (e, removed [] b) (no_more n s l)
  where
    no_more : (n : ℕ) (s : List ℕ) → length s ≤ n → length (s ++ behind [] n) ≤ n
    no_more n s l = ground (arith, length-append s [])

pub append_read-IsBounded :
    (bytes : List ℕ) (b b' : RtspBuffer)
    → append_read true bytes b ≡ some b'
    → IsBounded b' × (b'.size ≡ b.size + length bytes)
unfolding append_read
append_read-IsBounded bytes b b' e =
    let l = length-append (take b.size b.bytes) bytes in
    let k = take-length_le b.size b.bytes in
    let w : record b { size = b.size + length bytes; bytes = take b.size b.bytes ++ bytes } ≡ b' =
      ground arith in
    rw (← w) (omega (arith, l, k), refl)
