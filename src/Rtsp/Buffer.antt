-- ===== src/Rtsp/Buffer.antt =====
-- The input buffer of src/rtsp/rtsp_internals.c: rtsp_recv puts what it reads behind it,
-- full_msg_rcvd looks for a whole message at its beginning, and remove_pkt takes that out.
pub mod Bounds
mod Examples
use libnemesi.Common.{
  ℕ, zero, suc, ◌+◌, ◌-◌, ◌*◌, ◌%◌, ◌^◌, Bool, true, false, ◌&&◌, ◌||◌, not, Option, none, some,
  List, [], ◌∷◌, ◌++◌, ltb, leb, ◌==◌, if◌then◌else◌, length, get_or, drop, take,
}
use libnemesi.Common.Int.{ℤ, pos}
use libnemesi.Rtsp.Text.{c_str, newline, return, strcasestr, skip_sep, scan_int, to_size}

-- `struct rtsp_buffer`. `data` is `bytes` here, and NULL is the empty list. `bytes` is what lies in
-- memory from `data` on up to the 0 that ends the text: the `size` bytes that the code has put there,
-- and whatever lies between them and that 0. rtsp_recv puts a 0 right behind the bytes that it has
-- read. remove_pkt copies the remainder without one, so that the string functions read on behind it.
pub record RtspBuffer : Type 0 where
  pub size : ℕ
  pub first_pkt_size : ℕ
  pub bytes : List ℕ

-- "Content-Length"
abbrev pub content_length : List ℕ
content_length = 67 ∷ 111 ∷ 110 ∷ 116 ∷ 101 ∷ 110 ∷ 116 ∷ 45 ∷ 76 ∷ 101 ∷ 110 ∷ 103 ∷ 116 ∷ 104 ∷ []

-- `body_len`, 0 at first, after sscanf.
abbrev pub scanned : Option ℤ → ℤ
scanned none = pos 0
scanned (some n) = n

unfoldable pub body_len_at : Option (List ℕ) → ℤ
body_len_at none = pos 0
body_len_at (some con_len) = scanned (scan_int (skip_sep (drop 14 con_len)))

unfoldable pub body_exists : List ℕ → ℤ
unfolding body_len_at
body_exists s = body_len_at (strcasestr s content_length)

abbrev pub shift : Option ℕ → Option ℕ
shift none = none
shift (some k) = some (suc k)

-- The offset of the first newline from the offset `i` on: `strchr`.
unfoldable pub next_line : List ℕ → ℕ → Option ℕ
next_line [] i = none
next_line (c ∷ s) zero = let rest = shift (next_line s 0) in if c == newline then some 0 else rest
next_line (c ∷ s) (suc i) = shift (next_line s i)

-- `(head_end - back_n) == 2 && *(back_n + 1) == '\r'`, or the newlines stand side by side.
unfoldable pub is_empty_line : List ℕ → ℕ → ℕ → Bool
is_empty_line s back_n head_end =
    ((head_end - back_n) == 2 && get_or s (back_n + 1) 0 == return)
    || not (ltb 1 (head_end - back_n))

-- The do-while loop: the newline at which the header ends. The first `none` is out of fuel.
unfoldable pub head_loop : List ℕ → ℕ → ℕ → Option ℕ
unfolding next_line is_empty_line
head_loop s zero back_n = none
head_loop s (suc fuel) back_n = elim (next_line s (back_n + 1)) [
  | none ↦ none
  | some head_end ↦
      let rest = head_loop s fuel head_end in
      if is_empty_line s back_n head_end then some head_end else rest
]

unfoldable pub find_header : List ℕ → Option ℕ
unfolding head_loop
find_header s = elim (next_line s 0) [
  | none ↦ none
  | some head_end ↦ head_loop s (length s) head_end
]

-- How many newlines and returns the string begins with.
unfoldable pub blanks : List ℕ → ℕ
blanks [] = 0
blanks (c ∷ s) = let rest = suc (blanks s) in if (c == newline) || (c == return) then rest else 0

-- What follows the header, by the length that it gives.
unfoldable pub with_body : RtspBuffer → ℕ → ℕ → ℕ → Bool × RtspBuffer
with_body b head_end left body_len =
    if body_len == 0
    then (true, record b { first_pkt_size = head_end })
    else if ltb left body_len
    then (false, b)
    else (true, record b { first_pkt_size = head_end + body_len })

unfoldable pub after_header : RtspBuffer → List ℕ → Option ℕ → Bool × RtspBuffer
unfolding with_body blanks body_exists
after_header b s none = (false, b)
after_header b s (some nl) =
    let head_end = nl + 1 + blanks (drop (nl + 1) s) in
    with_body b head_end (length s - head_end) (to_size (body_exists s))

-- `ilvd` tells whether RTP packets come interleaved: the socket is of type TCP and there is a list
-- of channels.
unfoldable pub full_msg_rcvd : Bool → RtspBuffer → Bool × RtspBuffer
unfolding after_header find_header
full_msg_rcvd ilvd b =
    let body_len = get_or b.bytes 2 0 * 256 + get_or b.bytes 3 0 + 4 in
    if ilvd && (ltb 4 b.size && get_or b.bytes 0 0 == 36)
    then (if leb body_len b.size
        then (true, record b { first_pkt_size = body_len })
        else (false, b))
    else after_header b (c_str b.bytes) (find_header (c_str b.bytes))

-- `mem` tells whether malloc succeeds. `beyond` is what happens to lie behind the new memory, up to a 0.
unfoldable pub remove_pkt : Bool → List ℕ → RtspBuffer → RtspBuffer
remove_pkt mem beyond b =
    let new_size = (b.size + 2 ^ 64 - b.first_pkt_size) % 2 ^ 64 in
    if not (new_size == 0) && not mem then b else record {
      size = new_size;
      first_pkt_size = 0;
      bytes =
          take new_size (drop b.first_pkt_size b.bytes) ++ (if new_size == 0 then [] else beyond);
    }

-- What rtsp_recv does with the bytes that it has read, one at least; `none` where the memory for
-- them is missing.
unfoldable pub append_read : Bool → List ℕ → RtspBuffer → Option RtspBuffer
append_read mem buffer b =
    if not mem
    then none
    else some (record b { size = b.size + length buffer; bytes = take b.size b.bytes ++ buffer })
