-- ===== src/Rtsp/Reply/Awaited.antt =====
-- Which answers check_response takes for the one that is waited for.
use libnemesi.Common.{
  ℕ, ◌≡◌, refl, ◌≢◌, ◌⊎◌, inl, inr, true, Option, none, some, List, arith, if◌then◌else◌, ◌==◌,
  drop, Option-cases, Bool-cases,
}
use libnemesi.Common.Int.{ℤ, pos, negsuc}
use libnemesi.Rtsp.Text.{newline, c_str, strcasestr, strchr, skip_sep, scan_int}
use libnemesi.Rtsp.Thread.{RtspThread, is_num, get_response, setup_response}
use libnemesi.Rtsp.Session.{get_session_str}
use libnemesi.Rtsp.Send.{Given}
use libnemesi.Rtsp.Reply.{
  Opcode, minus_one, opcode, cseq_key, session_key, or_junk, name_of, same_session, check_session,
  check_wait, check_content, check_response,
}

-- The number is that of the request, or 1 for DESCRIBE.
abbrev pub Agrees : RtspThread → ℕ → ℤ → Type 0
Agrees t n z = ((n ≡ get_response) × (z ≡ pos 1)) ⊎ (z ≡ pos t.wait_for.cseq)

-- The answer has the code that the thread waits for, and "CSeq" stands after its first line, whatever
-- precedes it. The number behind the first one agrees; where no number stands there, it is `junk`,
-- what the variable happens to hold, that agrees.
pub record IsAwaited (g : Given) (t : RtspThread) (n : ℕ) : Type 0 where
  pub res : n ≡ t.wait_for.res
  pub content : List ℕ
  pub first_line : strchr (c_str t.in_buffer.bytes) newline ≡ some content
  pub at : List ℕ
  pub found : strcasestr content cseq_key ≡ some at
  pub agrees :
      ((z : ℤ) × (scan_int (skip_sep (drop 5 at)) ≡ some z) × Agrees t n z)
      ⊎ ((scan_int (skip_sep (drop 5 at)) ≡ none) × Agrees t n g.junk)

scanned-Agrees :
    (g : Given) (t : RtspThread) (n : ℕ) (o : Option ℤ)
    → Agrees t n (or_junk o g.junk)
    → ((z : ℤ) × (o ≡ some z) × Agrees t n z) ⊎ ((o ≡ none) × Agrees t n g.junk)
scanned-Agrees g t n none a = inr (refl, a)
scanned-Agrees g t n (some z) a = inl (z, refl, a)

is_num-eq : (n : ℕ) (z : ℤ) → is_num n z ≡ true → z ≡ pos n
is_num-eq n (pos m) h = ground arith
is_num-eq n (negsuc m) h = cc

same-passes :
    (o : Option (List ℕ)) (name : List ℕ) (ok : Opcode) (n : ℕ)
    → same_session o name ok ≡ opcode n
    → n ≢ 0
    → ok ≡ opcode n
unfolding same_session
same-passes none name ok n h k = cc
same-passes (some w) name ok n h k = ground arith

session-passes :
    (t : RtspThread) (o : Option (List ℕ)) (ok : Opcode) (n : ℕ)
    → check_session t o ok ≡ opcode n
    → n ≢ 0
    → ok ≡ opcode n
unfolding check_session
session-passes t none ok n h k = h
session-passes t (some at) ok n h k = elim (Option-cases (get_session_str (drop 7 at))) [
  | inl e ↦ ground arith
  | inr (name, e) ↦
      same-passes (name_of t.rtsp_queue t.wait_for.session_id) name ok n
        (rw (check_session, e) at h) k
]

numbered :
    (c : ℕ) (z : ℤ) (res n : ℕ)
    → (if is_num c z then opcode res else opcode 0) ≡ opcode n
    → n ≢ 0
    → (n ≡ res) × (z ≡ pos c)
numbered c z res n h k = elim (Bool-cases (is_num c z)) [
  | inl e ↦ (ground arith, is_num-eq c z e)
  | inr e ↦ absurd (ground arith)
]

wait-passes :
    (t : RtspThread) (s : Option (List ℕ)) (z : ℤ) (n : ℕ)
    → check_wait t s z ≡ opcode n
    → n ≢ 0
    → (n ≡ t.wait_for.res) × (((n ≡ get_response) × (z ≡ pos 1)) ⊎ (z ≡ pos t.wait_for.cseq))
unfolding check_wait
wait-passes t s z n h k = elim (Bool-cases (t.wait_for.res == get_response)) [
  | inl e ↦
      let (r, c) = numbered 1 z get_response n (rw (check_wait, e) at h) k in
      (ground arith, inl (r, c))
  | inr e ↦ elim (Bool-cases (t.wait_for.res == setup_response)) [
    | inl f ↦
        let (r, c) = numbered t.wait_for.cseq z setup_response n (rw (check_wait, e, f) at h) k in
        (ground arith, inr c)
    | inr f ↦
        let (r, c) =
          numbered t.wait_for.cseq z t.wait_for.res n
            (session-passes t s _ n (rw (check_wait, e, f) at h) k) k in
        (r, inr c)
  ]
]

-- An answer that check_response takes for a response has the code that the thread waits for, and
-- "CSeq" stands after its first line. If a number stands behind it, that is the number of the request,
-- or 1 for DESCRIBE; if none does, the variable that sscanf has not set happens to hold such a number.
pub check_response-IsAwaited :
    (g : Given) (t : RtspThread) (n : ℕ) → check_response g t ≡ opcode n → n ≢ 0 → IsAwaited g t n
unfolding check_response check_content
check_response-IsAwaited g t n h k =
    elim (Option-cases (strchr (c_str t.in_buffer.bytes) newline)) [
      | inl e ↦ let w : minus_one ≡ opcode n = rw (check_response, e) at h in cc
      | inr (content, e) ↦ elim (Option-cases (strcasestr content cseq_key)) [
        | inl f ↦ let w : minus_one ≡ opcode n = rw (check_response, e, check_content, f) at h in cc
        | inr (at, f) ↦
            let w =
              wait-passes t (strcasestr content session_key)
                (or_junk (scan_int (skip_sep (drop 5 at))) g.junk) n
                (rw (check_response, e, check_content, f) at h) k in
            record {
              res = w.0;
              content = content;
              first_line = e;
              at = at;
              found = f;
              agrees = scanned-Agrees g t n (scan_int (skip_sep (drop 5 at))) w.1;
            }
      ]
    ]
