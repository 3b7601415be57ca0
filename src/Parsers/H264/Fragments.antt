-- ===== src/Parsers/H264/Fragments.antt =====
-- H.264 video: the unit that fragments (FU-A) make.
use libnemesi.Common.{
  ℕ, ◌+◌, ◌*◌, ◌/◌, ◌%◌, ◌-◌, ◌≤◌, ◌<◌, ◌≡◌, ◌≢◌, refl, sym, ◌∙◌, Bool, true, false, none, some,
  List, [], ◌∷◌, ◌++◌, ◌⊎◌, arith, length, ◌==◌, if◌then◌else◌, inl, inr,
}
use libnemesi.Packet.{Slot, byte, bytes_at, length-bytes_at, time}
use libnemesi.Rtp.Header.{payload_start, payload_size}
use libnemesi.Parsers.{fill_ok, again, Output, Buffer, emptied, next, nms_append_incr}
use libnemesi.Parsers.Grow.{sized, Ample, grown, nms_alloc_data-sized}
use libnemesi.Parsers.Fill.{Packet, Queue, fill_loop}
use libnemesi.Parsers.Frame.{Assembles, Run, pieces, Yields, fill_loop-Yields}
use libnemesi.Parsers.H264.{
  H264, start_seq, start_bit, end_bit, reconstructed_nal, fragment, append_fragment, put_first,
  put_next, config_of, without, deliver, after_fragment, parse_fu, nal_type, parse_unit, is_due,
  h264_parse,
}

-- The state holds the bytes `xs` of a unit, and no parameter sets are due; a unit that is begun has
-- the time `t`.
pub record IsUnit (t : ℕ) (xs : List ℕ) (s : H264) : Type 0 where
  pub present : s.buffer.lost ≡ false
  pub held : s.buffer.held ≡ xs
  pub begun : (s.timestamp ≡ t) ⊎ (xs ≡ [])
  pub settled : is_due s ≡ false

-- No unit is begun, and no parameter sets are due.
pub record IsIdle (s : H264) : Type 0 where
  pub present : s.buffer.lost ≡ false
  pub empty : s.buffer.held ≡ []
  pub settled : is_due s ≡ false

-- The packet is a fragment with its two bytes, and has the bit S exactly where it is the first of a
-- unit.
abbrev pub Fits : List ℕ → Packet → Type 0
Fits xs (p, n) =
    (nal_type p ≡ 28)
    × (2 ≤ payload_size p n)
    × (xs ≡ [] → start_bit p ≡ 1)
    × (xs ≢ [] → start_bit p ≡ 0)

-- What the packet puts into the buffer: the first one a start sequence and the unit's header too.
abbrev pub piece : Packet → List ℕ
piece (p, n) =
    let i = payload_start p in
    let behind = bytes_at p (i + 2) (payload_size p n - 2) in
    if byte p (i + 1) / 128 == 1
    then start_seq ++ (byte p i / 32 * 32 + byte p (i + 1) % 32) ∷ behind
    else behind

length-fragment : (p : Slot) (n : ℕ) → length (fragment p n) ≡ payload_size p n - 2
unfolding fragment
length-fragment p n = length-bytes_at p (payload_start p + 2) (payload_size p n - 2)

same_time :
    (t : ℕ) (y : ℕ) (ys : List ℕ) (s : H264) (u : ℕ) → IsUnit t (y ∷ ys) s → u ≡ t → s.timestamp ≡ u
same_time t y ys s u v e = elim v.begun [ inl b ↦ b ∙ sym e | inr b ↦ cc ]

pub kept :
    (s : H264) (b : Buffer) (ts : ℕ)
    → is_due s ≡ false
    → is_due (record s { buffer = b; timestamp = ts }) ≡ false
unfolding is_due
kept s b ts h = h

IsIdle-IsUnit : (t : ℕ) (s : H264) → IsIdle s → IsUnit t [] s
IsIdle-IsUnit t s v = record {
  present = v.present;
  held = v.empty;
  begun = inr refl;
  settled = v.settled;
}

module _ (mem : ℕ → Bool) (ample : Ample mem) where
  put_first-sized :
      (p : Slot) (n : ℕ) (b : Buffer)
      → b.lost ≡ false
      → b.held ≡ []
      → 2 ≤ payload_size p n
      → (size : ℕ) × (put_first mem p n b
          ≡ next (sized (start_seq ++ reconstructed_nal p ∷ fragment p n) size))
  unfolding put_first append_fragment nms_append_incr
  put_first-sized p n b v h m =
      let (size, e, fits) =
        nms_alloc_data-sized mem (payload_size p n + 3 + length b.held) b ample v in
      (size, rw e (ground (arith, h, length-fragment p n)))

  put_next-sized :
      (p : Slot) (n : ℕ) (b : Buffer)
      → b.lost ≡ false
      → 2 ≤ payload_size p n
      → (size : ℕ) × (put_next mem p n b ≡ next (sized (b.held ++ fragment p n) size))
  unfolding put_next append_fragment
  put_next-sized p n b v m =
      let (size, b', e, q) =
        grown mem (payload_size p n + length b.held - 2) b (fragment p n) ample v
          (omega (arith, length-fragment p n)) in
      (size, rw e (ground (arith, q)))

  -- The call has put the piece of the packet behind the bytes `xs`.
  abbrev pub Called : H264 → Packet → List ℕ → Type 0
  Called s x xs =
      (size : ℕ) × (h264_parse mem (some x) s ≡ after_fragment x.0 s (sized (xs ++ piece x) size))

  to_fu :
      (s : H264) (p : Slot) (n : ℕ)
      → is_due s ≡ false
      → nal_type p ≡ 28
      → h264_parse mem (some (p, n)) s ≡ parse_fu mem p n s
  unfolding h264_parse parse_unit
  to_fu s p n d h = rw (d, h) refl

  fu-first :
      (s : H264) (p : Slot) (n : ℕ) (b : Buffer)
      → start_bit p ≡ 1
      → s.buffer.held ≡ []
      → put_first mem p n s.buffer ≡ next b
      → parse_fu mem p n s ≡ after_fragment p s b
  unfolding parse_fu
  fu-first s p n b e h q = ground arith

  fu-next :
      (s : H264) (p : Slot) (n : ℕ) (b : Buffer)
      → start_bit p ≡ 0
      → s.timestamp ≡ time p
      → put_next mem p n s.buffer ≡ next b
      → parse_fu mem p n s ≡ after_fragment p s b
  unfolding parse_fu
  fu-next s p n b e h q = ground arith

  pub called :
      (t : ℕ) (xs : List ℕ) (s : H264) (x : Packet)
      → IsUnit t xs s
      → time x.0 ≡ t
      → Fits xs x
      → Called s x xs
  unfolding fragment reconstructed_nal start_bit
  called t [] s (p, n) v e (k, m, b, b') =
      let f = b refl in
      let (size, q) = put_first-sized p n s.buffer v.present v.held m in
      (
        size,
        to_fu s p n v.settled k
            ∙ fu-first s p n (sized (start_seq ++ reconstructed_nal p ∷ fragment p n) size) f v.held
                q
            ∙ rw f refl,
      )
  called t (y ∷ ys) s (p, n) v e (k, m, b', b) =
      let f = b (cc) in
      let (size, q) = put_next-sized p n s.buffer v.present m in
      (
        size,
        to_fu s p n v.settled k
            ∙ fu-next s p n (sized (s.buffer.held ++ fragment p n) size) f
                (same_time t y ys s (time p) v e) q
            ∙ rw (f, v.held) refl,
      )

  pub after_fragment-again :
      (p : Slot) (s : H264) (b : Buffer)
      → end_bit p ≡ 0
      → after_fragment p s b ≡ without again true (record s { buffer = b; timestamp = time p })
  unfolding after_fragment
  after_fragment-again p s b h = rw h refl

  pub after_fragment-done :
      (p : Slot) (s : H264) (b : Buffer)
      → end_bit p ≢ 0
      → after_fragment p s b ≡ deliver (record s { buffer = b; timestamp = time p }) b
  unfolding after_fragment
  after_fragment-done p s b h = ground (arith, h)

  abbrev pub frames : (t : ℕ) → Assembles (h264_parse mem)
  frames t = record {
    Has = IsUnit t;
    Done = IsIdle;
    Inner = λ xs x. (end_bit x.0 ≡ 0) × (time x.0 ≡ t) × Fits xs x;
    Final = λ xs x. (end_bit x.0 ≢ 0) × (time x.0 ≡ t) × Fits xs x;
    piece = piece;
    inner_lem = λ xs s x v (m, e, f).
        let (size, c) = called t xs s x v e f in
        let b = sized (xs ++ piece x) size in
        (
          record {
            code = again;
            frame = none;
            config = config_of s;
            timestamp = none;
            removed = true;
          },
          record s { buffer = b; timestamp = time x.0 },
          c ∙ after_fragment-again x.0 s b m,
          refl,
          refl,
          refl,
          record {
            present = refl;
            held = refl;
            begun = inl e;
            settled = kept s b (time x.0) v.settled;
          },
        );
    final_lem = λ xs s x v (m, e, f).
        let (size, c) = called t xs s x v e f in
        let b = sized (xs ++ piece x) size in
        (
          record {
            code = fill_ok;
            frame = some (xs ++ piece x);
            config = config_of s;
            timestamp = none;
            removed = true;
          },
          record s { buffer = emptied b; timestamp = time x.0 },
          c ∙ after_fragment-done x.0 s b m,
          refl,
          refl,
          refl,
          refl,
          record {
            present = refl;
            empty = refl;
            settled = kept s (emptied b) (time x.0) v.settled;
          },
        );
  }

  -- The packets `ys` and then `z` are the next ones, fragments of one unit: all of the time `t`, with
  -- their two bytes, the first of them alone with the bit S and `z` alone with the bit E. Memory is
  -- always got, no unit is begun, and no parameter sets are due. Then the loop of rtp_fill_buffer,
  -- with a round for each packet, ends with a frame: it is a start sequence, the header of the unit,
  -- and what the packets hold behind their two bytes, in order. The packets are removed, those behind
  -- them wait, and no unit is begun.
  pub h264_parse-unit :
      {Q : Type 0} (i : Queue Q) (t fuel : ℕ) (old : Output) (q : Q) (s : H264) (ys : List Packet)
      (z : Packet) (rest : List Packet)
      → length ys < fuel
      → IsIdle s
      → Run i (h264_parse mem) (frames t) [] ys z
      → i.Holds q (ys ++ z ∷ rest)
      → Yields i IsIdle
          (pieces i (h264_parse mem) (frames t) ys z)
          rest
          (fill_loop i (h264_parse mem) fuel old q s)
  h264_parse-unit i t fuel old q s ys z rest l v r w =
      fill_loop-Yields i (h264_parse mem) (frames t) fuel old q s [] ys z rest l
        (IsIdle-IsUnit t s v) r w
