-- ===== src/Parsers/M4v/Frames.antt =====
-- MPEG-4 video: the frame that the packets of one time stamp make, the first one with the
-- configuration in front.
use libnemesi.Common.{
  ℕ, ◌+◌, ◌<◌, ◌≡◌, ◌≢◌, refl, subst, Bool, true, false, none, some, List, [], ◌∷◌, ◌++◌, ◌⊎◌,
  arith, length, ltb, if◌then◌else◌, Bool-cases, inl, inr,
}
use mathlib.Core.List.{append-nil}
use libnemesi.Packet.{Slot, mark, time}
use libnemesi.Rtp.Header.{payload_size}
use libnemesi.Parsers.{
  fill_ok, again, Output, parsed, Buffer, next, resize, nms_append_incr, payload, finish, is_stray,
}
use libnemesi.Parsers.Grow.{sized, Ample, grown}
use libnemesi.Parsers.Fill.{Packet, Queue, fill_loop}
use libnemesi.Parsers.Frame.{Assembles, Run, pieces, Yields, fill_loop-Yields}
use libnemesi.Parsers.Simple.{finish-inner, finish-final}
use libnemesi.Parsers.M4v.{M4v, is_due, configure, put, config_of, put_packet, m4v_parse}

-- What the next packet puts in front of it.
abbrev pub due : M4v → List ℕ
due s = if is_due s then s.conf else []

-- The state holds the bytes `xs`, with those that are due, and a frame that is begun has the time
-- `t`.
pub record IsM4v (t : ℕ) (xs : List ℕ) (s : M4v) : Type 0 where
  pub present : s.assembly.buffer.lost ≡ false
  pub held : s.assembly.buffer.held ++ due s ≡ xs
  pub begun : (s.assembly.timestamp ≡ t) ⊎ (s.assembly.buffer.held ≡ [])
  pub settled : (s.configured ≡ true) ⊎ (s.conf ≡ []) ⊎ (s.assembly.buffer.held ≡ [])

-- No frame is begun.
pub record IsIdle (s : M4v) : Type 0 where
  pub present : s.assembly.buffer.lost ≡ false
  pub empty : s.assembly.buffer.held ≡ []

-- The state once the configuration is in the buffer, if it was due.
abbrev pub settle : M4v → M4v
settle s = if is_due s then record s { configured = true } else s

not_stray :
    (t : ℕ) (xs : List ℕ) (s : M4v) (p : Slot)
    → IsM4v t xs s
    → time p ≡ t
    → is_stray p s.assembly ≡ false
unfolding is_stray
not_stray t xs s p v e = elim v.begun [ inl b ↦ ground (arith, b) | inr b ↦ rw b refl ]

due-empty : (s : M4v) → is_due s ≡ true → s.assembly.buffer.held ≡ []
unfolding is_due
due-empty s d = ground arith

-- A configuration that is due is what the state holds.
held_due :
    (s : M4v) → is_due s ≡ true → (xs : List ℕ) → s.assembly.buffer.held ++ due s ≡ xs → s.conf ≡ xs
held_due s d xs h =
    let e : s.assembly.buffer.held ++ s.conf ≡ xs = rw d at h in rw (due-empty s d) at e

held_rest :
    (s : M4v)
    → is_due s ≡ false
    → (xs : List ℕ) → s.assembly.buffer.held ++ due s ≡ xs
    → s.assembly.buffer.held ≡ xs
held_rest s d xs h = let e : s.assembly.buffer.held ++ [] ≡ xs = rw d at h in rw append-nil at e

length_zero : (xs : List ℕ) → ltb 0 (length xs) ≡ false → xs ≡ []
length_zero [] h = refl
length_zero (x ∷ xs) h = ground arith

-- Nothing is due once there is no configuration or it has been sent.
not_due : (s : M4v) → (s.configured ≡ true) ⊎ (s.conf ≡ []) → is_due s ≡ false
unfolding is_due
not_due s (inl c) = rw c refl
not_due s (inr c) = ground (arith, c)

settle-settled :
    (t : ℕ) (xs : List ℕ) (s : M4v)
    → IsM4v t xs s
    → ((settle s).configured ≡ true) ⊎ ((settle s).conf ≡ [])
unfolding is_due
settle-settled t xs s v = elim v.settled [
  | inl c ↦ ground (arith, c)
  | inr (inl c) ↦ ground (arith, c)
  | inr (inr c) ↦ ground (arith, c, length_zero s.conf)
]

pub inner_state :
    (t : ℕ) (xs : List ℕ) (s : M4v)
    → IsM4v t xs s
    → (ys : List ℕ) (size time : ℕ) → time ≡ t
    → IsM4v t ys
        (record (settle s) { assembly = record { buffer = sized ys size; timestamp = time } })
inner_state t xs s v ys size ts e =
    let s' = record (settle s) { assembly = record { buffer = sized ys size; timestamp = ts } } in
    let c = settle-settled t xs s v in
    record {
      present = refl;
      held = rw (not_due s' c) (append-nil ys);
      begun = inl e;
      settled = elim c [ inl d ↦ inl d | inr d ↦ inr (inl d) ];
    }

IsIdle-IsM4v : (t : ℕ) (s : M4v) → IsIdle s → IsM4v t (due s) s
IsIdle-IsM4v t s v = record {
  present = v.present;
  held = rw v.empty refl;
  begun = inr v.empty;
  settled = inr (inr v.empty);
}

module _ (mem : ℕ → Bool) (ample : Ample mem) where
  put_packet-sized :
      (p : Slot) (n : ℕ) (s : M4v) (b : Buffer)
      → b.lost ≡ false
      → (size : ℕ) × (put_packet mem p n s b
          ≡ parsed
              (finish p (config_of s) s.assembly (sized (b.held ++ payload p n) size)).0
              (record s {
                assembly =
                    (finish p (config_of s) s.assembly (sized (b.held ++ payload p n) size)).1;
              }))
  unfolding put_packet put
  put_packet-sized p n s b v =
      let (size, b', e, q) =
        grown mem (length (payload p n) + length b.held) b (payload p n) ample v (omega arith) in
      (size, rw (e, q) refl)

  configure-sized :
      (size : ℕ) (conf : List ℕ) (b : Buffer)
      → b.lost ≡ false
      → b.held ≡ []
      → configure mem size conf b ≡ next (sized conf size)
  unfolding configure resize nms_append_incr
  configure-sized size conf b v e = ground (arith, ample (length conf))

  -- The call has put the piece of the packet `x` behind the bytes `xs`.
  abbrev pub Called : M4v → Packet → List ℕ → Type 0
  Called s x xs =
      (size : ℕ) × (m4v_parse mem (some x) s
        ≡ parsed (finish x.0 (config_of s) s.assembly (sized (xs ++ payload x.0 x.1) size)).0
            (record (settle s) {
              assembly =
                  (finish x.0 (config_of s) s.assembly (sized (xs ++ payload x.0 x.1) size)).1;
            }))

  pub called :
      (t : ℕ) (xs : List ℕ) (s : M4v) (x : Packet) → IsM4v t xs s → time x.0 ≡ t → Called s x xs
  unfolding m4v_parse
  called t xs s (p, n) v e = elim (Bool-cases (is_due s)) [
    | inl d ↦
        let (size, q) =
          put_packet-sized p n (record s { configured = true }) (sized s.conf (payload_size p n))
            refl in
        subst (Called s (p, n)) (held_due s d xs v.held) (
          size,
          rw
              (
                not_stray t xs s p v e,
                d,
                configure-sized (payload_size p n) s.conf s.assembly.buffer v.present
                    (due-empty s d),
                q,
              )
              refl,
        )
    | inr d ↦
        let (size, q) = put_packet-sized p n s s.assembly.buffer v.present in
        subst (Called s (p, n)) (held_rest s d xs v.held)
          (size, rw (not_stray t xs s p v e, d, q) refl)
  ]

  abbrev pub frames : (t : ℕ) → Assembles (m4v_parse mem)
  frames t = record {
    Has = IsM4v t;
    Done = IsIdle;
    Inner = λ xs x. (mark x.0 ≡ 0) × (time x.0 ≡ t);
    Final = λ xs x. (mark x.0 ≢ 0) × (time x.0 ≡ t);
    piece = λ x. payload x.0 x.1;
    inner_lem = λ xs s x v (m, e).
        let (size, c) = called t xs s x v e in
        let eq = finish-inner x.0 (config_of s) s.assembly (sized (xs ++ payload x.0 x.1) size) m in
        (
          record {
            code = again;
            frame = none;
            config = config_of s;
            timestamp = none;
            removed = true;
          },
          record (settle s) {
            assembly = record { buffer = sized (xs ++ payload x.0 x.1) size; timestamp = time x.0 };
          },
          rw (c, eq) refl,
          refl,
          refl,
          refl,
          inner_state t xs s v (xs ++ payload x.0 x.1) size (time x.0) e,
        );
    final_lem = λ xs s x v (m, e).
        let (size, c) = called t xs s x v e in
        let eq = finish-final x.0 (config_of s) s.assembly (sized (xs ++ payload x.0 x.1) size) m in
        (
          record {
            code = fill_ok;
            frame = some (xs ++ payload x.0 x.1);
            config = config_of s;
            timestamp = none;
            removed = true;
          },
          record (settle s) { assembly = record (s.assembly) { buffer = sized [] size } },
          rw (c, eq) refl,
          refl,
          refl,
          refl,
          refl,
          record { present = refl; empty = refl },
        );
  }

  -- The packets `ys` and then `z` are the next ones, all of the time `t`, and only `z` has the mark.
  -- Memory is always got, and no frame is begun. Then the loop of rtp_fill_buffer, with a round for
  -- each packet, ends with a frame: it is the payloads of the packets in order, and the configuration
  -- stands in front of them where it has not been sent before and there is one. The packets are
  -- removed, those behind them wait, and no frame is begun.
  pub m4v_parse-frame :
      {Q : Type 0} (i : Queue Q) (t fuel : ℕ) (old : Output) (q : Q) (s : M4v) (ys : List Packet)
      (z : Packet) (rest : List Packet)
      → length ys < fuel
      → IsIdle s
      → Run i (m4v_parse mem) (frames t) (due s) ys z
      → i.Holds q (ys ++ z ∷ rest)
      → Yields i IsIdle
          (due s ++ pieces i (m4v_parse mem) (frames t) ys z)
          rest
          (fill_loop i (m4v_parse mem) fuel old q s)
  m4v_parse-frame i t fuel old q s ys z rest l v r w =
      fill_loop-Yields i (m4v_parse mem) (frames t) fuel old q s (due s) ys z rest l
        (IsIdle-IsM4v t s v) r w
