-- ===== src/Parsers/Simple.antt =====
-- The parsers whose frames end at the mark of a packet: a call that puts the packet's piece into the
-- buffer goes on with the frame, or ends it.
use libnemesi.Common.{
  ℕ, ◌≤◌, ◌≡◌, ◌≢◌, refl, sym, subst, true, false, Option, none, some, List, [], ◌++◌, ◌⊎◌, inl,
  inr, arith, length,
}
use libnemesi.Packet.{Slot, mark, time}
use libnemesi.Parsers.{fill_ok, again, parsed, Buffer, Assembly, emptied, finish, is_stray}
use libnemesi.Parsers.Grow.{IsBuffer, sized, sized-IsBuffer}
use libnemesi.Parsers.Fill.{Packet, Parser}
use libnemesi.Parsers.Frame.{Assembles}

-- The state holds the bytes `xs`, and a frame that is begun has the time `t`.
pub record IsAssembly (t : ℕ) (xs : List ℕ) (s : Assembly) : Type 0 where
  pub buffer : IsBuffer s.buffer
  pub held : s.buffer.held ≡ xs
  pub begun : (s.timestamp ≡ t) ⊎ (xs ≡ [])

-- No frame is begun.
pub record IsIdle (s : Assembly) : Type 0 where
  pub buffer : IsBuffer s.buffer
  pub empty : s.buffer.held ≡ []

pub IsIdle-IsAssembly : (t : ℕ) (s : Assembly) → IsIdle s → IsAssembly t [] s
IsIdle-IsAssembly t s v = record { buffer = v.buffer; held = v.empty; begun = inr refl }

pub not_stray :
    (t : ℕ) (xs : List ℕ) (s : Assembly) (p : Slot)
    → IsAssembly t xs s
    → time p ≡ t
    → is_stray p s ≡ false
unfolding is_stray
not_stray t xs s p v e = elim v.begun [ inl b ↦ ground (arith, b) | inr b ↦ rw (v.held, b) refl ]

pub finish-inner :
    (p : Slot) (config : Option (List ℕ)) (s : Assembly) (b : Buffer)
    → mark p ≡ 0
    → finish p config s b ≡ (
      record { code = again; frame = none; config = config; timestamp = none; removed = true },
      record { buffer = b; timestamp = time p },
    )
unfolding finish
finish-inner p config s b h = rw h refl

pub finish-final :
    (p : Slot) (config : Option (List ℕ)) (s : Assembly) (b : Buffer)
    → mark p ≢ 0
    → finish p config s b ≡ (
      record {
        code = fill_ok;
        frame = some b.held;
        config = config;
        timestamp = none;
        removed = true;
      },
      record s { buffer = emptied b },
    )
unfolding finish
finish-final p config s b h = ground (arith, h)

-- The call has put the piece of the packet `x` behind the bytes `xs`.
abbrev pub Called : Parser Assembly → Option (List ℕ) → List ℕ → Packet → Assembly → List ℕ → Type 0
Called parse config piece x s xs =
    (size : ℕ) × (length (xs ++ piece) ≤ size)
    × (parse (some x) s
        ≡ parsed (finish x.0 config s (sized (xs ++ piece) size)).0
            (finish x.0 config s (sized (xs ++ piece) size)).1)

module _ (t : ℕ) (parse : Parser Assembly) (config : Option (List ℕ)) (piece : Packet → List ℕ)
    (Fits : List ℕ → Packet → Type 0)
    (call : (s : Assembly) (x : Packet)
      → IsBuffer s.buffer
      → is_stray x.0 s ≡ false
      → Fits s.buffer.held x
      → Called parse config (piece x) x s s.buffer.held) where
  pub called :
      (xs : List ℕ) (s : Assembly) (x : Packet)
      → IsAssembly t xs s
      → time x.0 ≡ t
      → Fits xs x
      → Called parse config (piece x) x s xs
  called xs s x v e f =
      subst (Called parse config (piece x) x s) v.held
        (call s x v.buffer (not_stray t xs s x.0 v e) (subst (λ ys. Fits ys x) (sym v.held) f))

  abbrev pub simple : Assembles parse
  simple = record {
    Has = IsAssembly t;
    Done = IsIdle;
    Inner = λ xs x. (mark x.0 ≡ 0) × (time x.0 ≡ t) × Fits xs x;
    Final = λ xs x. (mark x.0 ≢ 0) × (time x.0 ≡ t) × Fits xs x;
    piece = piece;
    inner_lem = λ xs s x v (m, e, f).
        let (size, b, c) = called xs s x v e f in
        let eq = finish-inner x.0 config s (sized (xs ++ piece x) size) m in
        (
          record { code = again; frame = none; config = config; timestamp = none; removed = true },
          record { buffer = sized (xs ++ piece x) size; timestamp = time x.0 },
          rw (c, eq) refl,
          refl,
          refl,
          refl,
          record { buffer = sized-IsBuffer (xs ++ piece x) size b; held = refl; begun = inl e },
        );
    final_lem = λ xs s x v (m, e, f).
        let (size, b, c) = called xs s x v e f in
        let eq = finish-final x.0 config s (sized (xs ++ piece x) size) m in
        (
          record {
            code = fill_ok;
            frame = some (xs ++ piece x);
            config = config;
            timestamp = none;
            removed = true;
          },
          record s { buffer = sized [] size },
          rw (c, eq) refl,
          refl,
          refl,
          refl,
          refl,
          record { buffer = sized-IsBuffer [] size (omega arith); empty = refl },
        );
  }
