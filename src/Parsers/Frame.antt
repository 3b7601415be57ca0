-- ===== src/Parsers/Frame.antt =====
-- A parser that puts one frame together out of the packets that wait, one piece from each: the loop
-- of rtp_fill_buffer ends with the pieces in order, whatever the parser.
use libnemesi.Common.{
  ℕ, zero, suc, ◌<◌, arith, ◌≡◌, refl, sym, ap, ◌∙◌, true, none, some, List, [], ◌∷◌, ◌++◌, length,
}
use mathlib.Core.List.{append_assoc}
use libnemesi.Parsers.{fill_ok, again, Output, parsed}
use libnemesi.Parsers.Fill.{Packet, Queue, Parser, Filled, filled, over, resume, fill_loop}

-- The loop ended with the frame `ys`, the state satisfies `Done`, and the packets `rest` wait.
abbrev pub Yields :
    {Q P : Type 0} → Queue Q → (P → Type 0) → List ℕ → List Packet → Filled Q P → Type 0
Yields {Q} {P} i Done ys rest r =
    (out : Output) × (s : P) × (q : Q) × (r ≡ filled out s q)
    × (out.code ≡ fill_ok)
    × (out.frame ≡ some ys)
    × Done s
    × i.Holds q rest

-- The same, where no call has set the time stamp of the frame: it is that of `old`.
abbrev pub YieldsAt :
    {Q P : Type 0} → Output → Queue Q → (P → Type 0) → List ℕ → List Packet → Filled Q P → Type 0
YieldsAt {Q} {P} old i Done ys rest r =
    (out : Output) × (s : P) × (q : Q) × (r ≡ filled out s q)
    × (out.code ≡ fill_ok)
    × (out.frame ≡ some ys)
    × Done s
    × i.Holds q rest
    × (out.timestamp ≡ old.timestamp)

-- `Has xs s` says that the state holds the bytes `xs` of a frame; `Inner xs x` that the packet `x`
-- goes on with such a frame, and `Final xs x` that it ends it.
pub record Assembles {P : Type 0} (parse : Parser P) : Type 1 where
  pub Has : List ℕ → P → Type 0
  pub Done : P → Type 0
  pub Inner : List ℕ → Packet → Type 0
  pub Final : List ℕ → Packet → Type 0
  pub piece : Packet → List ℕ
  pub inner_lem :
      (xs : List ℕ) (s : P) (x : Packet)
      → Has xs s
      → Inner xs x
      → (out : Output) × (s' : P) × (parse (some x) s ≡ parsed out s')
        × (out.code ≡ again)
        × (out.removed ≡ true)
        × (out.timestamp ≡ none)
        × Has (xs ++ piece x) s'
  pub final_lem :
      (xs : List ℕ) (s : P) (x : Packet)
      → Has xs s
      → Final xs x
      → (out : Output) × (s' : P) × (parse (some x) s ≡ parsed out s')
        × (out.code ≡ fill_ok)
        × (out.removed ≡ true)
        × (out.timestamp ≡ none)
        × (out.frame ≡ some (xs ++ piece x))
        × Done s'

module _ {Q P : Type 0} (rm : Q → Q) (old out : Output) (s : P) (q : Q)
    (rest : Output → P → Q → Filled Q P) where
  resume-filled :
      out.code ≡ fill_ok
      → out.removed ≡ true
      → resume rm old (parsed out s) q rest ≡ filled (over out old) s (rm q)
  unfolding resume
  resume-filled c r = ground arith

  resume-again :
      out.code ≡ again
      → out.removed ≡ true
      → resume rm old (parsed out s) q rest ≡ rest (over out old) s (rm q)
  unfolding resume
  resume-again c r = ground arith

module _ {Q P : Type 0} (i : Queue Q) (parse : Parser P) (a : Assembles parse) where
  open a use {Has, Done, Inner, Final, piece, inner_lem, final_lem}

  -- The packets of a frame of which the bytes `xs` are there: the last one is `z`.
  abbrev pub Run : List ℕ → List Packet → Packet → Type 0
  Run xs [] z = Final xs z
  Run xs (y ∷ ys) z = Inner xs y × Run (xs ++ piece y) ys z

  abbrev pub pieces : List Packet → Packet → List ℕ
  pieces [] z = piece z
  pieces (y ∷ ys) z = piece y ++ pieces ys z

  YieldsAt-move :
      (old old' : Output) (ys zs : List ℕ) (rest : List Packet) (r t : Filled Q P)
      → old'.timestamp ≡ old.timestamp
      → ys ≡ zs
      → r ≡ t
      → YieldsAt old' i Done zs rest t
      → YieldsAt old i Done ys rest r
  YieldsAt-move old old' ys zs rest r t o e f (out, s, q, g, c, fr, d, w, n) =
      (out, s, q, f ∙ g, c, fr ∙ ap some (sym e), d, w, n ∙ o)

  last_call :
      (fuel : ℕ) (old : Output) (q : Q) (s : P) (xs : List ℕ) (z : Packet) (rest : List Packet)
      → Has xs s
      → Final xs z
      → i.Holds q (z ∷ rest)
      → YieldsAt old i Done (xs ++ piece z) rest (fill_loop i parse (suc fuel) old q s)
  unfolding fill_loop
  last_call fuel old q s xs z rest h f w =
      let (out, s', e, c, r, n, fr, d) = final_lem xs s z h f in
      let (g, w') = i.get_head q z rest w in
      (
        over out old,
        s',
        i.rm (i.get q).1,
        rw (g, e)
            (resume-filled i.rm old out s' (i.get q).1
              (λ old' s'' q'. fill_loop i parse fuel old' q' s'') c r),
        c,
        rw fr refl,
        d,
        i.rm_head (i.get q).1 z rest w',
        rw n refl,
      )

  -- With fuel for each packet of the frame the loop ends.
  pub fill_loop-YieldsAt :
      (fuel : ℕ) (old : Output) (q : Q) (s : P) (xs : List ℕ) (ys : List Packet) (z : Packet)
      (rest : List Packet)
      → length ys < fuel
      → Has xs s
      → Run xs ys z
      → i.Holds q (ys ++ z ∷ rest)
      → YieldsAt old i Done (xs ++ pieces ys z) rest (fill_loop i parse fuel old q s)
  unfolding fill_loop
  fill_loop-YieldsAt zero old q s xs ys z rest l h r w = absurd (omega arith)
  fill_loop-YieldsAt (suc fuel) old q s xs [] z rest l h r w =
      last_call fuel old q s xs z rest h r w
  fill_loop-YieldsAt (suc fuel) old q s xs (y ∷ ys) z rest l h r w =
      let (out, s', e, c, m, n, h') = inner_lem xs s y h r.0 in
      let (g, w') = i.get_head q y (ys ++ z ∷ rest) w in
      YieldsAt-move old (over out old) (xs ++ (piece y ++ pieces ys z))
        ((xs ++ piece y) ++ pieces ys z) rest (fill_loop i parse (suc fuel) old q s)
        (fill_loop i parse fuel (over out old) (i.rm (i.get q).1) s') (rw n refl)
        (sym (append_assoc xs (piece y) (pieces ys z)))
        (rw (g, e)
          (resume-again i.rm old out s' (i.get q).1
            (λ old' s'' q'. fill_loop i parse fuel old' q' s'') c m))
        (fill_loop-YieldsAt fuel (over out old) (i.rm (i.get q).1) s' (xs ++ piece y) ys z rest
          (omega arith) h' r.1 (i.rm_head (i.get q).1 y (ys ++ z ∷ rest) w'))

  pub fill_loop-Yields :
      (fuel : ℕ) (old : Output) (q : Q) (s : P) (xs : List ℕ) (ys : List Packet) (z : Packet)
      (rest : List Packet)
      → length ys < fuel
      → Has xs s
      → Run xs ys z
      → i.Holds q (ys ++ z ∷ rest)
      → Yields i Done (xs ++ pieces ys z) rest (fill_loop i parse fuel old q s)
  fill_loop-Yields fuel old q s xs ys z rest l h r w =
      let (out, s', q', e, c, fr, d, v, n) = fill_loop-YieldsAt fuel old q s xs ys z rest l h r w in
      (out, s', q', e, c, fr, d, v)
