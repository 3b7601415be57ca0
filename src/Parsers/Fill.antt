-- ===== src/Parsers/Fill.antt =====
-- The loop of rtp_fill_buffer, src/rtp/rtp_buffer.c: the parser is called until it does not return
-- EAGAIN. It reads the packets through an interface, rtp_get_pkt and rtp_rm_pkt with what they
-- promise of the packets that wait.
use libnemesi.Common.{
  ℕ, zero, suc, ◌≡◌, Bool, true, false, Option, none, some, List, ◌∷◌, if◌then◌else◌,
}
use libnemesi.Packet.{Slot}
use libnemesi.Parsers.{
  Code, fill_ok, buff_empty, parse_error, pkt_unknown, in_prm_err, err_alloc, again, Output, Parsed,
  parsed, fault,
}

-- A slot and the length of the packet in it.
abbrev pub Packet : Type 0
Packet = Slot × ℕ

-- `get` is rtp_get_pkt, which may drop packets of types that are not known, and `rm` is rtp_rm_pkt.
-- `Holds q xs` says that the packets `xs` are the next ones of `q`.
pub record Queue (Q : Type 0) : Type 1 where
  pub get : Q → Option Packet × Q
  pub rm : Q → Q
  pub Holds : Q → List Packet → Type 0
  pub get_head :
      (q : Q) (x : Packet) (xs : List Packet)
      → Holds q (x ∷ xs)
      → ((get q).0 ≡ some x) × Holds (get q).1 (x ∷ xs)
  pub rm_head : (q : Q) (x : Packet) (xs : List Packet) → Holds q (x ∷ xs) → Holds (rm q) xs

abbrev pub Parser : Type 0 → Type 0
Parser P = Option Packet → P → Parsed P

-- Where the loop ends: what the last call set, with what earlier calls set and it did not.
pub data Filled (Q P : Type 0) : Type 0 where
  filled : Output → P → Q → Filled Q P
  faulted : Filled Q P
  endless : Filled Q P

abbrev pub or_else {ℓ} : {A : Type ℓ} → Option A → Option A → Option A
or_else none old = old
or_else (some x) old = some x

-- What `fr` and `config` hold after a call.
abbrev pub over : Output → Output → Output
over out old = record out {
  frame = or_else out.frame old.frame;
  config = or_else out.config old.config;
  timestamp = or_else out.timestamp old.timestamp;
}

abbrev pub is_again : Code → Bool
is_again again = true
is_again fill_ok = false
is_again buff_empty = false
is_again parse_error = false
is_again pkt_unknown = false
is_again in_prm_err = false
is_again err_alloc = false

unfoldable pub resume :
    {Q P : Type 0} → (Q → Q) → Output → Parsed P → Q → (Output → P → Q → Filled Q P) → Filled Q P
resume rm old fault q rest = faulted
resume rm old (parsed out s) q rest =
    let q' = if out.removed then rm q else q in
    if is_again out.code then rest (over out old) s q' else filled (over out old) s q'

module _ {Q P : Type 0} (i : Queue Q) (parse : Parser P) where
  unfoldable pub fill_loop : ℕ → Output → Q → P → Filled Q P
  unfolding resume
  fill_loop zero old q s = endless
  fill_loop (suc fuel) old q s =
      let rest : Output → P → Q → Filled Q P = λ old' s' q'. fill_loop fuel old' q' s' in
      resume i.rm old (parse (i.get q).0 s) (i.get q).1 rest
