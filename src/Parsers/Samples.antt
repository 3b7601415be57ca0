-- ===== src/Parsers/Samples.antt =====
-- Packets that wait in a list, for the tests of the parsers.
use libnemesi.Common.{ℕ, ◌+◌, ◌≡◌, refl, Bool, true, false, none, some, List, [], ◌∷◌, length}
use libnemesi.Parsers.{Assembly, Output, buff_empty}
use libnemesi.Parsers.Fill.{Packet, Queue}

-- A list of packets, read from its start.
abbrev pub line : Queue (List Packet)
line = record {
  get = λ q. (elim q [ [] ↦ none | x ∷ xs ↦ some x ], q);
  rm = λ q. elim q [ [] ↦ [] | x ∷ xs ↦ xs ];
  Holds = λ q xs. q ≡ xs;
  get_head = λ q x xs h. (rw h refl, h);
  rm_head = λ q x xs h. rw h refl;
}

abbrev pub always : ℕ → Bool
always n = true

abbrev pub no_output : Output
no_output = record {
  code = buff_empty;
  frame = none;
  config = none;
  timestamp = none;
  removed = false;
}

-- No frame is begun.
abbrev pub idle : Assembly
idle = record { buffer = record { held = []; data_size = 0; lost = false }; timestamp = 0 }

-- A packet of the time 9 with its payload; `flag` is its second byte, the mark and the type.
abbrev pub sample : ℕ → List ℕ → Packet
sample flag xs = (128 ∷ flag ∷ 0 ∷ 7 ∷ 0 ∷ 0 ∷ 0 ∷ 9 ∷ 0 ∷ 0 ∷ 0 ∷ 5 ∷ xs, 12 + length xs)
