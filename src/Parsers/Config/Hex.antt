-- ===== src/Parsers/Config/Hex.antt =====
-- The configuration of MPEG-4 video in the text of a description.
use libnemesi.Common.{
  ℕ, ◌+◌, ◌*◌, ◌%◌, ◌≤◌, ◌≡◌, ◌≢◌, refl, sym, ap, ◌∙◌, Bool, true, false, not, ◌||◌, some, List, [],
  ◌∷◌, ◌++◌, length, ◌==◌, arith,
}
use mathlib.Core.List.{append_assoc, append-nil}
use libnemesi.Parsers.{new_buffer}
use libnemesi.Parsers.Grow.{Ample}
use libnemesi.Parsers.Text.Hex.{AreBytes, hex_text, nms_hex_decode-text}
use libnemesi.Parsers.Config.{
  Conf, conf, config, nms_get_attr_value, add_hex, m4v_conf, m4v_state, m4v_init_parser,
}

length-hex_text : (xs : List ℕ) → length (hex_text xs) ≡ 2 * length xs
length-hex_text [] = refl
length-hex_text (x ∷ xs) = omega (arith, length-hex_text xs)

-- The bytes have text, and it fits the buffer of the parser.
abbrev pub IsConfig : List ℕ → Type 0
IsConfig xs = AreBytes xs × (xs ≢ []) × (length xs ≤ 511)

abbrev pub AreConfigs : List (List ℕ) → List (List ℕ) → Type 0
AreConfigs [] [] = Unit
AreConfigs [] (xs ∷ xss) = ⊥
AreConfigs (attr ∷ attrs) [] = ⊥
AreConfigs (attr ∷ attrs) (xs ∷ xss) =
    (nms_get_attr_value attr config 1024 ≡ hex_text xs) × IsConfig xs × AreConfigs attrs xss

abbrev pub joined : List (List ℕ) → List ℕ
joined [] = []
joined (xs ∷ xss) = xs ++ joined xss

even_text :
    (xs : List ℕ)
    → xs ≢ []
    → ((length (hex_text xs) == 0) || not (length (hex_text xs) % 2 == 0)) ≡ false
even_text [] h = absurd (h refl)
even_text (x ∷ xs) h = ground (arith, length-hex_text xs)

module _ (mem : ℕ → Bool) (ample : Ample mem) where
  add_hex-some :
      (ys xs : List ℕ) (rest : List ℕ → Conf) → add_hex mem (some ys) xs rest ≡ rest (xs ++ ys)
  unfolding add_hex
  add_hex-some ys xs rest = rw (ample (length xs + length ys)) refl

  m4v_conf-joined :
      (attrs xss : List (List ℕ)) (ys : List ℕ)
      → AreConfigs attrs xss
      → m4v_conf mem ys attrs ≡ conf (ys ++ joined xss)
  unfolding m4v_conf
  m4v_conf-joined [] [] ys v = ap conf (sym (append-nil ys))
  m4v_conf-joined [] (xs ∷ xss) ys v = absurd v
  m4v_conf-joined (attr ∷ attrs) [] ys v = absurd v
  m4v_conf-joined (attr ∷ attrs) (xs ∷ xss) ys (e, (b, n, l), v) =
      rw (e, even_text xs n, nms_hex_decode-text 1024 xs b (omega arith))
        (add_hex-some xs ys (λ zs. m4v_conf mem zs attrs)
          ∙ m4v_conf-joined attrs xss (ys ++ xs) v
          ∙ ap conf (append_assoc ys xs (joined xss)))

  -- Each attribute has a value of config that is bytes in hexadecimal text, one at least and 511 at
  -- most; memory is always got. Then m4v_init_parser makes a parser whose configuration is these bytes,
  -- those of the first attribute first, and that has not sent them.
  pub m4v_init_parser-text :
      (attrs xss : List (List ℕ))
      → AreConfigs attrs xss
      → m4v_init_parser mem true attrs
        ≡ some (record {
          assembly = record { buffer = new_buffer; timestamp = 0 };
          conf = joined xss;
          configured = false;
        })
  unfolding m4v_init_parser m4v_state
  m4v_init_parser-text attrs xss v = rw (m4v_conf-joined attrs xss [] v) refl
