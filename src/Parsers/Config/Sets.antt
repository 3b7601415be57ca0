-- ===== src/Parsers/Config/Sets.antt =====
-- The parameter sets of H.264 in the text of a description.
use libnemesi.Common.{
  ℕ, zero, suc, ◌+◌, ◌*◌, ◌/◌, ◌%◌, ◌<◌, ◌≤◌, ◌≡◌, ◌≢◌, refl, ap, sym, ◌∙◌, Bool, true, false, some,
  List, [], ◌∷◌, ◌++◌, All, length, length-append, ◌==◌, arith,
}
use mathlib.Core.List.{append_assoc, append-nil}
use libnemesi.Parsers.Grow.{Ample}
use libnemesi.Parsers.H264.{start_seq}
use libnemesi.Parsers.H264.Aggregate.{stream}
use libnemesi.Parsers.Text.{nms_base64_decode}
use libnemesi.Parsers.Text.Hex.{AreBytes}
use libnemesi.Parsers.Text.Base64.{base64_char, base64_text, nms_base64_decode-text}
use libnemesi.Parsers.{new_buffer}
use libnemesi.Parsers.Config.{
  inited, is_unsupported, nms_get_attr_value, packetization_mode, sprop_parameter_sets, h264_attrs,
  h264_state, h264_init_parser, Conf, conf, chunk, skip_comma, add_set, sets_loop,
}

-- The sets in base64, with commas between them.
abbrev pub sets_text : List ℕ → List (List ℕ) → List ℕ
sets_text x [] = base64_text x
sets_text x (y ∷ ys) = base64_text x ++ 44 ∷ sets_text y ys

-- Each set has a byte at least, and its text fits the buffer of the parser.
abbrev pub IsParameterSet : List ℕ → Type 0
IsParameterSet x = AreBytes x × (x ≢ []) × (length (base64_text x) ≤ 1023)

abbrev pub AreSets : List (List ℕ) → Type 0
AreSets xs = All IsParameterSet xs

char_ne : (d : ℕ) → d < 64 → base64_char d ≢ 44
char_ne d h e = ground arith

abbrev NoComma : List ℕ → Type 0
NoComma s = All (λ c. c ≢ 44) s

padding_ne : (c : ℕ) → c ≡ 61 → c ≢ 44
padding_ne c h e = omega arith

base64_text-NoComma : (x : List ℕ) → AreBytes x → NoComma (base64_text x)
base64_text-NoComma [] v = tt
base64_text-NoComma (a ∷ []) v = (
  char_ne (a / 4) (omega (arith, v.0)),
  (char_ne (a % 4 * 16) (omega arith), (padding_ne 61 refl, (padding_ne 61 refl, tt))),
)
base64_text-NoComma (a ∷ b ∷ []) v = (
  char_ne (a / 4) (omega (arith, v.0)),
  (
    char_ne (a % 4 * 16 + b / 16) (omega (arith, v.1.0)),
    (char_ne (b % 16 * 4) (omega arith), (padding_ne 61 refl, tt)),
  ),
)
base64_text-NoComma (a ∷ b ∷ c ∷ x) v = (
  char_ne (a / 4) (omega (arith, v.0)),
  (
    char_ne (a % 4 * 16 + b / 16) (omega (arith, v.1.0)),
    (
      char_ne (b % 16 * 4 + c / 64) (omega (arith, v.1.1.0)),
      (char_ne (c % 64) (omega arith), base64_text-NoComma x v.1.1.1),
    ),
  ),
)

length-base64_text : (x : List ℕ) → length x ≤ length (base64_text x)
length-base64_text [] = omega arith
length-base64_text (a ∷ []) = omega arith
length-base64_text (a ∷ b ∷ []) = omega arith
length-base64_text (a ∷ b ∷ c ∷ x) = omega (arith, length-base64_text x)

-- A text without a comma is one chunk, up to its end or a comma.
chunk-all : (n : ℕ) (s : List ℕ) → NoComma s → length s ≤ n → chunk n s ≡ (s, [])
chunk-all zero [] v h = refl
chunk-all (suc n) [] v h = refl
chunk-all zero (c ∷ s) v h = absurd (omega arith)
chunk-all (suc n) (c ∷ s) (e, v) h =
    let q : (c == 44) ≡ false = ground (arith, e) in rw (q, chunk-all n s v (omega arith)) refl

chunk-comma :
    (n : ℕ) (s t : List ℕ) → NoComma s → length s ≤ n → chunk n (s ++ 44 ∷ t) ≡ (s, 44 ∷ t)
chunk-comma zero [] t v h = refl
chunk-comma (suc n) [] t v h = refl
chunk-comma zero (c ∷ s) t v h = absurd (omega arith)
chunk-comma (suc n) (c ∷ s) t (e, v) h =
    let q : (c == 44) ≡ false = ground (arith, e) in rw (q, chunk-comma n s t v (omega arith)) refl

some_left : (x s : List ℕ) → x ≢ [] → length x ≤ length s → s ≢ []
some_left [] s h l = absurd (h refl)
some_left (a ∷ x) s h l = λ e. omega (arith, ap length e)

no_length : (s : List ℕ) → length s ≤ 0 → s ≡ []
no_length [] h = refl
no_length (c ∷ s) h = absurd (omega arith)

module _ (mem : ℕ → Bool) (ample : Ample mem) where
  add_set-some :
      (y xs : List ℕ) (rest : List ℕ → Conf)
      → y ≢ []
      → add_set mem (some y) xs rest ≡ rest (xs ++ (start_seq ++ y))
  unfolding add_set
  add_set-some [] xs rest h = absurd (h refl)
  add_set-some (b ∷ y) xs rest h = rw (ample (length (b ∷ y) + 4 + length xs)) refl

  sets_loop-step :
      (fuel : ℕ) (xs v : List ℕ)
      → v ≢ []
      → sets_loop mem (suc fuel) xs v
        ≡ add_set mem
            (nms_base64_decode 1024 (chunk 1023 v).0)
            xs
            (λ ys. sets_loop mem fuel ys (skip_comma (chunk 1023 v).1))
  unfolding sets_loop
  sets_loop-step fuel xs [] h = absurd (h refl)
  sets_loop-step fuel xs (c ∷ v) h = refl

  -- One round, over a text that begins with a set.
  sets_loop-set :
      (fuel : ℕ) (xs x v t : List ℕ)
      → IsParameterSet x
      → v ≢ []
      → chunk 1023 v ≡ (base64_text x, t)
      → sets_loop mem (suc fuel) xs v ≡ sets_loop mem fuel (xs ++ (start_seq ++ x)) (skip_comma t)
  sets_loop-set fuel xs x v t (b, n, h) m e =
      let d = nms_base64_decode-text 1024 x b (omega (arith, length-base64_text x, h)) in
      sets_loop-step fuel xs v m
      ∙ rw (e, d) (add_set-some x xs (λ ys. sets_loop mem fuel ys (skip_comma t)) n)

  sets_loop-end : (fuel : ℕ) (xs : List ℕ) → sets_loop mem fuel xs [] ≡ conf xs
  unfolding sets_loop
  sets_loop-end zero xs = refl
  sets_loop-end (suc fuel) xs = refl

  sets_loop-stream :
      (fuel : ℕ) (xs x : List ℕ) (ys : List (List ℕ))
      → IsParameterSet x
      → AreSets ys
      → length (sets_text x ys) ≤ fuel
      → sets_loop mem fuel xs (sets_text x ys) ≡ conf (xs ++ stream (x ∷ ys))
  sets_loop-stream zero xs x [] (b, n, l) w h =
      absurd (some_left x (base64_text x) n (length-base64_text x) (no_length (base64_text x) h))
  sets_loop-stream zero xs x (y ∷ ys) v w h =
      absurd (omega (arith, h, length-append (base64_text x) (44 ∷ sets_text y ys)))
  sets_loop-stream (suc fuel) xs x [] v w h =
      let m = some_left x (base64_text x) v.1 (length-base64_text x) in
      sets_loop-set fuel xs x (base64_text x) [] v m
        (chunk-all 1023 (base64_text x) (base64_text-NoComma x v.0) v.2)
      ∙ sets_loop-end fuel (xs ++ (start_seq ++ x))
      ∙ ap (λ zs. conf (xs ++ (start_seq ++ zs))) (sym (append-nil x))
  sets_loop-stream (suc fuel) xs x (y ∷ ys) v w h =
      let t = 44 ∷ sets_text y ys in
      let l = length-append (base64_text x) t in
      sets_loop-set fuel xs x (base64_text x ++ t) t v
        (some_left x (base64_text x ++ t) v.1 (omega (arith, l, length-base64_text x)))
        (chunk-comma 1023 (base64_text x) (sets_text y ys) (base64_text-NoComma x v.0) v.2)
      ∙ sets_loop-stream fuel (xs ++ (start_seq ++ x)) y ys w.0 w.1 (omega (arith, l))
      ∙ ap conf (
          append_assoc xs (start_seq ++ x) (stream (y ∷ ys))
          ∙ ap (λ zs. xs ++ zs) (append_assoc start_seq x (stream (y ∷ ys))))

  length_ne : (s : List ℕ) → s ≢ [] → (length s == 0) ≡ false
  length_ne [] h = absurd (h refl)
  length_ne (c ∷ s) h = ground arith

  sets_text_ne : (x : List ℕ) (ys : List (List ℕ)) → IsParameterSet x → sets_text x ys ≢ []
  sets_text_ne x [] (b, n, l) = some_left x (base64_text x) n (length-base64_text x)
  sets_text_ne x (y ∷ ys) (b, n, l) =
      some_left x (sets_text x (y ∷ ys)) n
        (omega (arith, length-append (base64_text x) (44 ∷ sets_text y ys), length-base64_text x))

  -- A description has one attribute, whose packetization mode, if it has one, is supported. Its value
  -- of sprop-parameter-sets is one or more sets of bytes, none of them empty, in base64 with commas
  -- between them, each text below 1024 characters; memory is always got. Then h264_init_parser
  -- makes a parser whose configuration is the sets, in order, each behind a start sequence.
  pub h264_init_parser-sets :
      (attr x : List ℕ) (ys : List (List ℕ))
      → IsParameterSet x
      → AreSets ys
      → is_unsupported (nms_get_attr_value attr packetization_mode 1024) ≡ false
      → nms_get_attr_value attr sprop_parameter_sets 1024 ≡ sets_text x ys
      → h264_init_parser mem true (attr ∷ [])
        ≡ inited (record {
          buffer = new_buffer;
          timestamp = 0;
          conf = stream (x ∷ ys);
          configured = false;
        })
  unfolding h264_init_parser h264_attrs h264_state
  h264_init_parser-sets attr x ys v w m e =
      rw
        (
          m,
          e,
          length_ne (sets_text x ys) (sets_text_ne x ys v),
          sets_loop-stream (length (sets_text x ys)) [] x ys v w (omega arith),
        )
        refl
