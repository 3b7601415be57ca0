-- ===== src/Parsers/Config/Examples.antt =====
-- The theorems on the configuration of a parser at "packetization-mode=1;sprop-parameter-sets=..." with
-- two sets, and at "config=0A1b".
use libnemesi.Common.{ℕ, ◌≡◌, refl, true, false, some, List, [], ◌∷◌, ◌++◌, length, arith, ap}
use libnemesi.Parsers.{new_buffer}
use libnemesi.Parsers.Samples.{always}
use libnemesi.Parsers.Config.{
  config, packetization_mode, sprop_parameter_sets, inited, nms_get_attr_value, value_behind,
  is_unsupported, m4v_init_parser, h264_init_parser,
}
use libnemesi.Parsers.Config.Sets.{sets_text, h264_init_parser-sets}
use libnemesi.Parsers.Config.Hex.{m4v_init_parser-text}
use libnemesi.Parsers.Text.Hex.{hex_text}

abbrev attr : List ℕ
attr =
    packetization_mode
    ++ 61 ∷ 49 ∷ 59 ∷ sprop_parameter_sets
    ++ 61 ∷ sets_text (103 ∷ 66 ∷ []) ((104 ∷ []) ∷ [])

supported : is_unsupported (nms_get_attr_value attr packetization_mode 1024) ≡ false
unfolding is_unsupported nms_get_attr_value value_behind
supported = refl

value :
    nms_get_attr_value attr sprop_parameter_sets 1024 ≡ sets_text (103 ∷ 66 ∷ []) ((104 ∷ []) ∷ [])
unfolding nms_get_attr_value value_behind
value = refl

h264_init_parser-sets_example :
    h264_init_parser always true (attr ∷ [])
    ≡ inited (record {
      buffer = new_buffer;
      timestamp = 0;
      conf = 0 ∷ 0 ∷ 0 ∷ 1 ∷ 103 ∷ 66 ∷ 0 ∷ 0 ∷ 0 ∷ 1 ∷ 104 ∷ [];
      configured = false;
    })
h264_init_parser-sets_example =
    h264_init_parser-sets always (λ n. refl) attr (103 ∷ 66 ∷ []) ((104 ∷ []) ∷ [])
      ((omega arith, (omega arith, tt)), (λ e. omega (arith, ap length e)), omega arith)
      (((omega arith, tt), (λ e. omega (arith, ap length e)), omega arith), tt) supported value

abbrev config_attr : List ℕ
config_attr = config ++ 61 ∷ hex_text (10 ∷ 27 ∷ [])

config_value : nms_get_attr_value config_attr config 1024 ≡ hex_text (10 ∷ 27 ∷ [])
unfolding nms_get_attr_value value_behind
config_value = refl

m4v_init_parser-text_example :
    m4v_init_parser always true (config_attr ∷ [])
    ≡ some (record {
      assembly = record { buffer = new_buffer; timestamp = 0 };
      conf = 10 ∷ 27 ∷ [];
      configured = false;
    })
m4v_init_parser-text_example =
    m4v_init_parser-text always (λ n. refl) (config_attr ∷ []) ((10 ∷ 27 ∷ []) ∷ [])
      (
        config_value,
        ((omega arith, (omega arith, tt)), (λ e. omega (arith, ap length e)), omega arith),
        tt,
      )
