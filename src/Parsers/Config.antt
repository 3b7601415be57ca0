-- ===== src/Parsers/Config.antt =====
-- The configuration of a parser, read from the attributes of a description: nms_get_attr_value of
-- src/parsers/rtp_utils.c, m4v_init_parser of src/parsers/rtp_m4v.c and h264_init_parser of
-- src/parsers/rtp_h264.c. A string is the list of its characters, without the final 0.
pub mod Sets
pub mod Hex
mod Examples
use libnemesi.Common.{
  ℕ, zero, suc, ◌+◌, ◌-◌, ◌%◌, ◌^◌, Bool, true, false, not, ◌&&◌, ◌||◌, Option, none, some, List,
  [], ◌∷◌, ◌++◌, ltb, leb, ◌==◌, if◌then◌else◌, length, take,
}
use libnemesi.Rtsp.Text.{digits}
use libnemesi.Parsers.{new_buffer}
use libnemesi.Parsers.M4v.{M4v}
use libnemesi.Parsers.H264.{H264, start_seq}
use libnemesi.Parsers.Text.{nms_hex_decode, nms_base64_decode}

-- The text behind `key` at the beginning of the text.
abbrev pub behind : List ℕ → List ℕ → Option (List ℕ)
behind [] s = some s
behind (k ∷ key) [] = none
behind (k ∷ key) (c ∷ s) = let rest = behind key s in if k == c then rest else none

-- The text behind the first place where `key` stands: strstr.
abbrev pub find : List ℕ → List ℕ → Option (List ℕ)
find key [] = behind key []
find key (c ∷ s) =
    let rest = find key s in elim (behind key (c ∷ s)) [ none ↦ rest | some t ↦ some t ]

abbrev pub up_to : ℕ → List ℕ → List ℕ
up_to stop [] = []
up_to stop (c ∷ s) = let rest = up_to stop s in if c == stop then [] else c ∷ rest

-- The value, in a buffer of `v_len` characters, that the parameter's name and `=` stand before.
unfoldable pub value_behind : ℕ → Option (List ℕ) → List ℕ
value_behind v_len none = []
value_behind v_len (some []) = []
value_behind v_len (some (c ∷ s)) = if c == 61 then up_to 59 (take (v_len - 1) s) else []

-- The value of a parameter; it is empty where the function returns 0.
unfoldable pub nms_get_attr_value : List ℕ → List ℕ → ℕ → List ℕ
unfolding value_behind
nms_get_attr_value attr param v_len = value_behind v_len (find param attr)

-- The configuration that is read so far, or an error, or a copy of more than there is.
pub data Conf : Type 0 where
  conf : List ℕ → Conf
  no_memory : Conf
  overrun : Conf

-- "config"
abbrev pub config : List ℕ
config = 99 ∷ 111 ∷ 110 ∷ 102 ∷ 105 ∷ 103 ∷ []

-- "packetization-mode"
abbrev pub packetization_mode : List ℕ
packetization_mode =
    112 ∷ 97 ∷ 99 ∷ 107 ∷ 101 ∷ 116 ∷ 105 ∷ 122 ∷ 97 ∷ 116 ∷ 105 ∷ 111 ∷ 110 ∷ 45 ∷ 109 ∷ 111 ∷ 100
    ∷ 101 ∷ []

-- "sprop-parameter-sets"
abbrev pub sprop_parameter_sets : List ℕ
sprop_parameter_sets =
    115 ∷ 112 ∷ 114 ∷ 111 ∷ 112 ∷ 45 ∷ 112 ∷ 97 ∷ 114 ∷ 97 ∷ 109 ∷ 101 ∷ 116 ∷ 101 ∷ 114 ∷ 45 ∷ 115
    ∷ 101 ∷ 116 ∷ 115 ∷ []

unfoldable pub m4v_state : Conf → Option M4v
unfolding new_buffer
m4v_state (conf xs) = some (record {
  assembly = record { buffer = new_buffer; timestamp = 0 };
  conf = xs;
  configured = false;
})
m4v_state no_memory = none
m4v_state overrun = none

-- Up to `n` characters in front of a comma, and what is left.
abbrev pub chunk : ℕ → List ℕ → List ℕ × List ℕ
chunk zero s = ([], s)
chunk (suc n) [] = ([], [])
chunk (suc n) (c ∷ s) =
    let rest = chunk n s in if c == 44 then ([], c ∷ s) else (c ∷ rest.0, rest.1)

abbrev pub skip_comma : List ℕ → List ℕ
skip_comma [] = []
skip_comma (c ∷ s) = if c == 44 then s else c ∷ s

-- Where h264_init_parser ends.
pub data Inited : Type 0 where
  inited : H264 → Inited
  unsupported : Inited
  out_of_memory : Inited
  faulted : Inited

unfoldable pub h264_state : Conf → Inited
unfolding new_buffer
h264_state (conf xs) =
    inited (record { buffer = new_buffer; timestamp = 0; conf = xs; configured = false })
h264_state no_memory = out_of_memory
h264_state overrun = faulted

unfoldable pub is_unsupported : List ℕ → Bool
is_unsupported mode = not (length mode == 0) && (not (length mode == 1) || leb 2 (digits 0 mode))

module _ (mem : ℕ → Bool) where
  -- A hexadecimal value put behind the configuration.
  unfoldable pub add_hex : Option (List ℕ) → List ℕ → (List ℕ → Conf) → Conf
  add_hex none xs rest = no_memory
  add_hex (some ys) xs rest = if mem (length xs + length ys) then rest (xs ++ ys) else no_memory

  -- The loop over the attributes.
  unfoldable pub m4v_conf : List ℕ → List (List ℕ) → Conf
  unfolding add_hex nms_get_attr_value
  m4v_conf xs [] = conf xs
  m4v_conf xs (attr ∷ attrs) =
      let rest : List ℕ → Conf = λ ys. m4v_conf ys attrs in
      let value = nms_get_attr_value attr config 1024 in
      if (length value == 0) || not (length value % 2 == 0)
      then rest xs
      else add_hex (nms_hex_decode 1024 value) xs rest

  -- `none` for RTP_ERRALLOC.
  unfoldable pub m4v_init_parser : Bool → List (List ℕ) → Option M4v
  unfolding m4v_state m4v_conf
  m4v_init_parser got attrs = if got then m4v_state (m4v_conf [] attrs) else none

  -- A parameter set put behind the configuration. For a text that is not base64 the size is -1, as an
  -- unsigned number.
  unfoldable pub add_set : Option (List ℕ) → List ℕ → (List ℕ → Conf) → Conf
  add_set none xs rest = if mem (2 ^ 32 - 1 + 4 + length xs) then overrun else no_memory
  add_set (some []) xs rest = rest xs
  add_set (some (y ∷ ys)) xs rest =
      if mem (length (y ∷ ys) + 4 + length xs)
      then rest (xs ++ (start_seq ++ y ∷ ys))
      else no_memory

  -- The loop over the value; each round takes a character at least.
  unfoldable pub sets_loop : ℕ → List ℕ → List ℕ → Conf
  unfolding add_set
  sets_loop zero xs v = conf xs
  sets_loop (suc fuel) xs [] = conf xs
  sets_loop (suc fuel) xs (c ∷ v) =
      let (packet, rest) = chunk 1023 (c ∷ v) in
      let go : List ℕ → Conf = λ ys. sets_loop fuel ys (skip_comma rest) in
      add_set (nms_base64_decode 1024 packet) xs go

  -- The loop over the attributes.
  unfoldable pub h264_attrs : List ℕ → List (List ℕ) → Inited
  unfolding h264_state is_unsupported sets_loop nms_get_attr_value
  h264_attrs xs [] = h264_state (conf xs)
  h264_attrs xs (attr ∷ attrs) =
      let rest : List ℕ → Inited = λ ys. h264_attrs ys attrs in
      let value = nms_get_attr_value attr sprop_parameter_sets 1024 in
      if is_unsupported (nms_get_attr_value attr packetization_mode 1024)
      then unsupported
      else if length value == 0
      then rest xs
      else elim (sets_loop (length value) [] value) [
        | conf ys ↦ rest ys
        | no_memory ↦ out_of_memory
        | overrun ↦ faulted
      ]

  unfoldable pub h264_init_parser : Bool → List (List ℕ) → Inited
  unfolding h264_attrs
  h264_init_parser got attrs = if got then h264_attrs [] attrs else out_of_memory
