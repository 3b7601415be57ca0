-- ===== src/Rtsp/Session/Media.antt =====
-- The media of a description, as sdp_session_setup of src/sdp returns it, and which of them the client
-- can play: the first loop of set_rtsp_media in src/rtsp/rtsp_internals.c, and rtp_parser_check of
-- src/parsers/rtpparsers.c.
use libnemesi.Common.{
  ℕ, Bool, true, false, ◌&&◌, ◌||◌, Option, none, some, List, [], ◌∷◌, if◌then◌else◌, ◌==◌,
}
use libnemesi.Rtsp.Text.{begins, tolower, skip_sep, skip_space, isdigit}

-- `sdp_attr`
pub record SdpAttr : Type 0 where
  pub name : List ℕ
  pub value : List ℕ

-- `sdp_medium_info`, its attributes, with what the functions called for it give: whether
-- rtsp_med_create and rtsp_sess_dup have memory, and whether its payload types can be set.
pub record SdpMedium : Type 0 where
  pub attr_list : List SdpAttr
  pub med : Bool
  pub dup : Bool
  pub announced : Bool

-- `sdp_session_info`
pub record SdpSession : Type 0 where
  pub attr_list : List SdpAttr
  pub media_info_queue : List SdpMedium

-- "control" and "rtpmap"
abbrev pub control : List ℕ
control = 99 ∷ 111 ∷ 110 ∷ 116 ∷ 114 ∷ 111 ∷ 108 ∷ []

abbrev pub rtpmap : List ℕ
rtpmap = 114 ∷ 116 ∷ 112 ∷ 109 ∷ 97 ∷ 112 ∷ []

-- Where strtoul stops.
unfoldable pub skip_digits : List ℕ → List ℕ
skip_digits [] = []
skip_digits (c ∷ s) = let rest = skip_digits s in if isdigit c then rest else c ∷ s

abbrev pub skip_sign : List ℕ → List ℕ
skip_sign [] = []
skip_sign (c ∷ s) = if (c == 45) || (c == 43) then s else c ∷ s

abbrev pub has_digit : List ℕ → Bool
has_digit [] = false
has_digit (c ∷ s) = isdigit c

unfoldable pub after_number : List ℕ → List ℕ
unfolding skip_digits
after_number s = let t = skip_sign (skip_space s) in if has_digit t then skip_digits t else s

abbrev pub skip_blank : List ℕ → List ℕ
skip_blank [] = []
skip_blank (c ∷ s) = let rest = skip_blank s in if c == 32 then rest else c ∷ s

-- The encoding's name, before the slash; `none` where there is no slash.
unfoldable pub up_to : ℕ → List ℕ → Option (List ℕ)
up_to d [] = none
up_to d (c ∷ s) =
    let rest : Option (List ℕ) = elim (up_to d s) [ none ↦ none | some t ↦ some (c ∷ t) ] in
    if c == d then some [] else rest

-- `strcasecmp(s, t) == 0`
unfoldable pub same_nocase : List ℕ → List ℕ → Bool
same_nocase [] [] = true
same_nocase [] (d ∷ t) = false
same_nocase (c ∷ s) [] = false
same_nocase (c ∷ s) (d ∷ t) = (tolower c == tolower d) && same_nocase s t

-- The types that one parser serves, and the table of all parsers; `true` for RTP_OK.
unfoldable pub served : List (List ℕ) → List ℕ → Bool
unfolding same_nocase
served [] mime = false
served (m ∷ ms) mime = same_nocase m mime || served ms mime

unfoldable pub rtp_parser_check : List (List (List ℕ)) → List ℕ → Bool
unfolding served
rtp_parser_check [] mime = false
rtp_parser_check (p ∷ ps) mime = served p mime || rtp_parser_check ps mime

-- The check of an rtpmap attribute. An attribute without a slash makes the code write through NULL.
unfoldable pub checked : List (List (List ℕ)) → List ℕ → Option Bool
unfolding up_to after_number rtp_parser_check
checked parsers value = elim (up_to 47 (skip_blank (after_number (skip_sep value)))) [
  | none ↦ none
  | some mime ↦ some (rtp_parser_check parsers mime)
]

-- Whether all rtpmap attributes of a medium pass.
unfoldable pub is_known : List (List (List ℕ)) → List SdpAttr → Option Bool
unfolding checked
is_known parsers [] = some true
is_known parsers (a ∷ attrs) =
    let rest = is_known parsers attrs in
    let both : Option Bool = elim (checked parsers a.value) [
      | none ↦ none
      | some ok ↦ elim rest [ none ↦ none | some others ↦ some (ok && others) ]
    ] in
    if begins a.name rtpmap then both else rest

-- "erasing unknown media"
unfoldable pub known_media : List (List (List ℕ)) → List SdpMedium → Option (List SdpMedium)
unfolding is_known
known_media parsers [] = some []
known_media parsers (m ∷ ms) = elim (is_known parsers m.attr_list) [
  | none ↦ none
  | some ok ↦ elim (known_media parsers ms) [
    | none ↦ none
    | some rest ↦ some (if ok then m ∷ rest else rest)
  ]
]

-- The value of the last control attribute, or what there was before.
unfoldable pub control_of : List SdpAttr → Option (List ℕ) → Option (List ℕ)
control_of [] old = old
control_of (a ∷ attrs) old =
    control_of attrs (if begins a.name control then some (skip_sep a.value) else old)
