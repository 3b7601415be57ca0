-- ===== src/Rtsp/Session/Layout/Kept.antt =====
-- Which media of a description the client can play, read off the attributes themselves: what the first
-- loop of set_rtsp_media in src/rtsp/rtsp_internals.c keeps.
use libnemesi.Common.{
  ℕ, ◌≡◌, ◌≢◌, ◌⊎◌, ◌↔◌, refl, ap, Bool, true, false, some, List, [], ◌∷◌, ◌++◌, map, arith, All,
  Option-cases, Bool-cases, inl, inr, ◌==◌,
}
use libnemesi.Rtsp.Text.{begins, tolower, skip_sep}
use libnemesi.Rtsp.Session.Media.{
  SdpAttr, SdpMedium, rtpmap, after_number, skip_blank, up_to, same_nocase, served,
  rtp_parser_check, checked, is_known, known_media,
}

-- The value of an rtpmap attribute names the encoding `mime`: behind the payload type, up to the first
-- slash.
abbrev pub Names : List ℕ → List ℕ → Type 0
Names value mime =
    (rest : List ℕ) × (skip_blank (after_number (skip_sep value)) ≡ mime ++ 47 ∷ rest)
    × All (λ c. c ≢ 47) mime

-- One of the types is the encoding, up to the case of the letters.
abbrev pub Serves : List (List ℕ) → List ℕ → Type 0
Serves [] mime = ⊥
Serves (t ∷ ts) mime = (map tolower t ≡ map tolower mime) ⊎ Serves ts mime

-- One of the parsers serves the encoding.
abbrev pub HasParser : List (List (List ℕ)) → List ℕ → Type 0
HasParser [] mime = ⊥
HasParser (p ∷ ps) mime = Serves p mime ⊎ HasParser ps mime

-- Each rtpmap attribute names an encoding that some parser serves.
abbrev pub Playable : List (List (List ℕ)) → List SdpAttr → Type 0
Playable ps [] = Unit
Playable ps (a ∷ attrs) =
    ((begins a.name rtpmap ≡ false) ⊎ ((mime : List ℕ) × Names a.value mime × HasParser ps mime))
    × Playable ps attrs

-- Some rtpmap attribute names an encoding that no parser serves.
abbrev pub Unplayable : List (List (List ℕ)) → List SdpAttr → Type 0
Unplayable ps [] = ⊥
Unplayable ps (a ∷ attrs) =
    ((begins a.name rtpmap ≡ true) × (mime : List ℕ) × Names a.value mime × ¬ (HasParser ps mime))
    ⊎ Unplayable ps attrs

-- The playable media of a list, in their order.
pub data Kept (ps : List (List (List ℕ))) : List SdpMedium → List SdpMedium → Type 0 where
  ends : Kept ps [] []
  keeps :
      {m : SdpMedium} {ms ks : List SdpMedium}
      → Playable ps m.attr_list
      → Kept ps ms ks
      → Kept ps (m ∷ ms) (m ∷ ks)
  drops :
      {m : SdpMedium} {ms ks : List SdpMedium}
      → Unplayable ps m.attr_list
      → Kept ps ms ks
      → Kept ps (m ∷ ms) ks

up_to-splits :
    (s t : List ℕ)
    → up_to 47 s ≡ some t
    → (rest : List ℕ) × (s ≡ t ++ 47 ∷ rest) × All (λ c. c ≢ 47) t
unfolding up_to
up_to-splits [] t h = cc
up_to-splits (c ∷ s) t h = elim (Bool-cases (c == 47)) [
  | inl e ↦
      let w : [] ≡ t = ground arith in let z : c ≡ 47 = ground arith in rw (← w, z) (s, refl, tt)
  | inr e ↦ elim (Option-cases (up_to 47 s)) [
    | inl o ↦ ground arith
    | inr (u, o) ↦
        let w : c ∷ u ≡ t = ground arith in
        let (rest, q, a) = up_to-splits s u o in
        rw (← w) (rest, ap (λ s. c ∷ s) q, (λ z. ground arith, a))
  ]
]

same_nocase_iff : (s t : List ℕ) → (same_nocase s t ≡ true) ↔ (map tolower s ≡ map tolower t)
unfolding same_nocase
same_nocase_iff [] [] = (λ h. refl, λ h. refl)
same_nocase_iff [] (d ∷ t) = (λ h. cc, λ h. cc)
same_nocase_iff (c ∷ s) [] = (λ h. cc, λ h. cc)
same_nocase_iff (c ∷ s) (d ∷ t) =
    let r = same_nocase_iff s t in
    (
      λ h.
          let e : tolower c ≡ tolower d = ground arith in
          let k : same_nocase s t ≡ true = ground arith in let q = r.0 k in rw (e, q) refl,
      λ h.
          let e : tolower c ≡ tolower d = cc in
          let k : map tolower s ≡ map tolower t = cc in let q = r.1 k in ground (arith, q, e),
    )

served_iff : (ts : List (List ℕ)) (mime : List ℕ) → (served ts mime ≡ true) ↔ Serves ts mime
unfolding served
served_iff [] mime = (λ h. cc, λ h. absurd h)
served_iff (t ∷ ts) mime = let r = served_iff ts mime in (to r, from r)
  where
    Others : Type 0
    Others = (served ts mime ≡ true) ↔ Serves ts mime

    to : Others → served (t ∷ ts) mime ≡ true → Serves (t ∷ ts) mime
    to r h = elim (Bool-cases (same_nocase t mime)) [
      | inl e ↦ inl ((same_nocase_iff t mime).0 e)
      | inr e ↦ inr (r.0 (ground arith))
    ]

    from : Others → Serves (t ∷ ts) mime → served (t ∷ ts) mime ≡ true
    from r (inl e) = rw ((same_nocase_iff t mime).1 e) refl
    from r (inr e) = let k = r.1 e in ground arith

parser_iff :
    (ps : List (List (List ℕ))) (mime : List ℕ)
    → (rtp_parser_check ps mime ≡ true) ↔ HasParser ps mime
unfolding rtp_parser_check
parser_iff [] mime = (λ h. cc, λ h. absurd h)
parser_iff (p ∷ ps) mime = let r = parser_iff ps mime in (to r, from r)
  where
    Others : Type 0
    Others = (rtp_parser_check ps mime ≡ true) ↔ HasParser ps mime

    to : Others → rtp_parser_check (p ∷ ps) mime ≡ true → HasParser (p ∷ ps) mime
    to r h = elim (Bool-cases (served p mime)) [
      | inl e ↦ inl ((served_iff p mime).0 e)
      | inr e ↦ inr (r.0 (ground arith))
    ]

    from : Others → HasParser (p ∷ ps) mime → rtp_parser_check (p ∷ ps) mime ≡ true
    from r (inl e) = rw ((served_iff p mime).1 e) refl
    from r (inr e) = let k = r.1 e in ground arith

-- What the check of an attribute says.
checked-says :
    (ps : List (List (List ℕ))) (value : List ℕ) (ok : Bool)
    → checked ps value ≡ some ok
    → (mime : List ℕ) × Names value mime × (rtp_parser_check ps mime ≡ ok)
unfolding checked
checked-says ps value ok h =
    elim (Option-cases (up_to 47 (skip_blank (after_number (skip_sep value))))) [
      | inl e ↦ ground arith
      | inr (mime, e) ↦ (mime, up_to-splits _ mime e, ground arith)
    ]

-- A medium that is_known passes is playable, one that it refuses is not.
is_known-says :
    (ps : List (List (List ℕ))) (attrs : List SdpAttr)
    → ((is_known ps attrs ≡ some true) → Playable ps attrs)
      × ((is_known ps attrs ≡ some false) → Unplayable ps attrs)
unfolding is_known
is_known-says ps [] = (λ h. tt, λ h. cc)
is_known-says ps (a ∷ attrs) =
    let (yes_rest, no_rest) = is_known-says ps attrs in
    elim (Bool-cases (begins a.name rtpmap)) [
      | inr b ↦ (
        λ h. (inl b, yes_rest (rw (is_known, b) at h)),
        λ h. inr (no_rest (rw (is_known, b) at h)),
      )
      | inl b ↦ elim (Option-cases (checked ps a.value)) [
        | inl c ↦ (λ h. ground arith, λ h. ground arith)
        | inr (true, c) ↦
            let (mime, n, p) = checked-says ps a.value true c in
            (
              λ h. (inr (mime, n, (parser_iff ps mime).0 p), yes_rest (ground arith)),
              λ h. inr (no_rest (ground arith)),
            )
        | inr (false, c) ↦
            let (mime, n, p) = checked-says ps a.value false c in
            (λ h. ground arith, λ h. inl (b, mime, n, λ k. let q = (parser_iff ps mime).1 k in cc))
      ]
    ]

pub known_media-Kept :
    (ps : List (List (List ℕ))) (ms ks : List SdpMedium)
    → known_media ps ms ≡ some ks
    → Kept ps ms ks
unfolding known_media
known_media-Kept ps [] ks h = let w : [] ≡ ks = ground arith in rw (← w) ends
known_media-Kept ps (m ∷ ms) ks h = elim (Option-cases (is_known ps m.attr_list)) [
  | inl e ↦ ground arith
  | inr (ok, e) ↦ elim (Option-cases (known_media ps ms)) [
    | inl k ↦ ground arith
    | inr (rest, k) ↦ let r = known_media-Kept ps ms rest k in by_check ok rest e k r
  ]
]
  where
    by_check :
        (ok : Bool) (rest : List SdpMedium)
        → is_known ps m.attr_list ≡ some ok
        → known_media ps ms ≡ some rest
        → Kept ps ms rest
        → Kept ps (m ∷ ms) ks
    by_check true rest e k r =
        let w : m ∷ rest ≡ ks = ground arith in
        rw (← w) (keeps ((is_known-says ps m.attr_list).0 e) r)
    by_check false rest e k r =
        let w : rest ≡ ks = ground arith in rw (← w) (drops ((is_known-says ps m.attr_list).1 e) r)
