-- ===== src/Rtsp/Session/Layout/Complete.antt =====
-- The sessions that a description gives have all its media that the client can play.
use libnemesi.Common.{
  ℕ, ◌<◌, ◌≡◌, refl, sym, ap, ◌∙◌, subst, Bool, true, false, Option, none, some, List, [], ◌∷◌,
  ◌++◌, map, length, arith, All, Option-cases, Bool-cases, inl, inr, length-append,
}
use mathlib.Core.List.{append_assoc}
use libnemesi.Rtsp.Session.{RtspMedium, RtspSession, rtsp_sess_dup, rtsp_sess_create}
use libnemesi.Rtsp.Session.Media.{SdpMedium, SdpSession, known_media}
use libnemesi.Rtsp.Session.Layout.Kept.{Kept, known_media-Kept}
use libnemesi.Rtsp.Session.Walk.{HasMedia}
use libnemesi.Rtsp.Session.Layout.{
  Types, m_on_demand, container, rtsp_med_create, same_session, own_sessions, other_media, lay_out,
  set_rtsp_media, session_path, set_sdp_sessions, Description, set_rtsp_sessions,
}

-- The media of the sessions, one session after the other.
abbrev pub all_media : List RtspSession → List RtspMedium
all_media [] = []
all_media (s ∷ q) = s.media_queue ++ all_media q

-- A session that has not been set up: it has no name yet, and its last sequence number is that of
-- the DESCRIBE request.
abbrev pub Unnamed : RtspSession → Type 0
Unnamed s = (s.session_id ≡ []) × (s.cseq ≡ 1)

-- The sessions from the current one on, for the media `ms` behind those of the current one.
pub record Laid (s : RtspSession) (ms : List SdpMedium) (q : List RtspSession) : Type 0 where
  pub media : all_media q ≡ s.media_queue ++ map rtsp_med_create ms
  pub has_media : All HasMedia q
  pub unnamed : All Unnamed q
  pub some_session : 0 < length q

alone : (s : RtspSession) → HasMedia s → Unnamed s → Laid s [] (s ∷ [])
alone s h u = record {
  media = refl;
  has_media = (h, tt);
  unnamed = (u, tt);
  some_session = omega arith;
}

same_session-Laid :
    (s : RtspSession) (ms : List SdpMedium) (q : List RtspSession)
    → HasMedia s
    → Unnamed s
    → same_session s ms ≡ (true, q)
    → Laid s ms q
unfolding same_session
same_session-Laid s [] q h u e = subst (λ q. Laid s [] q) (ap (λ r. r.1) e) (alone s h u)
same_session-Laid s (m ∷ ms) q h u e =
    let s' = record s { media_queue = s.media_queue ++ rtsp_med_create m ∷ [] } in
    let r : same_session s' ms ≡ (true, q) = ground arith in
    let l =
      same_session-Laid s' ms q
        (omega (arith, h, length-append s.media_queue (rtsp_med_create m ∷ []))) u r in
    record {
      media =
          l.media ∙ append_assoc s.media_queue (rtsp_med_create m ∷ []) (map rtsp_med_create ms);
      has_media = l.has_media;
      unnamed = l.unnamed;
      some_session = l.some_session;
    }

-- What a successful step of own_sessions comes to.
own_sessions-step :
    (s : RtspSession) (m : SdpMedium) (ms : List SdpMedium) (q : List RtspSession)
    → own_sessions s (m ∷ ms) ≡ (true, q)
    → let s' = record s { session_id = []; media_queue = rtsp_med_create m ∷ [] } in
      (r : List RtspSession) × (own_sessions s' ms ≡ (true, r)) × (q ≡ s ∷ r)
unfolding own_sessions rtsp_sess_dup
own_sessions-step s m ms q e =
    let s' = record s { session_id = []; media_queue = rtsp_med_create m ∷ [] } in
    ((own_sessions s' ms).1, ground arith, ground arith)

own_sessions-Laid :
    (s : RtspSession) (ms : List SdpMedium) (q : List RtspSession)
    → HasMedia s
    → Unnamed s
    → own_sessions s ms ≡ (true, q)
    → Laid s ms q
unfolding own_sessions
own_sessions-Laid s [] q h u e = subst (λ q. Laid s [] q) (ap (λ r. r.1) e) (alone s h u)
own_sessions-Laid s (m ∷ ms) q h u e =
    let s' = record s { session_id = []; media_queue = rtsp_med_create m ∷ [] } in
    let (r, e', w) = own_sessions-step s m ms q e in
    let l = own_sessions-Laid s' ms r (omega arith) (refl, u.1) e' in
    subst (λ q. Laid s (m ∷ ms) q) (sym w)
      (record {
        media = ap (λ ms. s.media_queue ++ ms) l.media;
        has_media = (h, l.has_media);
        unnamed = (u, l.unnamed);
        some_session = omega arith;
      })

other_media-Laid :
    (types : Types) (s : RtspSession) (ms : List SdpMedium) (q : List RtspSession)
    → HasMedia s
    → Unnamed s
    → other_media types s ms ≡ (true, q)
    → Laid s ms q
unfolding other_media
other_media-Laid container s ms q h u e = same_session-Laid s ms q h u e
other_media-Laid m_on_demand s ms q h u e = own_sessions-Laid s ms q h u e

lay_out-Laid :
    (types : Types) (s : RtspSession) (ms : List SdpMedium) (q : List RtspSession)
    → Unnamed s
    → lay_out types s ms ≡ (true, q)
    → Laid (record s { media_queue = [] }) ms q
unfolding lay_out
lay_out-Laid types s [] q u e = cc
lay_out-Laid types s (m ∷ ms) q u e =
    let s' = record s { media_queue = rtsp_med_create m ∷ [] } in
    let r : other_media types s' ms ≡ (true, q) = ground arith in
    let l = other_media-Laid types s' ms q (omega arith) u r in
    record {
      media = l.media;
      has_media = l.has_media;
      unnamed = l.unnamed;
      some_session = l.some_session;
    }

-- The sessions made from a description.
pub record Described (parsers : List (List (List ℕ))) (d : Description) (q : List RtspSession)
    : Type 0 where
  pub info : SdpSession
  pub given : d.info ≡ some info
  pub known : List SdpMedium
  pub kept : Kept parsers info.media_info_queue known
  pub media : all_media q ≡ map rtsp_med_create known
  pub has_media : All HasMedia q
  pub unnamed : All Unnamed q
  pub some_session : 0 < length q

laid_media :
    (parsers : List (List (List ℕ))) (d : Description) (q : List RtspSession) (i : SdpSession)
    (types : Types) (s : RtspSession)
    → d.info ≡ some i
    → Unnamed s
    → set_rtsp_media parsers types s i.media_info_queue ≡ some (true, q)
    → Described parsers d q
unfolding set_rtsp_media
laid_media parsers d q i types s g u e =
    elim (Option-cases (known_media parsers i.media_info_queue)) [
      | inl w ↦ ground arith
      | inr (ms, w) ↦
          let r : lay_out types s ms ≡ (true, q) = ground arith in
          let l = lay_out-Laid types s ms q u r in
          record {
            info = i;
            given = g;
            known = ms;
            kept = known_media-Kept parsers i.media_info_queue ms w;
            media = l.media;
            has_media = l.has_media;
            unnamed = l.unnamed;
            some_session = l.some_session;
          }
    ]

sdp-Described :
    (parsers : List (List (List ℕ))) (urlname : List ℕ) (d : Description) (q : List RtspSession)
    (mem_body : Bool) (info : Option SdpSession) (o : Option RtspSession)
    → d.info ≡ info
    → ((s : RtspSession) → o ≡ some s → Unnamed s)
    → set_sdp_sessions parsers urlname d.content_base mem_body info o ≡ some (true, q)
    → Described parsers d q
unfolding set_sdp_sessions
sdp-Described parsers urlname d q mem_body info none g u e = ground arith
sdp-Described parsers urlname d q false info (some s) g u e = ground arith
sdp-Described parsers urlname d q true none (some s) g u e = ground arith
sdp-Described parsers urlname d q true (some i) (some s) g u e =
    let (types, path) = session_path i.attr_list (m_on_demand, s.pathname) in
    laid_media parsers d q i types (record s { pathname = path }) g (u s refl) e

created-Unnamed :
    (mem : Bool) (urlname : List ℕ) (base : Option (List ℕ)) (s : RtspSession)
    → rtsp_sess_create mem urlname base ≡ some s
    → Unnamed s
unfolding rtsp_sess_create
created-Unnamed false urlname base s e = cc
created-Unnamed true urlname none s e = (ground arith, ground arith)
created-Unnamed true urlname (some b) s e = (ground arith, ground arith)

-- Where set_rtsp_sessions succeeds, there was a description, and the media of the new sessions, one
-- session after the other, are the media of the description that the client can play, in their
-- order: each rtpmap attribute of such a medium names an encoding that some parser serves, and each
-- other medium has one that names an encoding which no parser serves. There is a session, each has a medium at least, and each is without a name and at sequence number
-- one.
pub set_rtsp_sessions-Described :
    (parsers : List (List (List ℕ))) (urlname : List ℕ) (d : Description) (old q : List RtspSession)
    → set_rtsp_sessions parsers urlname d old ≡ some (true, q)
    → Described parsers d q
unfolding set_rtsp_sessions
set_rtsp_sessions-Described parsers urlname d old q e = elim (Bool-cases d.is_sdp) [
  | inl w ↦
      sdp-Described parsers urlname d q d.mem_body d.info
        (rtsp_sess_create d.mem_sess urlname d.content_base) refl
        (λ s h. created-Unnamed d.mem_sess urlname d.content_base s h) (rw w at e)
  | inr w ↦ ground arith
]
