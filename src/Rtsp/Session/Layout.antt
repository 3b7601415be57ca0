-- ===== src/Rtsp/Session/Layout.antt =====
-- The sessions that a description gives: set_rtsp_sessions of src/rtsp/rtsp_sessions.c and
-- set_rtsp_media of src/rtsp/rtsp_internals.c, from the description as sdp_session_setup returns it.
-- What they do to the payload types of the RTP sessions is left out; whether it succeeds is given.
pub mod Complete
pub mod Kept
mod Examples
use libnemesi.Common.{
  ℕ, zero, suc, ◌+◌, Bool, true, false, ◌&&◌, ◌||◌, not, Option, none, some, List, [], ◌∷◌, ◌++◌,
  if◌then◌else◌, ◌==◌,
}
use libnemesi.Rtsp.Text.{begins, skip_sep}
use libnemesi.Rtsp.Session.Media.{SdpAttr, SdpMedium, SdpSession, control, known_media, control_of}
use libnemesi.Rtsp.Session.{SockType, udp, RtspMedium, RtspSession, rtsp_sess_dup, rtsp_sess_create}

-- `enum types`
pub data Types : Type 0 where
  m_on_demand container : Types

unfoldable pub rtsp_med_create : SdpMedium → RtspMedium
unfolding control_of
rtsp_med_create info = record {
  filename = control_of info.attr_list none;
  type = udp;
  channels = (0, 0);
}

abbrev pub add_medium : RtspSession → RtspMedium → RtspSession
add_medium s m = record s { media_queue = s.media_queue ++ m ∷ [] }

-- Whether the function goes on to succeed, and the sessions from the current one on.
abbrev pub Sessions : Type 0
Sessions = Bool × List RtspSession

-- The media behind the first, all of the same session.
unfoldable pub same_session : RtspSession → List SdpMedium → Sessions
unfolding rtsp_med_create
same_session s [] = (true, s ∷ [])
same_session s (m ∷ ms) =
    let s' = add_medium s (rtsp_med_create m) in
    let rest = same_session s' ms in
    if not m.med then (false, s ∷ []) else if not m.announced then (false, s' ∷ []) else rest

-- "one medium for each session"
unfoldable pub own_sessions : RtspSession → List SdpMedium → Sessions
unfolding rtsp_med_create rtsp_sess_dup
own_sessions s [] = (true, s ∷ [])
own_sessions s (m ∷ ms) = elim (rtsp_sess_dup m.dup s) [
  | none ↦ (false, s ∷ [])
  | some d ↦
      let s' = record d { media_queue = rtsp_med_create m ∷ [] } in
      let (ok, rest) = own_sessions s' ms in
      if not m.med
      then (false, s ∷ record d { media_queue = [] } ∷ [])
      else if not m.announced
      then (false, s ∷ s' ∷ [])
      else (ok, s ∷ rest)
]

unfoldable pub other_media : Types → RtspSession → List SdpMedium → Sessions
unfolding same_session own_sessions
other_media container s ms = same_session s ms
other_media m_on_demand s ms = own_sessions s ms

-- From the first medium on.
unfoldable pub lay_out : Types → RtspSession → List SdpMedium → Sessions
unfolding rtsp_med_create other_media
lay_out types s [] = (false, s ∷ [])
lay_out types s (m ∷ ms) =
    let s' = record s { media_queue = rtsp_med_create m ∷ [] } in
    if not m.med
    then (false, s ∷ [])
    else if not m.announced
    then (false, s' ∷ [])
    else other_media types s' ms

-- `none` where an rtpmap attribute makes the code write through NULL.
unfoldable pub set_rtsp_media :
    List (List (List ℕ)) → Types → RtspSession → List SdpMedium → Option Sessions
unfolding known_media lay_out
set_rtsp_media parsers types s media = elim (known_media parsers media) [
  | none ↦ none
  | some ms ↦ some (lay_out types s ms)
]

-- The attributes of the session: its path, and the kind of the stream.
unfoldable pub session_path : List SdpAttr → Types × List ℕ → Types × List ℕ
session_path [] old = old
session_path (a ∷ attrs) old =
    session_path attrs (if begins a.name control then (container, skip_sep a.value) else old)

-- A description in the format that the client knows. `mem_sess` and `mem_body` tell whether there is
-- memory, `info` is what sdp_session_setup gives.
unfoldable pub set_sdp_sessions :
    List (List (List ℕ))
    → List ℕ
    → Option (List ℕ)
    → Bool
    → Option SdpSession
    → Option RtspSession
    → Option Sessions
unfolding set_rtsp_media session_path
set_sdp_sessions parsers urlname content_base mem_body info none = some (false, [])
set_sdp_sessions parsers urlname content_base false info (some s) = some (false, s ∷ [])
set_sdp_sessions parsers urlname content_base true none (some s) = some (false, s ∷ [])
set_sdp_sessions parsers urlname content_base true (some i) (some s) =
    let (types, path) = session_path i.attr_list (m_on_demand, s.pathname) in
    set_rtsp_media parsers types (record s { pathname = path }) i.media_info_queue

-- What the description gives: its format, which is known or not, and what the calls for it return.
pub record Description : Type 0 where
  pub is_sdp : Bool
  pub content_base : Option (List ℕ)
  pub mem_sess : Bool
  pub mem_body : Bool
  pub info : Option SdpSession

unfoldable pub set_rtsp_sessions :
    List (List (List ℕ)) → List ℕ → Description → List RtspSession → Option Sessions
unfolding set_sdp_sessions rtsp_sess_create
set_rtsp_sessions parsers urlname d old =
    if not d.is_sdp
    then some (false, old)
    else set_sdp_sessions parsers urlname d.content_base d.mem_body d.info
        (rtsp_sess_create d.mem_sess urlname d.content_base)
