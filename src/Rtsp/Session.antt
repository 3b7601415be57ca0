-- ===== src/Rtsp/Session.antt =====
-- The RTSP sessions of src/nemesi/rtsp.h and src/rtsp/rtsp_sessions.c, with the cursor that
-- get_curr_sess keeps. A pointer to a session is its place in the queue, and a pointer to a medium
-- is that of its session with its place there.
pub mod Walk
pub mod Media
pub mod Layout
mod Examples
use libnemesi.Common.{
  ℕ, zero, suc, ◌+◌, Bool, true, false, ◌&&◌, ◌||◌, not, Option, none, some, List, [], ◌∷◌, ◌++◌,
  ltb, leb, ◌==◌, if◌then◌else◌, length, get_or, take,
}
use libnemesi.Rtsp.Text.{skip_sep, strcspn}

-- `sock_type`, as the type of a medium's transport
pub data SockType : Type 0 where
  sock_none tcp udp sctp : SockType

-- `rtsp_medium`, with the part of its RTP session that the requests set: the type of the transport,
-- and the interleaved channels or streams of RTP and RTCP.
pub record RtspMedium : Type 0 where
  pub filename : Option (List ℕ)
  pub type : SockType
  pub channels : ℕ × ℕ

-- `rtsp_session`, less the description and the raw body
pub record RtspSession : Type 0 where
  pub session_id : List ℕ
  pub cseq : ℕ
  pub pathname : List ℕ
  pub content_base : Option (List ℕ)
  pub media_queue : List RtspMedium

abbrev pub session_id_len : ℕ
session_id_len = 256

-- `static_sess` and `static_med`
pub record Cursor : Type 0 where
  pub static_sess : Option ℕ
  pub static_med : Option (ℕ × ℕ)

abbrev pub nowhere : Cursor
nowhere = record { static_sess = none; static_med = none }

abbrev pub no_session : RtspSession
no_session = record {
  session_id = [];
  cseq = 0;
  pathname = [];
  content_base = none;
  media_queue = [];
}

abbrev pub session_at : List RtspSession → ℕ → RtspSession
session_at q i = get_or q i no_session

abbrev pub no_medium : RtspMedium
no_medium = record { filename = none; type = sock_none; channels = (0, 0) }

abbrev pub medium_of : List RtspSession → ℕ × ℕ → RtspMedium
medium_of q (i, j) = get_or (session_at q i).media_queue j no_medium

-- `media_queue` of the session at `i`, as a pointer
unfoldable pub media_head : List RtspSession → ℕ → Option (ℕ × ℕ)
media_head q i = elim (session_at q i).media_queue [ [] ↦ none | m ∷ ms ↦ some (i, 0) ]

-- `next` of a session and of a medium
unfoldable pub next_sess : List RtspSession → ℕ → Option ℕ
next_sess q i = if ltb (i + 1) (length q) then some (i + 1) else none

unfoldable pub next_med : List RtspSession → ℕ × ℕ → Option (ℕ × ℕ)
next_med q (i, j) =
    if ltb (j + 1) (length (session_at q i).media_queue) then some (i, j + 1) else none

-- GCS_INIT. Without a session it reads through NULL.
unfoldable pub gcs_init : List RtspSession → Option Cursor
unfolding media_head
gcs_init [] = none
gcs_init (s ∷ q) = some (record { static_sess = some 0; static_med = media_head (s ∷ q) 0 })

-- `static_med = static_sess->media_queue`, or NULL without a session
unfoldable pub med_of : List RtspSession → Option ℕ → Option (ℕ × ℕ)
unfolding media_head
med_of q none = none
med_of q (some i) = media_head q i

unfoldable pub follow_sess : List RtspSession → Option ℕ → Option ℕ
unfolding next_sess
follow_sess q none = none
follow_sess q (some i) = next_sess q i

unfoldable pub follow_med : List RtspSession → Option (ℕ × ℕ) → Option (ℕ × ℕ)
unfolding next_med
follow_med q none = none
follow_med q (some m) = next_med q m

-- GCS_NXT_SESS, whose result is the new `static_sess`
unfoldable pub gcs_nxt_sess : List RtspSession → Cursor → Cursor
unfolding follow_sess med_of
gcs_nxt_sess q c =
    let next = follow_sess q c.static_sess in
    record { static_sess = next; static_med = med_of q next }

-- The session behind the one with the last medium. Where there is none the cursor's medium stays NULL.
unfoldable pub leave_sess : List RtspSession → Option ℕ → Cursor
unfolding follow_sess med_of
leave_sess q i =
    let next = follow_sess q i in record { static_sess = next; static_med = med_of q next }

-- GCS_NXT_MED, whose result is the new `static_med`
unfoldable pub gcs_nxt_med : List RtspSession → Cursor → Cursor
unfolding follow_med leave_sess
gcs_nxt_med q c = elim (follow_med q c.static_med) [
  | some m ↦ record c { static_med = some m }
  | none ↦ leave_sess q c.static_sess
]

-- The new session is put behind the queue by the caller.
unfoldable pub rtsp_sess_dup : Bool → RtspSession → Option RtspSession
rtsp_sess_dup mem s = if mem then some (record s { session_id = [] }) else none

-- `pathname` points behind a content base, at its end.
unfoldable pub rtsp_sess_create : Bool → List ℕ → Option (List ℕ) → Option RtspSession
rtsp_sess_create false urlname content_base = none
rtsp_sess_create true urlname none = some (record {
  session_id = [];
  cseq = 1;
  pathname = urlname;
  content_base = none;
  media_queue = [];
})
rtsp_sess_create true urlname (some base) = some (record {
  session_id = [];
  cseq = 1;
  pathname = [];
  content_base = some base;
  media_queue = [];
})

-- " \t\r\n;"
abbrev pub session_end : List ℕ
session_end = 32 ∷ 9 ∷ 13 ∷ 10 ∷ 59 ∷ []

-- The session's name in a string, and `none` where the function returns -1.
unfoldable pub get_session_str : List ℕ → Option (List ℕ)
get_session_str source_pos =
    let s = skip_sep source_pos in
    let session_id_length = strcspn s session_end in
    if (session_id_length == 0) || leb session_id_len session_id_length
    then none
    else some (take session_id_length s)
