-- ===== src/Rtsp/Send.antt =====
-- The requests, src/rtsp/rtsp_send.c. A request is what its text says; the buffer that the text is
-- written to is taken to be large enough for it.
use libnemesi.Common.{
  ℕ, ◌+◌, Bool, true, false, ◌||◌, not, Option, none, some, List, [], ◌∷◌, ◌++◌, ◌==◌,
  if◌then◌else◌, set,
}
use libnemesi.Common.Int.{ℤ}
use libnemesi.Rtsp.Text.{begins}
use libnemesi.Rtsp.Session.Media.{SdpSession}
use libnemesi.Rtsp.Session.{RtspMedium, RtspSession, session_at, medium_of}
use libnemesi.Rtsp.Thread.{RtspThread, get_response, play_response, pause_response, close_response}

pub data Method : Type 0 where
  describe setup play pause teardown : Method

-- A request: where it goes, its number, and the session that it names. A request of `setup` has the
-- medium that it is about, and the channels or streams that it asks for.
pub record Request : Type 0 where
  pub method : Method
  pub uri : Option (List ℕ)
  pub cseq : ℕ
  pub session : List ℕ
  pub range : List ℕ
  pub medium : Option (ℕ × ℕ)

-- What a function leaves: whether it returns 0, the thread, and the requests that were sent; or it
-- reads through NULL.
pub data Ran : Type 0 where
  ret : Bool → RtspThread → List Request → Ran
  crashed : Ran

-- What the system gives while one event is handled: whether there is memory for the rest of the
-- buffer, for a URL and for the text of a request, the server can be reached, nmst_write takes the
-- request, the medium's transport can be set up, the licences are accepted, the threads of the media
-- start, and messages are printed. `beyond` is what lies behind the memory that
-- remove_pkt gets, up to a 0, `junk` the value of a variable that was not set, `parsers` the table of
-- the parsers, and the last three are what the calls for a description give.
pub record Given : Type 0 where
  pub mem_rest : Bool
  pub beyond : List ℕ
  pub mem_url : Bool
  pub mem_buf : Bool
  pub connects : Bool
  pub written : Bool
  pub transport : Bool
  pub accepted : List RtspMedium → Bool
  pub rtp_thread : Bool
  pub rtcp_thread : Bool
  pub prints : Bool
  pub junk : ℤ
  pub parsers : List (List (List ℕ))
  pub mem_sess : Bool
  pub mem_body : Bool
  pub info : Option SdpSession

abbrev pub has_scheme : List ℕ → Bool
has_scheme [] = false
has_scheme (c ∷ s) = begins (c ∷ s) (58 ∷ 47 ∷ 47 ∷ []) || has_scheme s

abbrev pub nonempty : List ℕ → Bool
nonempty [] = false
nonempty (c ∷ s) = true

abbrev pub stars : Option (List ℕ) → Bool
stars none = true
stars (some []) = true
stars (some (c ∷ s)) = c == 42

abbrev pub is_base : Option (List ℕ) → Bool
is_base none = false
is_base (some s) = nonempty s

abbrev pub joined : Option (List ℕ) → Option (List ℕ) → Option (List ℕ)
joined none path = path
joined base none = base
joined (some base) (some path) = some (base ++ 47 ∷ path)

abbrev pub text_has_scheme : Option (List ℕ) → Bool
text_has_scheme none = false
text_has_scheme (some s) = has_scheme s

-- `none` where the format of snprintf is NULL.
unfoldable pub snprintf_uri : Option (List ℕ) → Option (List ℕ) → Option (List ℕ)
snprintf_uri content_base pathname =
    if stars pathname
    then content_base
    else if not (is_base content_base) || text_has_scheme pathname
    then pathname
    else joined content_base pathname

abbrev pub put_session : RtspThread → ℕ → RtspSession → RtspThread
put_session t i s = record t { rtsp_queue = set t.rtsp_queue i s }

-- `nmst_write`: where it fails, no answer is waited for.
unfoldable pub write : Given → Request → RtspThread → Ran
write g r t =
    if g.written
    then ret true t (r ∷ [])
    else ret false (record t { wait_for = record (t.wait_for) { res = 0 } }) []

unfoldable pub send_get_request : Given → RtspThread → Ran
unfolding write
send_get_request g t = elim t.urlname [
  | none ↦ crashed
  | some url ↦
      if not g.mem_buf
      then ret false t []
      else write g
          (record {
            method = describe;
            uri = some url;
            cseq = 1;
            session = [];
            range = [];
            medium = none;
          })
          (record t { wait_for = record (t.wait_for) { res = get_response } })
]

-- "time=0-"
abbrev pub from_start : List ℕ
from_start = 116 ∷ 105 ∷ 109 ∷ 101 ∷ 61 ∷ 48 ∷ 45 ∷ []

-- A request about the session `i` as a whole: its number, the answer that is waited for, and its text.
unfoldable pub send_for_session : Given → Method → ℕ → List ℕ → ℕ → RtspThread → Ran
unfolding write snprintf_uri
send_for_session g method res range i t =
    let s = session_at t.rtsp_queue i in
    let s' = record s { cseq = s.cseq + 1 } in
    write g
      (record {
        method = method;
        uri = snprintf_uri s.content_base (some s.pathname);
        cseq = s'.cseq;
        session = s.session_id;
        range = if nonempty range then range else from_start;
        medium = none;
      })
      (record (put_session t i s') {
        wait_for = record { res = res; cseq = s'.cseq; session_id = some i };
      })

-- `strlen(rtsp_th->urlname)`, for the size of the buffer.
abbrev pub reads_url : RtspThread → Ran → Ran
reads_url t r = elim t.urlname [ none ↦ crashed | some url ↦ r ]

-- The session is read without a test.
unfoldable pub send_pause_request : Given → RtspThread → List ℕ → Ran
unfolding send_for_session
send_pause_request g t range = elim t.cursor.static_sess [
  | none ↦ crashed
  | some i ↦
      reads_url t (
        if not g.mem_buf then ret false t [] else send_for_session g pause pause_response range i t)
]

unfoldable pub send_play_request : Given → RtspThread → List ℕ → Ran
unfolding send_for_session
send_play_request g t range = elim t.cursor.static_sess [
  | none ↦ ret false t []
  | some i ↦ reads_url t (
      if not g.mem_buf
      then ret false t []
      else if not (g.accepted (session_at t.rtsp_queue i).media_queue)
      then ret false t []
      else send_for_session g play play_response range i t)
]

-- The teardown request, about the first session only: its address is the session's, or that of the
-- medium.
unfoldable pub send_teardown_request : Given → RtspThread → Ran
unfolding write
send_teardown_request g t = elim t.cursor.static_sess [
  | none ↦ ret false t []
  | some i ↦ elim t.cursor.static_med [
    | none ↦ ret false t []
    | some m ↦ reads_url t (
        if not g.mem_buf
        then ret false t []
        else let s = session_at t.rtsp_queue i in
          let s' = record s { cseq = s.cseq + 1 } in
          write g
            (record {
              method = teardown;
              uri = elim s.content_base [
                | some base ↦ some base
                | none ↦ (medium_of t.rtsp_queue m).filename
              ];
              cseq = s'.cseq;
              session = s.session_id;
              range = [];
              medium = some m;
            })
            (record (put_session t i s') {
              wait_for = record { res = close_response; cseq = s'.cseq; session_id = some i };
            }))
  ]
]
