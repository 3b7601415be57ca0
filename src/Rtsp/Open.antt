-- ===== src/Rtsp/Open.antt =====
-- Opening a URL: seturlname and rtsp_open of src/rtsp/rtsp.c. The mutex of the thread is left out.
use libnemesi.Common.{
  ℕ, Bool, true, false, not, Option, none, some, List, [], ◌∷◌, ◌++◌, if◌then◌else◌,
}
use libnemesi.Utils.Url.{urltokenize}
use libnemesi.Rtsp.Thread.{RtspThread, States, init}
use libnemesi.Rtsp.Send.{Ran, ret, crashed, Given, nonempty, send_get_request}

-- "rtsp://" and the default port
abbrev pub scheme : List ℕ
scheme = 114 ∷ 116 ∷ 115 ∷ 112 ∷ 58 ∷ 47 ∷ 47 ∷ []

abbrev pub default_port : List ℕ
default_port = 53 ∷ 53 ∷ 52 ∷ []

abbrev pub or_else : Option (List ℕ) → List ℕ → List ℕ
or_else none d = d
or_else (some s) d = s

-- Whether it returns 0, and the thread.
unfoldable pub seturlname : Given → RtspThread → List ℕ → Bool × RtspThread
unfolding urltokenize
seturlname g t urlname =
    let (server, port, path) = urltokenize urlname in
    if not g.mem_url then (false, record t { urlname = none }) else (
      true,
      record t {
        urlname = some (scheme ++ server ++ or_else path []);
        server_port = some (or_else port default_port);
      },
    )

-- The end of a function of the interface: after an error the thread is not busy.
unfoldable pub quit_function : Ran → Ran
quit_function (ret true t rs) = ret true t rs
quit_function (ret false t rs) = ret false (record t { busy = false }) rs
quit_function crashed = crashed

abbrev pub is_init : States → Bool
is_init init = true
is_init s = false

unfoldable pub connect_and_get : Given → Bool × RtspThread → Ran
unfolding send_get_request
connect_and_get g (ok, t) =
    if not ok
    then ret false t []
    else if not g.connects
    then ret false (record t { connected = false }) []
    else send_get_request g (record t { connected = true })

abbrev pub given_url : Option (List ℕ) → Bool
given_url none = false
given_url (some s) = nonempty s

unfoldable pub rtsp_open : Given → RtspThread → Option (List ℕ) → Ran
unfolding quit_function connect_and_get seturlname
rtsp_open g t urlname = quit_function (
    if not (given_url urlname)
    then ret false t []
    else if not (is_init t.status)
    then ret false (record t { busy = true }) []
    else connect_and_get g (seturlname g (record t { busy = true }) (or_else urlname [])))
