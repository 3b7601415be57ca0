-- ===== src/Rtsp/Control/Busy.antt =====
-- A command leaves the thread busy only if it waits for an answer.
use libnemesi.Common.{
  ℕ, ◌<◌, ◌≡◌, refl, Bool, true, false, not, Option, none, some, List, [], arith, if◌then◌else◌,
  length,
}
use libnemesi.Rtsp.Thread.{RtspThread}
use libnemesi.Rtsp.Session.{Cursor, gcs_init}
use libnemesi.Rtsp.Send.{
  Request, Ran, ret, crashed, Given, write, send_get_request, send_teardown_request,
}
use libnemesi.Rtsp.Open.{
  quit_function, connect_and_get, seturlname, rtsp_open, given_url, is_init, or_else,
}
use libnemesi.Rtsp.Handlers.Effect.{Post}
use libnemesi.Rtsp.Machine.{at_first}
use libnemesi.Rtsp.Machine.Effects.{Sent, play-Sent, pause-Sent}
use libnemesi.Rtsp.Machine.Steps.{Awaits}
use libnemesi.Rtsp.Control.{Command, close, stop, is_refused, marked_busy, send_command, command}

-- What a function that sends a request does to the thread `t₀`: the state stays, and if it returns 0
-- it has sent one request and waits for its answer.
abbrev pub Asked : RtspThread → Bool → RtspThread → List Request → Type 0
Asked t₀ ok t rs = (t.status ≡ t₀.status) × (ok ≡ true → (0 < t.wait_for.res) × (length rs ≡ 1))

-- The end of a command: the state stays, and the thread waits for the answer to its one request, or
-- is not busy.
pub record Commanded (t₀ : RtspThread) (ok : Bool) (t : RtspThread) (rs : List Request)
    : Type 0 where
  pub status : t.status ≡ t₀.status
  pub awaits : Awaits t
  pub asked : ok ≡ true → (0 < t.wait_for.res) × (length rs ≡ 1)
  pub idle : ok ≡ false → t.busy ≡ false

quit-Commanded :
    (t₀ : RtspThread) (r : Ran) → Post (Asked t₀) r → Post (Commanded t₀) (quit_function r)
unfolding quit_function
quit-Commanded t₀ crashed h = tt
quit-Commanded t₀ (ret true t rs) h = record {
  status = h.0;
  awaits = λ b. (h.1 refl).0;
  asked = h.1;
  idle = λ e. cc;
}
quit-Commanded t₀ (ret false t rs) h = record {
  status = h.0;
  awaits = λ b. cc;
  asked = λ e. cc;
  idle = λ e. refl;
}

Sent-Asked : (t₀ : RtspThread) (r : Ran) → Post (Sent t₀) r → Post (Asked t₀) r
Sent-Asked t₀ crashed h = tt
Sent-Asked t₀ (ret ok t rs) h = (h.status, λ e. (h.awaited e, h.one e))

write-Asked :
    (g : Given) (r : Request) (t : RtspThread) → 0 < t.wait_for.res → Post (Asked t) (write g r t)
unfolding write
write-Asked g r t h = ground (arith, h)

teardown-Asked : (g : Given) (t : RtspThread) → Post (Asked t) (send_teardown_request g t)
unfolding send_teardown_request
teardown-Asked g t = ground (arith, write-Asked g)

get-Asked : (g : Given) (t : RtspThread) → Post (Asked t) (send_get_request g t)
unfolding send_get_request
get-Asked g t = ground (arith, write-Asked g)

send-Asked : (g : Given) (c : Command) (t : RtspThread) → Post (Asked t) (send_command g c t)
unfolding send_command
send-Asked g close t = teardown-Asked g t
send-Asked g Command.pause t = Sent-Asked t _ (pause-Sent g t [])
send-Asked g stop t = Sent-Asked t _ (pause-Sent g t [])
send-Asked g (Command.play range) t = Sent-Asked t _ (play-Sent g t range)

first-Asked :
    (g : Given) (c : Command) (t : RtspThread) (o : Option Cursor)
    → Post
        (Asked t)
        (elim o [ none ↦ crashed | some k ↦ send_command g c (record t { cursor = k }) ])
first-Asked g c t none = tt
first-Asked g c t (some k) = send-Asked g c (record t { cursor = k })

-- rtsp_close, rtsp_pause, rtsp_stop and rtsp_play leave the state of the thread. Each sends one
-- request and waits for the answer, or returns an error, after which the thread is not busy.
pub command-Commanded :
    (g : Given) (c : Command) (t : RtspThread) → Post (Commanded t) (command g c t)
unfolding command
command-Commanded g c t = quit-Commanded t _ (go (is_refused c t.status))
  where
    go :
        (b : Bool)
        → Post (Asked t) (
            if b
            then ret false (marked_busy t) []
            else at_first (marked_busy t) (λ t'. send_command g c t'))
    go true = (refl, λ e. cc)
    go false = first-Asked g c (marked_busy t) (gcs_init t.rtsp_queue)

seturlname-status :
    (g : Given) (t : RtspThread) (url : List ℕ) → (seturlname g t url).1.status ≡ t.status
unfolding seturlname
seturlname-status g t url = ground arith

connect-Asked :
    (g : Given) (t₀ : RtspThread) (ok : Bool) (t : RtspThread)
    → t.status ≡ t₀.status
    → Post (Asked t₀) (connect_and_get g (ok, t))
unfolding connect_and_get
connect-Asked g t₀ ok t s = ground (arith, get-Asked g)

-- rtsp_open leaves the state of the thread. It sends one request and waits for the answer, or returns
-- an error, after which the thread is not busy.
pub rtsp_open-Commanded :
    (g : Given) (t : RtspThread) (url : Option (List ℕ)) → Post (Commanded t) (rtsp_open g t url)
unfolding rtsp_open
rtsp_open-Commanded g t url = quit-Commanded t _ (go (not (given_url url)) (not (is_init t.status)))
  where
    go :
        (b c : Bool)
        → Post (Asked t) (
            if b
            then ret false t []
            else if c
            then ret false (record t { busy = true }) []
            else connect_and_get g (seturlname g (record t { busy = true }) (or_else url [])))
    go true c = (refl, λ e. cc)
    go false true = (refl, λ e. cc)
    go false false =
        connect-Asked g t (seturlname g (record t { busy = true }) (or_else url [])).0
          (seturlname g (record t { busy = true }) (or_else url [])).1
          (seturlname-status g (record t { busy = true }) (or_else url []))
