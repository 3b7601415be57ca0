-- ===== src/Rtsp/Handlers/Effect.antt =====
-- What a handler that succeeds does to the thread.
use libnemesi.Common.{
  ℕ, suc, ◌+◌, ◌-◌, ◌%◌, ◌^◌, ◌≡◌, refl, Bool, true, false, Option, none, some, List, [], arith,
  length,
}
use libnemesi.Rtsp.Buffer.{RtspBuffer, remove_pkt}
use libnemesi.Rtsp.Buffer.Bounds.{IsBounded, remove_pkt-IsBounded}
use libnemesi.Rtsp.Session.{session_at}
use libnemesi.Rtsp.Session.Layout.{Sessions}
use libnemesi.Rtsp.Thread.{RtspThread}
use libnemesi.Rtsp.Send.{Request, Ran, ret, crashed, Given}
use libnemesi.Rtsp.Token.{strtok_r, text_at}
use libnemesi.Rtsp.Reply.{failing, unsuccessful, check_status}
use libnemesi.Rtsp.Handlers.{
  with_bytes, cleanup, on_success, on_first_line, handle_plain_response, Scanned, setup_loop,
  finish_setup, read_setup, handle_setup_response,
}
use libnemesi.Rtsp.Describe.{
  Header, header_read, with_sessions, finish_get, describe_loop, handle_get_response,
}

-- `P` holds of the result, unless the function reads through NULL.
abbrev pub Post : (Bool → RtspThread → List Request → Type 0) → Ran → Type 0
Post P (ret ok t rs) = P ok t rs
Post P crashed = Unit

-- A success leaves the state, the flag and the sizes of the buffer as they are, and sends nothing.
pub record Same (t₀ t : RtspThread) (rs : List Request) : Type 0 where
  pub status : t.status ≡ t₀.status
  pub busy : t.busy ≡ t₀.busy
  pub size : t.in_buffer.size ≡ t₀.in_buffer.size
  pub first : t.in_buffer.first_pkt_size ≡ t₀.in_buffer.first_pkt_size
  pub nothing : rs ≡ []

abbrev pub IfOk : RtspThread → Bool → RtspThread → List Request → Type 0
IfOk t₀ ok t rs = ok ≡ true → Same t₀ t rs

failing-IfOk : (t₀ : RtspThread) (r : Ran) → Post (IfOk t₀) (failing r)
failing-IfOk t₀ (ret ok t rs) = λ e. cc
failing-IfOk t₀ crashed = tt

same :
    (t₀ t : RtspThread)
    → t.status ≡ t₀.status
    → t.busy ≡ t₀.busy
    → t.in_buffer.size ≡ t₀.in_buffer.size
    → t.in_buffer.first_pkt_size ≡ t₀.in_buffer.first_pkt_size
    → Same t₀ t []
same t₀ t s b z f = record { status = s; busy = b; size = z; first = f; nothing = refl }

unsuccessful-IfOk :
    (g : Given) (t₀ t : RtspThread) (line : List ℕ) (reason : Bool) (code : ℕ)
    → Post (IfOk t₀) (unsuccessful g t line reason code)
unfolding unsuccessful
unsuccessful-IfOk g t₀ t line reason code = ground (arith, failing-IfOk t₀)

check_status-IfOk :
    (g : Given) (t : RtspThread) (line : List ℕ) → Post (IfOk t) (check_status g t line)
unfolding check_status
check_status-IfOk g t line = ground (arith, unsuccessful-IfOk g t, same t)

on_success-Post :
    (P : Bool → RtspThread → List Request → Type 0) (g : Given) (t₀ : RtspThread) (r : Ran)
    (rest : RtspThread → Ran)
    → ((t : RtspThread) (rs : List Request) → P false t rs)
    → Post (IfOk t₀) r
    → ((t : RtspThread) → Same t₀ t [] → Post P (rest t))
    → Post P (on_success g r rest)
unfolding on_success
on_success-Post P g t₀ crashed rest f h k = tt
on_success-Post P g t₀ (ret true t rs) rest f h k =
    k t (same t₀ t (h refl).status (h refl).busy (h refl).size (h refl).first)
on_success-Post P g t₀ (ret false t rs) rest f h k = f _ _

pub on_first_line-Post :
    (P : Bool → RtspThread → List Request → Type 0) (g : Given) (t : RtspThread)
    (rest : ℕ → ℕ → RtspThread → Ran)
    → ((t' : RtspThread) (rs : List Request) → P false t' rs)
    → ((prev step : ℕ) (t' : RtspThread) → Same t t' [] → Post P (rest prev step t'))
    → Post P (on_first_line g t rest)
unfolding on_first_line
on_first_line-Post P g t rest f k = go (strtok_r t.in_buffer.bytes 0).tkn
  where
    go :
        (o : Option ℕ)
        → Post P (elim o [
          | none ↦ ret false t []
          | some prev ↦
              on_success g
                (check_status g
                  (with_bytes t (strtok_r t.in_buffer.bytes 0).bytes)
                  (text_at (strtok_r t.in_buffer.bytes 0).bytes prev))
                (λ t'. rest prev (strtok_r t.in_buffer.bytes 0).step t')
        ])
    go none = f t []
    go (some prev) =
        on_success-Post P g (with_bytes t (strtok_r t.in_buffer.bytes 0).bytes)
          (check_status g (with_bytes t (strtok_r t.in_buffer.bytes 0).bytes)
            (text_at (strtok_r t.in_buffer.bytes 0).bytes prev))
          (λ t'. rest prev (strtok_r t.in_buffer.bytes 0).step t') f
          (check_status-IfOk g (with_bytes t (strtok_r t.in_buffer.bytes 0).bytes)
            (text_at (strtok_r t.in_buffer.bytes 0).bytes prev))
          (λ t' s.
            k prev (strtok_r t.in_buffer.bytes 0).step t'
              (same t t' s.status s.busy s.size s.first))

-- A handler that succeeds has taken the first packet out of the buffer, if there was memory for the
-- rest, and waits for no answer.
pub record Cleaned (g : Given) (t₀ t : RtspThread) (rs : List Request) : Type 0 where
  pub status : t.status ≡ t₀.status
  pub busy : t.busy ≡ t₀.busy
  pub size : t.in_buffer.size ≡ (t₀.in_buffer.size + 2 ^ 64 - t₀.in_buffer.first_pkt_size) % 2 ^ 64
  pub awaited : t.wait_for.res ≡ 0
  pub nothing : rs ≡ []
  pub bounded : g.beyond ≡ [] → IsBounded t.in_buffer

abbrev pub Handled : Given → RtspThread → Bool → RtspThread → List Request → Type 0
Handled g t₀ ok t rs = ok ≡ true → Cleaned g t₀ t rs

emptied_behind :
    (g : Given) (b : RtspBuffer)
    → g.mem_rest ≡ true
    → g.beyond ≡ []
    → IsBounded (remove_pkt g.mem_rest g.beyond b)
emptied_behind g b m e = rw m (remove_pkt-IsBounded g.beyond b e)

cleanup-Cleaned :
    (g : Given) (t₀ : RtspThread) {t : RtspThread}
    → g.mem_rest ≡ true
    → Same t₀ t []
    → Cleaned g t₀ (cleanup g t) []
unfolding cleanup remove_pkt
cleanup-Cleaned g t₀ {t} m s = record {
  status = s.status;
  busy = s.busy;
  size = ground (arith, s.size, s.first);
  awaited = refl;
  nothing = refl;
  bounded = emptied_behind g t.in_buffer m;
}

pub plain-Handled :
    (g : Given) (t : RtspThread)
    → g.mem_rest ≡ true
    → Post (Handled g t) (handle_plain_response g t)
unfolding handle_plain_response
plain-Handled g t m =
    on_first_line-Post (Handled g t) g t (λ prev step t'. ret true (cleanup g t') [])
      (λ t' rs e. cc) (λ prev step t' s e. cleanup-Cleaned g t m s)

finish_setup-Handled :
    (g : Given) (t₀ t : RtspThread) (i : ℕ) (r : Scanned (List ℕ))
    → g.mem_rest ≡ true
    → Same t₀ t []
    → Post (Handled g t₀) (finish_setup g t i r)
unfolding finish_setup cleanup remove_pkt
finish_setup-Handled g t₀ t i r m s = λ e. record {
  status = s.status;
  busy = s.busy;
  size = ground (arith, s.size, s.first);
  awaited = refl;
  nothing = refl;
  bounded = emptied_behind g _ m;
}

read_setup-Handled :
    (g : Given) (t : RtspThread) (i : ℕ) → g.mem_rest ≡ true → Post (Handled g t) (read_setup g t i)
unfolding read_setup
read_setup-Handled g t i m =
    on_first_line-Post (Handled g t) g t
      (λ prev step t'. finish_setup g t' i (
        setup_loop (suc (length t'.in_buffer.bytes)) t'.in_buffer.bytes step prev
          (session_at t'.rtsp_queue i).session_id))
      (λ t' rs e. cc)
      (λ prev step t' s.
        finish_setup-Handled g t t' i
          (setup_loop (suc (length t'.in_buffer.bytes)) t'.in_buffer.bytes step prev
            (session_at t'.rtsp_queue i).session_id)
          m s)

pub setup-Handled :
    (g : Given) (t : RtspThread)
    → g.mem_rest ≡ true
    → Post (Handled g t) (handle_setup_response g t)
unfolding handle_setup_response
setup-Handled g t m = go t.cursor.static_sess t.cursor.static_med
  where
    go :
        (a : Option ℕ) (b : Option (ℕ × ℕ))
        → Post (Handled g t) (elim a [
          | none ↦ ret false t []
          | some i ↦ elim b [ none ↦ ret false t [] | some m ↦ read_setup g t i ]
        ])
    go none b = λ e. cc
    go (some i) none = λ e. cc
    go (some i) (some j) = read_setup-Handled g t i m

with_sessions-Handled :
    (g : Given) (t₀ t : RtspThread) (o : Option Sessions)
    → g.mem_rest ≡ true
    → Same t₀ t []
    → Post (Handled g t₀) (with_sessions g t o)
unfolding with_sessions cleanup remove_pkt
with_sessions-Handled g t₀ t none m s = tt
with_sessions-Handled g t₀ t (some (false, q)) m s = λ e. cc
with_sessions-Handled g t₀ t (some (true, q)) m s = λ e. record {
  status = s.status;
  busy = s.busy;
  size = ground (arith, s.size, s.first);
  awaited = refl;
  nothing = refl;
  bounded = emptied_behind g t.in_buffer m;
}

finish_get-Handled :
    (g : Given) (t₀ t : RtspThread) (r : Scanned Header)
    → g.mem_rest ≡ true
    → Same t₀ t []
    → Post (Handled g t₀) (finish_get g t r)
unfolding finish_get header_read
finish_get-Handled g t₀ t r m s =
    with_sessions-Handled g t₀ (header_read t r) _ m
      (record { status = s.status; busy = s.busy; size = s.size; first = s.first; nothing = refl })

pub get-Handled :
    (g : Given) (t : RtspThread) → g.mem_rest ≡ true → Post (Handled g t) (handle_get_response g t)
unfolding handle_get_response
get-Handled g t m =
    on_first_line-Post (Handled g t) g t
      (λ prev step t'. finish_get g t' (
        describe_loop (suc (length t'.in_buffer.bytes)) t'.in_buffer.bytes step prev
          (t'.is_sdp, none)))
      (λ t' rs e. cc)
      (λ prev step t' s.
        finish_get-Handled g t t'
          (describe_loop (suc (length t'.in_buffer.bytes)) t'.in_buffer.bytes step prev
            (t'.is_sdp, none))
          m s)
