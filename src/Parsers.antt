-- ===== src/Parsers.antt =====
-- The depacketizers of src/parsers/: each makes the frames of a decoder out of the packets of one
-- payload type. Here is what they share: the buffer of a frame that is being put together, with the
-- functions of src/parsers/rtp_utils.c on it, and the result of a call.
--
-- A parser is called with the packet that rtp_get_pkt gives it, its slot and its length. It says
-- whether it then calls rtp_rm_pkt. `mem n` tells whether memory of `n` bytes is got in a call. A frame
-- is what the buffer holds when the call returns; later calls write over it.
pub mod Mpv
pub mod H263
pub mod M4v
pub mod H264
pub mod Grow
pub mod Text
pub mod Config
pub mod Fill
pub mod Frame
pub mod Simple
pub mod Samples
use libnemesi.Common.{
  ℕ, ◌+◌, Bool, true, false, not, ◌&&◌, ◌||◌, Option, none, some, List, [], ◌++◌, ltb, ◌==◌,
  if◌then◌else◌, length,
}
use libnemesi.Packet.{Slot, bytes_at, mark, time}
use libnemesi.Rtp.Header.{payload_start, payload_size}

-- What a parser returns. `again` is EAGAIN.
pub data Code : Type 0 where
  fill_ok buff_empty parse_error pkt_unknown in_prm_err err_alloc again : Code

-- The frame, the configuration and the frame's time stamp, where the call sets them, and whether the
-- packet is removed. None of the parsers modelled here sets the time stamp.
pub record Output : Type 0 where
  pub code : Code
  pub frame : Option (List ℕ)
  pub config : Option (List ℕ)
  pub timestamp : Option ℕ
  pub removed : Bool

-- The end of a call: it returns, with the parser's state, or it reads or writes where it must not.
pub data Parsed (P : Type 0) : Type 0 where
  parsed : Output → P → Parsed P
  fault : Parsed P

-- The call returns the code, and sets nothing.
abbrev pub only : {P : Type 0} → Code → Bool → P → Parsed P
only code removed s =
    parsed
      (record { code = code; frame = none; config = none; timestamp = none; removed = removed }) s

-- `data`, `len` and `data_size`: the first `len` bytes of the buffer are `held`. The buffer is `lost`
-- when realloc has failed, for its pointer is overwritten then.
pub record Buffer : Type 0 where
  pub held : List ℕ
  pub data_size : ℕ
  pub lost : Bool

unfoldable pub new_buffer : Buffer
new_buffer = record { held = []; data_size = 0; lost = false }

-- A function on the buffer goes on, or no memory was got, or it is a fault.
pub data Step : Type 0 where
  next : Buffer → Step
  refused : Buffer → Step
  fault : Step

infixl 5 ◌>>=◌
abbrev pub ◌>>=◌ : Step → (Buffer → Step) → Step
next b >>= f = f b
refused b >>= f = refused b
Step.fault >>= f = Step.fault

-- What the call makes of the step.
unfoldable pub after : {P : Type 0} → Step → (Buffer → Parsed P) → (Buffer → Parsed P) → Parsed P
after (next b) go failed = go b
after (refused b) go failed = failed b
after Step.fault go failed = Parsed.fault

-- A realloc of `n` bytes. Memory that takes the place of a lost buffer does not hold what that held.
unfoldable pub resize : (ℕ → Bool) → ℕ → Buffer → Step
resize mem n b =
    if not (mem n)
    then refused (record b { lost = true })
    else if b.lost && ltb 0 (length b.held)
    then Step.fault
    else next (record b { data_size = n; lost = false })

unfoldable pub nms_alloc_data : (ℕ → Bool) → ℕ → Buffer → Step
unfolding resize
nms_alloc_data mem n b = if ltb b.data_size n then resize mem n b else next b

-- nms_append_data at `len`, and `len` moved on.
unfoldable pub nms_append_incr : List ℕ → Buffer → Step
nms_append_incr src b =
    if b.lost || ltb b.data_size (length b.held + length src)
    then Step.fault
    else next (record b { held = b.held ++ src })

-- The payload of a packet of `n` bytes.
unfoldable pub payload : Slot → ℕ → List ℕ
unfolding payload_start payload_size
payload p n = bytes_at p (payload_start p) (payload_size p n)

-- A frame that is put together over several packets, and the time stamp of those so far.
pub record Assembly : Type 0 where
  pub buffer : Buffer
  pub timestamp : ℕ

abbrev pub emptied : Buffer → Buffer
emptied b = record b { held = [] }

-- The end of a call that has put the packet into the buffer: the mark on a packet ends the frame.
unfoldable pub finish : Slot → Option (List ℕ) → Assembly → Buffer → Output × Assembly
finish p config s b =
    if mark p == 0
    then (
      record { code = again; frame = none; config = config; timestamp = none; removed = true },
      record { buffer = b; timestamp = time p },
    )
    else (
      record {
        code = fill_ok;
        frame = some b.held;
        config = config;
        timestamp = none;
        removed = true;
      },
      record s { buffer = emptied b },
    )

-- A packet of another time stamp than those of the frame.
unfoldable pub is_stray : Slot → Assembly → Bool
is_stray p s = ltb 0 (length s.buffer.held) && not (time p == s.timestamp)

abbrev pub ended : Output × Assembly → Parsed Assembly
ended r = parsed r.0 r.1
