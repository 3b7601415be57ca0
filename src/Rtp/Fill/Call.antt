-- ===== src/Rtp/Fill/Call.antt =====
-- rtp_fill_buffer of src/rtp/rtp_buffer.c: a call for a frame, with rtp_get_next_ts.
use libnemesi.Common.{
  ℕ, ◌+◌, ◌%◌, ◌-◌, ◌≡◌, Bool, false, Option, none, some, List, [], ◌∷◌, if◌then◌else◌,
}
use libnemesi.Packet.{pt, time}
use libnemesi.Rtp.Buffer.{Buffers}
use libnemesi.Rtp.Source.{Stats, u32}
use libnemesi.Rtp.State.{Member}
use libnemesi.Rtp.Recv.{Doubles}
use libnemesi.Parsers.{Code, fill_ok, buff_empty, Output}
use libnemesi.Parsers.Fill.{Packet, Parser, Filled, filled, fill_loop}
use libnemesi.Rtp.Fill.{next_packet}
use libnemesi.Rtp.Fill.Reader.{Waits, reader}

-- `rtp_frame`, where the call has filled it.
pub record RtpFrame (F : Type 0) : Type 0 where
  pub pt : ℕ
  pub timestamp : ℕ
  pub fps : F
  pub time_sec : F
  pub content : Option (List ℕ)

-- Where a call ends: with RTP_BUFF_EMPTY, or with what the parser returned, the frame, the
-- configuration, and the new states of the source, of the type's parser and of the buffers.
pub data Filling (F P : Type 0) : Type 0 where
  empty : Buffers → Filling F P
  called : Code → RtpFrame F → Option (List ℕ) → Member F → P → Buffers → Filling F P
  faulted : Filling F P
  endless : Filling F P

-- `RTP_PKT_PT` and `RTP_PKT_TS` of a packet
abbrev pub packet_pt : Packet → ℕ
packet_pt x = pt x.0

abbrev pub packet_time : Packet → ℕ
packet_time x = time x.0

abbrev pub nothing_set : Output
nothing_set = record {
  code = buff_empty;
  frame = none;
  config = none;
  timestamp = none;
  removed = false;
}

-- `known` says which payload types have a definition, and `rate` what its clock rate is. `parsers`
-- and `priv` are the parsers of the types, and their states.
module _ {F P : Type 0} (o : Doubles F) (known : ℕ → Bool) (rate : ℕ → ℕ) (parsers : ℕ → Parser P)
    (priv : ℕ → P) where
  -- The time of a packet since the first one, as its quotient by the rate.
  unfoldable pub since : Stats F → ℕ → ℕ → F
  since s timestamp type = o.ratio ((timestamp + u32 - s.firstts % u32) % u32) (rate type)

  -- `fr->timestamp` after the loop: the parser may have set it.
  abbrev pub stamp : Option ℕ → ℕ → ℕ
  stamp none timestamp = timestamp
  stamp (some t) timestamp = t

  unfoldable pub after_loop : F → Member F → Packet → Filled Buffers P → Filling F P
  unfolding since
  after_loop fps m x Filled.faulted = faulted
  after_loop fps m x Filled.endless = endless
  after_loop fps m x (filled out s b) =
      called out.code
        (record {
          pt = packet_pt x;
          timestamp = stamp out.timestamp (packet_time x);
          fps = fps;
          time_sec = since m.ssrc_stats (stamp out.timestamp (packet_time x)) (packet_pt x);
          content = out.frame;
        })
        out.config m s b

  unfoldable pub with_packet : ℕ → F → Member F → Option Packet → Buffers → Filling F P
  unfolding fill_loop after_loop
  with_packet fuel fps m none b = empty b
  with_packet fuel fps m (some x) b =
      let m' = record m { ssrc_stats = record (m.ssrc_stats) { lastts = packet_time x } } in
      after_loop fps m' x
        (fill_loop (reader known) (parsers (packet_pt x)) fuel nothing_set b (priv (packet_pt x)))

  -- `fps` is the session's. The parser is called `fuel` times at most.
  unfoldable pub rtp_fill_buffer : ℕ → F → Member F → Buffers → Filling F P
  unfolding with_packet next_packet
  rtp_fill_buffer fuel fps m b =
      if m.done_seek
      then empty b
      else (let (x, b') = next_packet known b in with_packet fuel fps m x b')

  -- `none` for -1.
  unfoldable pub next_ts : Stats F → Option Packet → Option F
  unfolding since
  next_ts s none = none
  next_ts s (some x) = some (since s (packet_time x) (packet_pt x))

  unfoldable pub rtp_get_next_ts : Member F → Buffers → Option F × Buffers
  unfolding next_ts next_packet
  rtp_get_next_ts m b = let (x, b') = next_packet known b in (next_ts m.ssrc_stats x, b')

  abbrev pub first : List Packet → Packet → Packet
  first [] z = z
  first (y ∷ ys) z = y

  -- The call ended with the frame `xs` of the packet `x`, and the packets `rest` wait.
  abbrev pub Frames :
      F → Member F → Packet → (P → Type 0) → List ℕ → List Packet → Filling F P → Type 0
  Frames fps m x Done xs rest r =
      (config : Option (List ℕ)) × (s : P) × (b : Buffers) × (r
        ≡ called fill_ok
            (record {
              pt = packet_pt x;
              timestamp = packet_time x;
              fps = fps;
              time_sec = since m.ssrc_stats (packet_time x) (packet_pt x);
              content = some xs;
            })
            config (record m { ssrc_stats = record (m.ssrc_stats) { lastts = packet_time x } }) s b)
      × Done s
      × Waits known b rest
