-- ===== src/Rtp/Fill.antt =====
-- The reader of a frame, rtp_fill_buffer of src/rtp/rtp_buffer.c, with rtp_get_next_ts.
pub mod Reader
pub mod Call
mod Examples
use libnemesi.Common.{
  ℕ, zero, suc, ◌+◌, ◌-◌, ◌%◌, Bool, true, false, Option, none, some, List, [], if◌then◌else◌,
  get_or,
}
use libnemesi.Packet.{Slot, pt, time}
use libnemesi.Playout.{item}
use libnemesi.Rtp.Buffer.{Buffers, Get, got, out_of_fuel, rtp_get_pkt, rtp_rm_pkt}
use libnemesi.Rtp.Source.{Stats, u32}
use libnemesi.Rtp.State.{Member, PtDef}
use libnemesi.Parsers.{buff_empty, Output, Parsed, fault}
use libnemesi.Parsers.Fill.{Packet, Parser, Filled, filled, faulted, endless, resume}

-- The packet in a slot with its length.
unfoldable pub packet_at : Buffers → ℕ → Packet
packet_at b i = (get_or b.bp.bufferpool i [], (item b.po.pobuff i).pktlen)

-- What rtp_get_pkt gives a parser, and what it leaves.
unfoldable pub got_packet : Buffers → Get → Option Packet × Buffers
unfolding packet_at
got_packet b (got none b') = (none, b')
got_packet b (got (some i) b') = (some (packet_at b' i), b')
got_packet b out_of_fuel = (none, b)

unfoldable pub next_packet : (ℕ → Bool) → Buffers → Option Packet × Buffers
unfolding got_packet
next_packet known b = got_packet b (rtp_get_pkt known b)

-- rtp_rm_pkt, as a parser calls it: with a packet in the buffer.
unfoldable pub drop_packet : Buffers → Buffers
drop_packet b = elim (rtp_rm_pkt b) [ none ↦ b | some b' ↦ b' ]
