-- ===== src/Rtp/Buffer.antt =====
-- src/rtp/rtp_buffer.c: the reader's view of a playout buffer. A packet is named by its slot.
pub mod Read
pub mod Clear
mod Examples
use libnemesi.Common.{
  ℕ, zero, suc, ◌+◌, Bool, true, false, Option, none, some, if◌then◌else◌, get_or,
}
use libnemesi.Common.Int.{pos_part}
use libnemesi.Packet.{pt}
use libnemesi.Bufferpool.{Link, BufferPool, give_back}
use libnemesi.Playout.{PlayoutBuff, PoItem, item, podel, bprmv}
use libnemesi.Common.{List, []}

-- The pool of a session and the playout buffer of one of its sources.
pub record Buffers : Type 0 where
  pub bp : BufferPool
  pub po : PlayoutBuff

-- The loop of rtp_get_n_pkt. It ends with `pkt_num`.
unfoldable pub follow : List PoItem → Link → ℕ → Link
follow a none n = none
follow a (some i) zero = some i
follow a (some i) (suc n) = follow a (item a i).next n

-- `NULL` is `none`.
unfoldable pub rtp_get_n_pkt : PlayoutBuff → ℕ → Link
unfolding follow
rtp_get_n_pkt po pkt_num = follow po.pobuff po.potail pkt_num

-- The packet at the tail is removed; a call on an empty buffer would read pobuff[-1].
unfoldable pub rm_at : Buffers → Link → Option Buffers
rm_at b none = none
rm_at b (some i) = let (bp', po') = bprmv b.bp b.po i in some (record { bp = bp'; po = po' })

unfoldable pub rtp_rm_pkt : Buffers → Option Buffers
unfolding rm_at
rtp_rm_pkt b = rm_at b b.po.potail

-- Where `rtp_get_pkt` ends: with the slot that it returns, or NULL, and what its removals left; or
-- its fuel ran out.
pub data Get : Type 0 where
  got : Link → Buffers → Get
  out_of_fuel : Get

-- The loop of rtp_get_pkt: packets of a payload type with no definition are removed from the tail.
-- `known` says which entries of `ptdefs` are set.
unfoldable pub get_loop : (ℕ → Bool) → ℕ → Buffers → Get
get_loop known zero b = out_of_fuel
get_loop known (suc fuel) b = elim b.po.potail [
  | none ↦ got none b
  | some i ↦
      let rest =
        let (bp', po') = bprmv b.bp b.po i in get_loop known fuel (record { bp = bp'; po = po' }) in
      if known (pt (get_or b.bp.bufferpool i [])) then got (some i) b else rest
]

-- The playout buffer has `pocount` packets, and each round but the last removes one.
unfoldable pub rtp_get_pkt : (ℕ → Bool) → Buffers → Get
unfolding get_loop
rtp_get_pkt known b = get_loop known (suc (pos_part b.po.pocount)) b

-- What rtp_get_next_pt returns, with RTP_BUFF_EMPTY as `none`.
unfoldable pub next_pt_of : Get → Option ℕ
next_pt_of (got none b) = none
next_pt_of (got (some i) b) = some (pt (get_or b.bp.bufferpool i []))
next_pt_of out_of_fuel = none

-- The payload type, and what the call of rtp_get_pkt left.
unfoldable pub rtp_get_next_pt : (ℕ → Bool) → Buffers → Option ℕ × Get
unfolding next_pt_of
rtp_get_next_pt known b = let g = rtp_get_pkt known b in (next_pt_of g, g)

-- The loop of rtp_rm_all_pkts, which leaves the slots' bytes as they are. `none`: out of fuel.
unfoldable pub clear_loop : ℕ → Buffers → Option Buffers
clear_loop zero b = none
clear_loop (suc fuel) b = elim b.po.potail [
  | none ↦ some b
  | some i ↦ clear_loop fuel (record { bp = give_back b.bp i; po = podel b.po i })
]

-- The pending datagrams of the socket are dropped before; they are no part of this state.
unfoldable pub rtp_rm_all_pkts : Buffers → Option Buffers
unfolding clear_loop
rtp_rm_all_pkts b = clear_loop (suc (pos_part b.po.pocount)) b
