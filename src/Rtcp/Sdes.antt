-- ===== src/Rtcp/Sdes.antt =====
-- Source descriptions, src/rtcp/rtcp_sdes.c: rtcp_set_ssrc_sdes and rtcp_parse_sdes. A pointer to an
-- item is an offset in bytes. What the code reads behind the datagram is 0 in the model.
pub mod Learn
mod Examples
use libnemesi.Common.{
  ℕ, zero, suc, ◌+◌, ◌-◌, ◌*◌, ◌/◌, Bool, true, false, ◌&&◌, not, Option, none, some, List, [], ◌∷◌,
  ltb, leb, ◌==◌, if◌then◌else◌, get_or, set,
}
use libnemesi.Packet.{Slot, byte, bytes_at}
use libnemesi.Rtp.Source.{min_sequential}
use libnemesi.Rtp.State.{Member}
use libnemesi.Rtcp.Packet.{common_count, raw_len}

-- The descriptions of a source, and what the function returns; or it writes behind them, for the
-- type of an item is not checked.
pub data SdesResult : Type 0 where
  descr : ℕ → List (Option (List ℕ)) → SdesResult
  outside : SdesResult

-- `memcmp(str, data, len) == 0` for a description `str`, which a 0 follows. What follows that is
-- taken to differ.
unfoldable pub mem_same : List ℕ → List ℕ → Bool
mem_same str [] = true
mem_same [] (d ∷ []) = d == 0
mem_same [] (d ∷ e ∷ ds) = false
mem_same (c ∷ str) (d ∷ ds) = let rest = mem_same str ds in if c == d then rest else false

-- The description is stored if malloc succeeds.
unfoldable pub store_item : Bool → ℕ → List ℕ → List (Option (List ℕ)) → SdesResult
store_item mem type text sdes =
    if mem then descr 0 (set sdes type (some text)) else descr 1 (set sdes type none)

unfoldable pub renew_item :
    Bool → ℕ → List ℕ → List (Option (List ℕ)) → Option (List ℕ) → SdesResult
unfolding store_item mem_same
renew_item mem type text sdes none = store_item mem type text sdes
renew_item mem type text sdes (some str) =
    if mem_same str text then descr 0 sdes else store_item mem type text sdes

unfoldable pub rtcp_set_ssrc_sdes : Bool → ℕ → List ℕ → List (Option (List ℕ)) → SdesResult
unfolding renew_item
rtcp_set_ssrc_sdes mem type text sdes =
    if leb 9 type then outside else renew_item mem type text sdes (get_or sdes type none)

-- The end of the loop over the items of a chunk: where it stopped, or what it returned.
pub data Items : Type 0 where
  stopped : ℕ → List (Option (List ℕ)) → Items
  failed : List (Option (List ℕ)) → Items
  fault : Items
  no_fuel : Items

-- What follows an item, by what storing it gave and what the rest of the loop gives then.
unfoldable pub after_item : SdesResult → (List (Option (List ℕ)) → Items) → Items
after_item outside rest = fault
after_item (descr zero sdes) rest = rest sdes
after_item (descr (suc n) sdes) rest = failed sdes

-- The loop over the items, from the offset `rsp`.
unfoldable pub items_loop : Bool → Slot → ℕ → ℕ → ℕ → List (Option (List ℕ)) → Items
unfolding rtcp_set_ssrc_sdes bytes_at after_item
items_loop mem p end zero rsp sdes = no_fuel
items_loop mem p end (suc fuel) rsp sdes =
    let type = byte p rsp in
    let len = byte p (rsp + 1) in
    let rspn = rsp + len + 2 in
    let rest : List (Option (List ℕ)) → Items = λ sdes'. items_loop mem p end fuel rspn sdes' in
    if type == 0
    then stopped rsp sdes
    else if leb end rspn
    then stopped rspn sdes
    else after_item (rtcp_set_ssrc_sdes mem type (bytes_at p (rsp + 2) len) sdes) rest

-- The end of the loop over the chunks: with all of them done or not, or as above.
pub data Chunks : Type 0 where
  ended : Bool → List (Option (List ℕ)) → Chunks
  failed : List (Option (List ℕ)) → Chunks
  fault : Chunks
  no_fuel : Chunks

unfoldable pub after_items : ℕ → Items → (ℕ → List (Option (List ℕ)) → Chunks) → Chunks
after_items sw (Items.stopped rsp sdes) rest = rest (sw + (rsp - 4 * sw) / 4 + 1) sdes
after_items sw (Items.failed sdes) rest = Chunks.failed sdes
after_items sw Items.fault rest = Chunks.fault
after_items sw Items.no_fuel rest = Chunks.no_fuel

-- `count` chunks are left, and the first of them is at the word `sw`. Each item of a chunk takes two
-- bytes at least, and the loop over them stops at `end`.
unfoldable pub chunks_loop : Bool → Slot → ℕ → ℕ → ℕ → List (Option (List ℕ)) → Chunks
unfolding items_loop after_items
chunks_loop mem p end zero sw sdes = ended true sdes
chunks_loop mem p end (suc count) sw sdes =
    let rest : ℕ → List (Option (List ℕ)) → Chunks =
      λ sw' sdes'. chunks_loop mem p end count sw' sdes' in
    if leb end (4 * sw + 4)
    then ended false sdes
    else after_items sw (items_loop mem p end (end + 1) (4 * sw + 4) sdes) rest

-- What is left of a source: the function's result, or a fault.
pub data Described (F : Type 0) : Type 0 where
  done : ℕ → Member F → Described F
  fault : Described F
  no_fuel : Described F

unfoldable pub after_chunks : {F : Type 0} → Member F → Chunks → Described F
after_chunks m (Chunks.ended true sdes) =
    if m.ssrc_stats.probation == 0
    then Described.done 0 (record m { ssrc_sdes = sdes })
    else Described.done 0
        (record m { ssrc_sdes = sdes; ssrc_stats = record (m.ssrc_stats) { probation = 1 } })
after_chunks m (Chunks.ended false sdes) = Described.done 0 (record m { ssrc_sdes = sdes })
after_chunks m (Chunks.failed sdes) = Described.done 1 (record m { ssrc_sdes = sdes })
after_chunks m Chunks.fault = Described.fault
after_chunks m Chunks.no_fuel = Described.no_fuel

-- The packet at the word `w`. The end is computed from the length in the order of the network.
unfoldable pub rtcp_parse_sdes : {F : Type 0} → Bool → Slot → ℕ → Member F → Described F
unfolding chunks_loop after_chunks
rtcp_parse_sdes mem p w m =
    after_chunks m
      (chunks_loop mem p (4 * (w + raw_len p w + 1)) (common_count p w) (w + 1) m.ssrc_sdes)
