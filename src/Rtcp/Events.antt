-- ===== src/Rtcp/Events.antt =====
-- The queue of RTCP events, src/rtcp/rtcp_events.c: rtcp_schedule, rtcp_deschedule and
-- rtcp_clean_events. A queue is the list of its events from the head on.
pub mod Order
mod Examples
use libnemesi.Common.{ℕ, Bool, true, false, List, [], ◌∷◌, ◌++◌, if◌then◌else◌}
use libnemesi.Rtp.Source.{TimeVal}
use libnemesi.Utils.Timeval.{nms_timeval_subtract}

-- `rtcp_type_t`
pub data RtcpType : Type 0 where
  rtcp_sr rtcp_rr rtcp_sdes rtcp_bye rtcp_app : RtcpType

-- `struct rtcp_event`, its session by a number.
pub record RtcpEvent : Type 0 where
  pub rtp_sess : ℕ
  pub tv : TimeVal
  pub kind : RtcpType

-- The new queue; a call on an empty one reads through NULL, which the callers exclude.
unfoldable pub rtcp_deschedule : List RtcpEvent → List RtcpEvent
rtcp_deschedule [] = []
rtcp_deschedule (e ∷ queue) = queue

unfoldable pub rtcp_clean_events : List RtcpEvent → List RtcpEvent
rtcp_clean_events queue = []

-- `nms_timeval_subtract(NULL, a, b)`
unfoldable pub is_before : TimeVal → TimeVal → Bool
is_before a b = (nms_timeval_subtract a b).1

-- Where the loop of rtcp_schedule stops: the events passed, and those left.
pub record Passed : Type 0 where
  pub passed : List RtcpEvent
  pub left : List RtcpEvent

abbrev pub pass : RtcpEvent → Passed → Passed
pass e w = record w { passed = e ∷ w.passed }

unfoldable pub pass_earlier : TimeVal → List RtcpEvent → Passed
unfolding is_before
pass_earlier tv [] = record { passed = []; left = [] }
pass_earlier tv (e ∷ queue) =
    let w = pass_earlier tv queue in
    if is_before e.tv tv then pass e w else record { passed = []; left = e ∷ queue }

-- What follows the loop, by the events passed and those left. `pevent` is the last event passed, or
-- the head if none was. Where `pevent` is the head and an event is left, the new event goes in
-- front of the head; otherwise it goes behind `pevent`.
unfoldable pub link_event : RtcpEvent → List RtcpEvent → List RtcpEvent → List RtcpEvent
link_event new [] [] = new ∷ []
link_event new [] (l ∷ ls) = new ∷ l ∷ ls
link_event new (p ∷ []) [] = p ∷ new ∷ []
link_event new (p ∷ []) (l ∷ ls) = new ∷ p ∷ l ∷ ls
link_event new (p ∷ q ∷ ps) ls = (p ∷ q ∷ ps) ++ (new ∷ ls)

-- `mem` says whether malloc succeeds. If it does not, the function returns NULL, an empty queue.
unfoldable pub rtcp_schedule :
    (mem : Bool) → List RtcpEvent → ℕ → TimeVal → RtcpType → List RtcpEvent
unfolding link_event pass_earlier
rtcp_schedule mem queue sess tv kind =
    let w = pass_earlier tv queue in
    if mem
    then link_event (record { rtp_sess = sess; tv = tv; kind = kind }) w.passed w.left
    else []
