-- ===== src/Rtcp/Events/Examples.antt =====
-- The theorem on the queue of events at a queue of two events.
use mathlib.Core.List.{Perm}
use libnemesi.Common.{ℕ, refl, ◌≡◌, ◌⊎◌, arith, true, List, [], ◌∷◌}
use libnemesi.Common.Int.{pos, ◌-ℤ◌}
use libnemesi.Rtp.Source.{TimeVal}
use libnemesi.Utils.Timeval.{nms_timeval_subtract}
use libnemesi.Utils.Timeval.Exact.{IsNormal}
use libnemesi.Rtcp.Events.{RtcpEvent, rtcp_rr, rtcp_sdes, is_before, rtcp_schedule}
use libnemesi.Rtcp.Events.Order.{new_event, Sorted, OnlyHead, rtcp_schedule-Sorted}

abbrev at : ℕ → TimeVal
at s = record { sec = pos s; usec = pos 0 }

at-IsNormal : (s : ℕ) → IsNormal (at s)
at-IsNormal s = record { nonneg = omega arith; below = omega arith }

abbrev first : RtcpEvent
first = record { rtp_sess = 0; tv = at 1; kind = rtcp_rr }

abbrev second : RtcpEvent
second = record { rtp_sess = 0; tv = at 3; kind = rtcp_sdes }

abbrev two : List RtcpEvent
two = first ∷ second ∷ []

two-Sorted : Sorted two
unfolding is_before nms_timeval_subtract ◌-ℤ◌
two-Sorted = (at-IsNormal 1, (refl, tt), (at-IsNormal 3, tt, tt))

rtcp_schedule-Sorted_example :
    let r = rtcp_schedule true two 0 (at 2) rtcp_rr in
    let new = new_event two 0 (at 2) rtcp_rr in
    Perm r (new ∷ two)
    × ((OnlyHead two 0 (at 2) rtcp_rr × (r ≡ new ∷ two) × ¬ (Sorted r))
        ⊎ (¬ OnlyHead two 0 (at 2) rtcp_rr × Sorted r))
rtcp_schedule-Sorted_example = rtcp_schedule-Sorted two 0 (at 2) rtcp_rr two-Sorted (at-IsNormal 2)
