-- ===== src/Rtsp/Session/Examples.antt =====
-- The theorem on the cursor, at two sessions with two media and one.
use libnemesi.Common.{◌≡◌, some, [], ◌∷◌, suc, length, arith, All}
use libnemesi.Rtsp.Session.{RtspSession, Cursor, no_medium, no_session, gcs_init}
use libnemesi.Rtsp.Session.Walk.{HasMedia, places_from, visit, gcs_nxt_med-all}

abbrev first : RtspSession
first = record no_session { media_queue = no_medium ∷ no_medium ∷ [] }

abbrev second : RtspSession
second = record no_session { media_queue = no_medium ∷ [] }

both-HasMedia : All HasMedia (first ∷ second ∷ [])
both-HasMedia = (omega arith, (omega arith, tt))

gcs_nxt_med-all_example :
    (c : Cursor) × (gcs_init (first ∷ second ∷ []) ≡ some c)
    × (visit (first ∷ second ∷ []) (suc (length (places_from 0 (first ∷ second ∷ [])))) c
        ≡ some (places_from 0 (first ∷ second ∷ [])))
gcs_nxt_med-all_example = gcs_nxt_med-all first (second ∷ []) both-HasMedia
