-- ===== src/Parsers/H264/Dropped.antt =====
-- H.264 video: what becomes of a fragment (FU-A) that comes while parameter sets are due.
use libnemesi.Common.{
  ℕ, ◌≡◌, none, ◌≢◌, refl, Bool, true, false, some, List, [], ◌∷◌, arith, length,
}
use libnemesi.Packet.{Slot, time}
use libnemesi.Parsers.{pkt_unknown, parsed, Buffer, emptied, next, nms_append_incr}
use libnemesi.Parsers.Grow.{sized, Ample, nms_alloc_data-sized}
use libnemesi.Parsers.H264.{
  H264, config_of, parse_fu, nal_type, parse_unit, is_due, configure, h264_parse,
}

length_zero : (xs : List ℕ) → xs ≢ [] → length xs ≢ 0
length_zero [] h e = h refl
length_zero (x ∷ xs) h e = absurd (omega arith)

is_due-conf : (s : H264) → is_due s ≡ true → s.conf ≢ []
unfolding is_due
is_due-conf s d e = ground (arith, e)

module _ (mem : ℕ → Bool) (ample : Ample mem) where
  configure-sized :
      (conf : List ℕ) (b : Buffer)
      → b.lost ≡ false
      → b.held ≡ []
      → (size : ℕ) × (configure mem conf b ≡ next (sized conf size))
  unfolding configure nms_append_incr
  configure-sized conf b v h =
      let (size, q, fits) = nms_alloc_data-sized mem (length conf) b ample v in
      (size, rw q (ground (arith, h)))

  fu-stray :
      (s : H264) (p : Slot) (n : ℕ)
      → s.buffer.held ≢ []
      → s.timestamp ≢ time p
      → parse_fu mem p n s
        ≡ parsed
            (record {
              code = pkt_unknown;
              frame = some [];
              config = config_of s;
              timestamp = none;
              removed = true;
            })
            (record s { buffer = emptied s.buffer })
  unfolding parse_fu
  fu-stray s p n h e = ground (arith, length_zero s.buffer.held)

  -- Parameter sets are due, the buffer is there and empty, memory is always got, and the next packet is
  -- a fragment of another time than the state has, be it the first of its unit or not. The call
  -- returns RTP_PKT_UNKNOWN and removes the packet; no bytes are held, and the parameter sets count
  -- as sent.
  pub h264_parse-dropped :
      (s : H264) (p : Slot) (n : ℕ)
      → is_due s ≡ true
      → s.buffer.lost ≡ false
      → s.buffer.held ≡ []
      → nal_type p ≡ 28
      → s.timestamp ≢ time p
      → (size : ℕ) × (h264_parse mem (some (p, n)) s
          ≡ parsed
              (record {
                code = pkt_unknown;
                frame = some [];
                config = config_of s;
                timestamp = none;
                removed = true;
              })
              (record s { buffer = sized [] size; configured = true }))
  unfolding h264_parse parse_unit
  h264_parse-dropped s p n d v h k e =
      let (size, q) = configure-sized s.conf s.buffer v h in
      let s' = record s { buffer = sized s.conf size; configured = true } in
      (size, rw (d, q, k) (fu-stray s' p n (is_due-conf s d) e))
