-- ===== src/Parsers/H264/Examples.antt =====
-- The theorems on H.264 at a unit in two fragments, at an aggregate of two units, and at a fragment
-- where parameter sets are due.
use libnemesi.Common.{ℕ, ◌≡◌, none, refl, true, false, some, List, [], ◌∷◌, ap, arith, length}
use libnemesi.Packet.{byte, bytes_at, cc, pad, mark, time, word}
use libnemesi.Rtp.Header.{payload_start, payload_size, overhead, last_byte}
use libnemesi.Parsers.{fill_ok, pkt_unknown, parsed}
use libnemesi.Parsers.Grow.{sized}
use libnemesi.Parsers.Fill.{Packet, fill_loop}
use libnemesi.Parsers.Frame.{Run, Yields}
use libnemesi.Parsers.Samples.{line, always, no_output, sample}
use libnemesi.Parsers.H264.{
  H264, start_bit, end_bit, reconstructed_nal, fragment, nms_consume_be2, is_due, h264_parse,
}
use libnemesi.Parsers.H264.Fragments.{IsIdle, frames, h264_parse-unit}
use libnemesi.Parsers.H264.Dropped.{h264_parse-dropped}
use libnemesi.Parsers.H264.Aggregate.{h264_parse-Aggregate}

abbrev unit_first : Packet
unit_first = sample 96 (124 ∷ 133 ∷ 11 ∷ [])

abbrev unit_last : Packet
unit_last = sample 224 (124 ∷ 69 ∷ 12 ∷ [])

abbrev aggregate : Packet
aggregate = sample 224 (24 ∷ 0 ∷ 2 ∷ 103 ∷ 66 ∷ 0 ∷ 1 ∷ 104 ∷ [])

abbrev h264_state : List ℕ → H264
h264_state conf = record { buffer = sized [] 0; timestamp = 0; conf = conf; configured = false }

unit-Run : Run line (h264_parse always) (frames always (λ n. refl) 9) [] (unit_first ∷ []) unit_last
unfolding mark time word byte start_bit end_bit reconstructed_nal fragment payload_start
    payload_size overhead last_byte cc pad bytes_at
unit-Run = (
  (refl, refl, (refl, omega arith, (λ e. refl), λ e. absurd (e refl))),
  (
    (λ e. omega (arith, e)),
    refl,
    (refl, omega arith, (λ e. omega (arith, ap length e)), λ e. refl),
  ),
)

h264_parse-unit_example :
    Yields line IsIdle
      (0 ∷ 0 ∷ 0 ∷ 1 ∷ 101 ∷ 11 ∷ 12 ∷ [])
      []
      (fill_loop line (h264_parse always) 2 no_output (unit_first ∷ unit_last ∷ []) (h264_state []))
unfolding byte is_due start_bit reconstructed_nal fragment payload_start payload_size overhead
    last_byte cc pad bytes_at
h264_parse-unit_example =
    h264_parse-unit always (λ n. refl) line 9 2 no_output (unit_first ∷ unit_last ∷ [])
      (h264_state []) (unit_first ∷ []) unit_last [] (omega arith)
      (record { present = refl; empty = refl; settled = refl }) unit-Run refl

h264_parse-Aggregate_example :
    (size : ℕ) × (h264_parse always (some aggregate) (h264_state [])
      ≡ parsed
          (record {
            code = fill_ok;
            frame = some (0 ∷ 0 ∷ 0 ∷ 1 ∷ 103 ∷ 66 ∷ 0 ∷ 0 ∷ 0 ∷ 1 ∷ 104 ∷ []);
            config = none;
            timestamp = none;
            removed = true;
          })
          (record (h264_state []) { buffer = sized [] size }))
unfolding byte is_due nms_consume_be2 payload_start payload_size overhead last_byte cc pad bytes_at
h264_parse-Aggregate_example =
    h264_parse-Aggregate always (λ n. refl) (h264_state []) aggregate.0 aggregate.1 (103 ∷ 66 ∷ [])
      ((104 ∷ []) ∷ []) refl refl refl
      (
        refl,
        (λ e. omega (arith, ap length e)),
        refl,
        omega arith,
        (refl, (λ e. omega (arith, ap length e)), refl, omega arith, omega arith),
      )

h264_parse-dropped_example :
    (size : ℕ) × (h264_parse always (some unit_first) (h264_state (103 ∷ []))
      ≡ parsed
          (record {
            code = pkt_unknown;
            frame = some [];
            config = some (103 ∷ []);
            timestamp = none;
            removed = true;
          })
          (record (h264_state (103 ∷ [])) { buffer = sized [] size; configured = true }))
unfolding byte is_due payload_start cc time word
h264_parse-dropped_example =
    h264_parse-dropped always (λ n. refl) (h264_state (103 ∷ [])) unit_first.0 unit_first.1 refl
      refl refl refl (λ e. omega (arith, e))
