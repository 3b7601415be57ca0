-- ===== src/Parsers/H263/Examples.antt =====
-- The theorem on H.263 at a frame of two packets. The first one has the bit P.
use libnemesi.Common.{refl, [], ◌∷◌, ap, arith, length}
use libnemesi.Packet.{byte, bytes_at, cc, pad, mark, time, word}
use libnemesi.Rtp.Header.{payload_start, payload_size, overhead, last_byte}
use libnemesi.Parsers.Fill.{Packet, fill_loop}
use libnemesi.Parsers.Frame.{Run, Yields}
use libnemesi.Parsers.Samples.{line, always, no_output, idle, sample}
use libnemesi.Parsers.Simple.{IsIdle}
use libnemesi.Parsers.H263.{bit_p, bit_v, header_bytes, start, zeroed, fragment, h263_parse}
use libnemesi.Parsers.H263.Frames.{frames, h263_parse-frame}

abbrev h263_first : Packet
h263_first = sample 34 (4 ∷ 0 ∷ 7 ∷ 8 ∷ [])

abbrev h263_last : Packet
h263_last = sample 162 (0 ∷ 0 ∷ 9 ∷ [])

h263-Run : Run line (h263_parse always) (frames always (λ n. refl) 9) [] (h263_first ∷ []) h263_last
unfolding mark time word byte bit_p bit_v header_bytes start zeroed fragment payload_start
    payload_size overhead last_byte cc pad bytes_at
h263-Run = (
  (refl, refl, ((λ e. λ q. omega (arith, q)), omega arith, λ e. omega arith)),
  (
    (λ e. omega (arith, e)),
    refl,
    ((λ e. omega (arith, ap length e)), omega arith, λ e. absurd (e refl)),
  ),
)

h263_parse-frame_example :
    Yields line IsIdle
      (0 ∷ 0 ∷ 7 ∷ 8 ∷ 9 ∷ [])
      []
      (fill_loop line (h263_parse always) 2 no_output (h263_first ∷ h263_last ∷ []) idle)
unfolding byte bit_p bit_v header_bytes start zeroed fragment payload_start payload_size overhead
    last_byte cc pad bytes_at
h263_parse-frame_example =
    h263_parse-frame always (λ n. refl) line 9 2 no_output (h263_first ∷ h263_last ∷ []) idle
      (h263_first ∷ []) h263_last [] (omega arith)
      (record { buffer = record { present = refl; within = omega arith }; empty = refl }) h263-Run
      refl
