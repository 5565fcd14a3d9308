-- ===== src/Bench/Examples.antt =====
-- A run of the unit choice, and the theorems on it and on samples at concrete inputs.
use shclog.Prelude.{
  ◌++◌, replicate, drop, true, ℕ, List, ◌^◌, ◌≡◌, [], ◌∷◌, length, take, refl, arith, some,
}
use shclog.Bench.Report.{ValueInUnit, ratio, biggest_unit_fit, fit}
use shclog.Decimal.{to_chars}
use shclog.Bench.Report.Write.{write, write_value, repr_max_len}
use shclog.Bench.Report.Write.Exact.{text}
use shclog.Bench.Report.Write.Room.{write_value-text}
use shclog.Bench.Report.Fit.{IsShown, fit-IsShown}
use shclog.Bench.TimeScale.{
  TimeMeasure, nanoseconds, milliseconds, minutes, index, time_scale, time_scale-IsLawful,
}
use shclog.Bench.Sample.{Sample, make, push_all, empty_sample}
use shclog.Bench.Sample.Reduce.{
  Grouping, initial, sample, plus, converted, samples_of, Permutes, same, keep,
}
use shclog.Io.Exec.{returns}
use shclog.Bench.Sample.Average.{avg, avg_floor}
use shclog.Bench.Sample.Totals.{Reports, push_all-Reports}

-- 1 590 000 ns are shown as 1.5 ms, 2^64 - 1 bytes as 15 EiB.
fit_runs :
    fit time_scale (2 ^ 64) 1_590_000 nanoseconds
    ≡ some (record { whole = 1; tenth = 5; measure = milliseconds })
unfolding fit shclog.Bench.TimeScale.scale shclog.Bench.TimeScale.index
    shclog.Bench.TimeScale.at_index
fit_runs = refl

fit-IsShown_example :
    (x : ValueInUnit (time_scale.Measure)) × (fit time_scale (2 ^ 64) 1_590_000 nanoseconds
      ≡ some x)
    × (x.measure ≡ biggest_unit_fit time_scale 1_590_000 nanoseconds)
    × IsShown 1_590_000
        (ratio time_scale nanoseconds (biggest_unit_fit time_scale 1_590_000 nanoseconds))
        x
fit-IsShown_example =
    fit-IsShown time_scale time_scale-IsLawful (2 ^ 64) 1_590_000 nanoseconds (omega arith)
      (omega arith)

-- Three pushes onto a buffer of two bytes: the third is refused, the sum of the others overflows.
push_all-Reports_example :
    (s : Sample) × (make 256 (some (0 ∷ 0 ∷ [])) ≡ some s)
    × Reports 256
        (take (length {A = ℕ} (0 ∷ 0 ∷ [])) (200 ∷ 90 ∷ 7 ∷ []))
        (push_all 256 s (200 ∷ 90 ∷ 7 ∷ []))
push_all-Reports_example = push_all-Reports 256 (0 ∷ 0 ∷ []) (200 ∷ 90 ∷ 7 ∷ []) (omega arith)

-- Pairs are added first and held in the result's type, as libstdc++ does four samples at a time.
abbrev in_fours : Grouping → List ℕ → Grouping
in_fours sum (a ∷ b ∷ c ∷ d ∷ rest) =
    in_fours
      (plus sum (
        converted
          (plus (converted (plus (sample a) (sample b))) (converted (plus (sample c) (sample d))))))
      rest
in_fours sum (a ∷ rest) = in_fours (plus sum (sample a)) rest
in_fours sum [] = sum

-- Four times 4 000 000 000 of 32 bits do not average to that in 64 bits: each pair wraps.
pairs_wrap :
    avg
      (in_fours initial)
      true
      (2 ^ 32)
      (2 ^ 64)
      (push_all (2 ^ 32) (empty_sample (2 ^ 32) (replicate 4 0)) (replicate 4 4_000_000_000))
    ≡ returns (some 1_852_516_352)
unfolding avg push_all
pairs_wrap = refl

-- One addition after the other, from the end on.
abbrev in_turn : List ℕ → Grouping
in_turn [] = initial
in_turn (x ∷ xs) = plus (sample x) (in_turn xs)

in_turn-AddsAll : (xs : List ℕ) → Permutes (samples_of (in_turn xs)) xs
in_turn-AddsAll [] = same
in_turn-AddsAll (x ∷ xs) = keep x (in_turn-AddsAll xs)

-- The sum 290 does not fit a byte, and the average 145 does.
avg_floor_example :
    avg in_turn true 256 (2 ^ 16) (push_all 256 (empty_sample 256 (0 ∷ 0 ∷ [])) (200 ∷ 90 ∷ 7 ∷ []))
    ≡ returns (some 145)
avg_floor_example =
    avg_floor in_turn true 256 (2 ^ 16) (0 ∷ 0 ∷ []) (200 ∷ 90 ∷ 7 ∷ []) in_turn-AddsAll
      (omega arith) (omega arith) (omega arith) (omega arith) (omega arith)

-- "1.5 ms"
write_runs :
    write true time_scale (record { whole = 1; tenth = 5; measure = milliseconds }) (replicate 8 0)
    ≡ returns (some (b'1' ∷ b'.' ∷ b'5' ∷ b' ' ∷ b'm' ∷ b's' ∷ 0 ∷ 0 ∷ [], 6))
unfolding write to_chars shclog.Bench.TimeScale.symbol
write_runs = refl

longest_time_symbol : repr_max_len time_scale 19 ≡ 25
unfolding repr_max_len shclog.Bench.TimeScale.index shclog.Bench.TimeScale.at_index
    shclog.Bench.TimeScale.symbol
longest_time_symbol = refl

write_value-text_example :
    (x : ValueInUnit (time_scale.Measure)) × (fit time_scale (2 ^ 64) 1_590_000 nanoseconds
      ≡ some x)
    × (write_value true time_scale (2 ^ 64) 1_590_000 nanoseconds (replicate 25 0)
        ≡ returns (
            some (
              text time_scale x ++ drop (length (text time_scale x)) (replicate 25 0),
              length (text time_scale x),
            )))
write_value-text_example =
    write_value-text true time_scale (2 ^ 64) 19 1_590_000 nanoseconds (replicate 25 0)
      time_scale-IsLawful (omega arith) (omega arith) (omega arith) (omega arith)
      (omega (arith, longest_time_symbol))
