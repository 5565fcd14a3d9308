-- ===== src/Bench/Report/Signed/Examples.antt =====
-- Signed values in the scale of times.
use shclog.Prelude.{◌^◌, ◌≡◌, ◌≢◌, true, some, ◌∷◌, [], ◌++◌, length, drop, replicate, refl, arith}
use shclog.Prelude.Int.{negsuc}
use shclog.Cast.{signed, in_range}
use shclog.Decimal.{to_chars}
use shclog.Io.Exec.{returns}
use shclog.Bench.Report
use shclog.Bench.Report.{ratio}
use shclog.Bench.TimeScale.{nanoseconds, milliseconds, time_scale, time_scale-IsLawful}
use shclog.Bench.Report.Write.{repr_max_len}
use shclog.Bench.Report.Signed.{fit, write_value}
use shclog.Bench.Report.Signed.Text.{signed_text, write_value-signed_text}

-- -1 590 000 ns are -1.5 ms.
fit_runs :
    fit time_scale 63 (negsuc 1_589_999) nanoseconds
    ≡ some (record { whole = negsuc 0; tenth = 5; measure = milliseconds })
unfolding fit shclog.Bench.TimeScale.scale shclog.Bench.TimeScale.index
    shclog.Bench.TimeScale.at_index
fit_runs = refl

write_runs :
    write_value true time_scale 63 (negsuc 1_589_999) nanoseconds (replicate 8 0)
    ≡ returns (some (b'-' ∷ b'1' ∷ b'.' ∷ b'5' ∷ b' ' ∷ b'm' ∷ b's' ∷ 0 ∷ [], 7))
unfolding write_value to_chars shclog.Bench.TimeScale.scale shclog.Bench.TimeScale.index
    shclog.Bench.TimeScale.at_index shclog.Bench.TimeScale.symbol
write_runs = refl

held : in_range (signed 63) (negsuc 1_589_999) ≡ true
unfolding in_range
held = refl

ratio_chosen :
    ratio time_scale nanoseconds (Report.biggest_unit_fit time_scale 1_590_000 nanoseconds)
    ≡ 1_000_000
unfolding ratio Report.biggest_unit_fit shclog.Bench.TimeScale.scale shclog.Bench.TimeScale.index
    shclog.Bench.TimeScale.at_index
ratio_chosen = refl

ratio_other :
    ratio time_scale nanoseconds (Report.biggest_unit_fit time_scale 1_590_000 nanoseconds) ≢ 2 ^ 63
ratio_other = omega (arith, ratio_chosen)

longest : repr_max_len time_scale 18 ≡ 24
unfolding repr_max_len shclog.Bench.TimeScale.index shclog.Bench.TimeScale.at_index
    shclog.Bench.TimeScale.symbol
longest = refl

write_value-signed_text_example :
    (x : Report.ValueInUnit (time_scale.Measure)) × (Report.fit time_scale
        (2 ^ 64)
        1_590_000
        nanoseconds
      ≡ some x)
    × (write_value true time_scale 63 (negsuc 1_589_999) nanoseconds (replicate 24 0)
        ≡ returns (
            some (
              signed_text time_scale (negsuc 1_589_999) x
                  ++ drop (length (signed_text time_scale (negsuc 1_589_999) x)) (replicate 24 0),
              length (signed_text time_scale (negsuc 1_589_999) x),
            )))
write_value-signed_text_example =
    write_value-signed_text true time_scale 63 18 (negsuc 1_589_999) nanoseconds (replicate 24 0)
      time_scale-IsLawful (omega arith) (omega arith) held ratio_other (omega (arith, longest))
