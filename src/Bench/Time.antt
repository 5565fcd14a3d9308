-- ===== src/Bench/Time.antt =====
-- `Time` of include/shclog/bench/time.hpp, which samples into an unsigned integer type of `limit` values.
-- Times are ticks; what the clock reads is an argument. A steady clock does not go back, so that no
-- difference is negative; a target duration of `ratio` ticks cuts it down.
use shclog.Prelude.{ℕ, ◌+◌, ◌-◌, ◌/◌, ◌<◌, ◌≡◌, Bool, true, not, ltb, ◌==◌, refl, arith}
use shclog.Io.Exec.{Exec, returns, ◌>>=◌}
use shclog.Io.Iouring.Ring.Requests.{int_cast}
use shclog.Bench.Sample.{Sample, PushResult, push}

pub record Time : Type 0 where
  pub t0 : ℕ

-- `SENTINEL` is the time 0.
abbrev pub stopped : Time
stopped = record { t0 = 0 }

abbrev pub start : ℕ → Time → Time
start now t = record t { t0 = now }

abbrev pub started : Time → Bool
started t = not (t.t0 == 0)

module _ (debug : Bool) (limit ratio : ℕ) where
  -- `CastTransformFn`
  unfoldable pub transform : ℕ → Exec ℕ
  unfolding int_cast
  transform n = int_cast debug limit (n / ratio)

  unfoldable pub sample : ℕ → Time → Sample → Exec (Time × Sample × PushResult)
  unfolding transform push
  sample now t s = transform (now - t.t0) >>= λ v.
      let r = push limit s v in returns (record t { t0 = 0 }, r.0, r.1)

  -- A start and a sample push the time between them, when the type holds it, and stop the timer.
  start-sample :
      (first elapsed : ℕ) (t : Time) (s : Sample)
      → elapsed / ratio < limit
      → sample (first + elapsed) (start first t) s
        ≡ returns (stopped, (push limit s (elapsed / ratio)).0, (push limit s (elapsed / ratio)).1)
  unfolding sample transform int_cast
  start-sample first elapsed t s fits =
      let held : ltb (elapsed / ratio) limit ≡ true = ground arith in
      let between : first + elapsed - first ≡ elapsed = omega arith in rw (between, held) refl
