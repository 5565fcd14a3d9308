-- ===== src/Cast/Examples.antt =====
-- Casts at concrete values.
use shclog.Prelude.{◌^◌, ◌<◌, ◌≡◌, false, true, if◌then◌else◌, refl, arith}
use shclog.Prelude.Int.{pos, negsuc}
use shclog.Io.Exec.{returns, aborts}
use shclog.Cast.{unsigned, signed, in_range, int_cast, ptr_from_int}
use shclog.Cast.Floating
use shclog.Cast.Floating.Exact.{pow_mono, int_cast-cuts}
use shclog.Cast.Floating.{finite, cut}

-- -1 as a `u8` is 255 in a release build, and stops a debug build.
release_wraps : int_cast false (unsigned 8) (signed 31) (negsuc 0) ≡ returns (pos 255)
unfolding int_cast
release_wraps = refl

debug_stops : int_cast true (unsigned 8) (signed 31) (negsuc 0) ≡ aborts
unfolding int_cast
debug_stops = refl

null_stops : ptr_from_int true 8 0 ≡ aborts
unfolding ptr_from_int
null_stops = refl

-- -0.5 as a `u32` is 0, and 2^32 stops a debug build.
half_below_zero : Floating.int_cast true 1024 (unsigned 32) (finite true 0 true) ≡ returns (pos 0)
unfolding Floating.int_cast
half_below_zero = refl

int_cast-cuts_example :
    (Floating.int_cast true 1024 (unsigned 32) (finite false 4_294_967_296 false) ≡ (
      if Floating.guard 1024 (unsigned 32) (finite false 4_294_967_296 false)
      then returns (cut (finite false 4_294_967_296 false))
      else aborts))
    × (Floating.guard 1024 (unsigned 32) (finite true 7 false)
        ≡ in_range (unsigned 32) (cut (finite true 7 false)))
int_cast-cuts_example =
    int_cast-cuts 1024 (unsigned 32) (finite false 4_294_967_296 false) true 7 (omega arith) large
      (omega arith)
  where
    large : 4_294_967_296 < 2 ^ 1024
    large = omega (arith, pow_mono 33 1024 (omega arith))
