-- ===== src/Bench/ByteScale.antt =====
-- `ByteScale` of include/shclog/bench/report.hpp.
use shclog.Prelude.{ℕ, zero, suc, ◌^◌, ◌≤◌, ◌<◌, ◌≡◌, refl, arith, List, [], ◌∷◌}
use shclog.Bench.Report.{UnitScale, IsLawful, unit_scales_fit, each_divides}

pub data ByteMeasure : Type 0 where
  bytes kibibytes mebibytes gibibytes tebibytes pebibytes exbibytes : ByteMeasure

unfoldable pub index : ByteMeasure → ℕ
index bytes = 0
index kibibytes = 1
index mebibytes = 2
index gibibytes = 3
index tebibytes = 4
index pebibytes = 5
index exbibytes = 6

-- the `static_cast`, whose argument is at most that of `exbibytes`
unfoldable pub at_index : ℕ → ByteMeasure
at_index zero = bytes
at_index (suc zero) = kibibytes
at_index (suc (suc zero)) = mebibytes
at_index (suc (suc (suc zero))) = gibibytes
at_index (suc (suc (suc (suc zero)))) = tebibytes
at_index (suc (suc (suc (suc (suc zero))))) = pebibytes
at_index _ = exbibytes

unfoldable pub scale : ByteMeasure → ℕ
scale bytes = 1
scale kibibytes = 2 ^ 10
scale mebibytes = 2 ^ 20
scale gibibytes = 2 ^ 30
scale tebibytes = 2 ^ 40
scale pebibytes = 2 ^ 50
scale exbibytes = 2 ^ 60

-- The bytes of "B", "KiB", "MiB", "GiB", "TiB", "PiB" and "EiB".
unfoldable pub symbol : ByteMeasure → List ℕ
symbol bytes = 66 ∷ []
symbol kibibytes = 75 ∷ 105 ∷ 66 ∷ []
symbol mebibytes = 77 ∷ 105 ∷ 66 ∷ []
symbol gibibytes = 71 ∷ 105 ∷ 66 ∷ []
symbol tebibytes = 84 ∷ 105 ∷ 66 ∷ []
symbol pebibytes = 80 ∷ 105 ∷ 66 ∷ []
symbol exbibytes = 69 ∷ 105 ∷ 66 ∷ []

abbrev pub byte_scale : UnitScale
byte_scale = record {
  Measure = ByteMeasure;
  to_underlying = index;
  from = at_index;
  last = exbibytes;
  scale = scale;
  symbol = symbol;
}

at_index-index : (u : ByteMeasure) → at_index (index u) ≡ u
unfolding index at_index
at_index-index bytes = refl
at_index-index kibibytes = refl
at_index-index mebibytes = refl
at_index-index gibibytes = refl
at_index-index tebibytes = refl
at_index-index pebibytes = refl
at_index-index exbibytes = refl

scale_pos : (u : ByteMeasure) → 0 < scale u
unfolding scale
scale_pos bytes = omega arith
scale_pos kibibytes = omega arith
scale_pos mebibytes = omega arith
scale_pos gibibytes = omega arith
scale_pos tebibytes = omega arith
scale_pos pebibytes = omega arith
scale_pos exbibytes = omega arith

index_le : (u : ByteMeasure) → index u ≤ index exbibytes
unfolding index
index_le bytes = omega arith
index_le kibibytes = omega arith
index_le mebibytes = omega arith
index_le gibibytes = omega arith
index_le tebibytes = omega arith
index_le pebibytes = omega arith
index_le exbibytes = omega arith

index-at_index : (i : ℕ) → i ≤ index exbibytes → index (at_index i) ≡ i
unfolding index at_index
index-at_index zero h = refl
index-at_index (suc zero) h = refl
index-at_index (suc (suc zero)) h = refl
index-at_index (suc (suc (suc zero))) h = refl
index-at_index (suc (suc (suc (suc zero)))) h = refl
index-at_index (suc (suc (suc (suc (suc zero))))) h = refl
index-at_index (suc (suc (suc (suc (suc (suc i)))))) h = omega arith

pub byte_scale-IsLawful : IsLawful byte_scale
unfolding unit_scales_fit each_divides scale index at_index
byte_scale-IsLawful = record {
  from-to_underlying = at_index-index;
  to_underlying-from = index-at_index;
  bounded = index_le;
  fits = refl;
  positive = scale_pos;
}
