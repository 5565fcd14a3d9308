-- ===== src/Bench/Sample/Percentile/History.antt =====
-- A percentile after any pushes and earlier percentiles.
use shclog.Prelude.{
  ℕ, ◌-◌, ◌^◌, ◌≤◌, ◌<◌, ◌≡◌, Bool, true, false, leb, ltb, ◌==◌, if◌then◌else◌, List, [], ◌∷◌, ◌++◌,
  length, refl, arith, Bool-cases, inl, inr, dec_lt,
}
use shclog.Io.Exec.{Exec, returns, Expected, value, unexpected, ◌>>=◌}
use shclog.Bench.Sample.{Sample, push, span, empty_sample}
use shclog.Bench.Sample.Percentile.{
  Floats, PercentileError, invalid_percentile, empty_samples, percentile,
}
use shclog.Bench.Sample.Percentile.Ranks.{
  Sorts, Kept, HasRank, percentile-HasRank, push-Kept, Kept-count,
}

pub data Use (F : Type 0) : Type 0 where
  pushes : ℕ → Use F
  asks : F → Use F

-- The values that came while there was room.
abbrev pub accepted : {F : Type 0} → (room : ℕ) → List ℕ → List (Use F) → List ℕ
accepted room xs [] = xs
accepted room xs (pushes v ∷ us) =
    accepted room (if ltb (length xs) room then xs ++ (v ∷ []) else xs) us
accepted room xs (asks p ∷ us) = accepted room xs us

-- An index that is in range stays so, as far as a double counts exactly.
abbrev pub StaysBelow : Floats → Type 0
StaysBelow floats =
    (p : floats.F64) (n : ℕ) → floats.is_invalid p ≡ false → n < 2 ^ 53 → floats.scaled p n ≤ n

module _ (debug : Bool) (sort : List ℕ → List ℕ) (floats : Floats) (limit : ℕ) where
  unfoldable pub use_all : Sample → List (Use floats.F64) → Exec Sample
  unfolding push percentile
  use_all s [] = returns s
  use_all s (pushes v ∷ us) = use_all ((push limit s v).0) us
  use_all s (asks p ∷ us) = percentile debug sort floats p s >>= λ r. use_all (r.0) us

  module _ (sorts : Sorts sort) (below : StaysBelow floats) (room : ℕ) (few : room < 2 ^ 53) where
    push-Kept_any :
        (xs : List ℕ) (s : Sample) (v : ℕ)
        → Kept room xs s
        → Kept room (if ltb (length xs) room then xs ++ (v ∷ []) else xs) ((push limit s v).0)
    unfolding push
    push-Kept_any xs s v k = elim (dec_lt (length xs) room) [
      | yes l ↦
          let free : ltb (length xs) room ≡ true = ground arith in
          rw free (push-Kept limit room xs s v k (omega (arith, k.0, Kept-count room xs s k)))
      | no g ↦
          let full : ltb (length xs) room ≡ false = ground arith in
          let refused : leb (length s.samples) s.count ≡ true =
            (let c = Kept-count room xs s k in let e = k.0 in ground arith) in
          rw (full, refused) k
    ]

    percentile-Kept :
        (p : floats.F64) (xs : List ℕ) (s : Sample)
        → Kept room xs s
        → (r : Sample × Expected ℕ PercentileError) × (percentile debug sort floats p s ≡ returns r)
          × Kept room xs (r.0)
    unfolding percentile
    percentile-Kept p xs s k = elim (Bool-cases (floats.is_invalid p)) [
      | inl e ↦ ((s, unexpected invalid_percentile), rw (e, percentile) refl, k)
      | inr e ↦ elim (Bool-cases (s.count == 0)) [
        | inl z ↦ ((s, unexpected empty_samples), rw (e, z, percentile) refl, k)
        | inr z ↦
            let c = Kept-count room xs s k in
            let some_value : 0 < length xs = ground arith in
            let (t, v, done, rank, kept) =
              percentile-HasRank debug sort floats p room xs s sorts e some_value
                (below p (length xs - 1) e (omega (arith, few, c, k.0, k.1))) k in
            ((t, value v), done, kept)
      ]
    ]

    use_all-Kept :
        (us : List (Use floats.F64)) (xs : List ℕ) (s : Sample)
        → Kept room xs s
        → (t : Sample) × (use_all s us ≡ returns t) × Kept room (accepted room xs us) t
    unfolding use_all
    use_all-Kept [] xs s k = (s, refl, k)
    use_all-Kept (pushes v ∷ us) xs s k =
        use_all-Kept us (if ltb (length xs) room then xs ++ (v ∷ []) else xs) ((push limit s v).0)
          (push-Kept_any xs s v k)
    use_all-Kept (asks p ∷ us) xs s k =
        let (r, done, kept) = percentile-Kept p xs s k in
        let (t, e, after) = use_all-Kept us xs (r.0) kept in (t, rw (done, use_all) e, after)

    -- After any pushes and percentiles on a fresh sample the next percentile answers with one of the
    -- values that came while the buffer had room: as many of them as its index are smaller at most, and
    -- more are not greater. `sort` sorts, the buffer has fewer than 2^53 slots, a valid argument scales
    -- an index below 2^53 to one that is not greater, this argument is valid, and a value was pushed.
    pub use_all-HasRank :
        (buffer : List ℕ) (us : List (Use floats.F64)) (p : floats.F64)
        → length buffer ≡ room
        → floats.is_invalid p ≡ false
        → 0 < length (accepted room [] us)
        → (t : Sample) × (v : ℕ) × ((use_all (empty_sample limit buffer) us
              >>= percentile debug sort floats p)
            ≡ returns (t, value v))
          × HasRank (accepted room [] us) (floats.scaled p (length (accepted room [] us) - 1)) v
    unfolding span
    use_all-HasRank buffer us p size valid some_value =
        let (s, e, k) =
          use_all-Kept us [] (empty_sample limit buffer)
            (size, omega arith, (λ q. refl), λ d. absurd (let c : false ≡ true = d in cc)) in
        let c = Kept-count room (accepted room [] us) s k in
        let (t, v, done, rank, kept) =
          percentile-HasRank debug sort floats p room (accepted room [] us) s sorts valid some_value
            (below p _ valid (omega (arith, few, c, k.0, k.1))) k in
        (t, v, rw (e, ◌>>=◌) done, rank)
