-- ===== src/Bench/Sample/Percentile/Ranks.antt =====
-- A percentile is the sample of its rank, and leaves the samples a rearrangement of those pushed.
use shclog.Prelude.{
  ℕ, zero, suc, ◌+◌, ◌-◌, ◌≤◌, ◌<◌, ◌≡◌, Bool, true, false, leb, ltb, ◌==◌, if◌then◌else◌, Option,
  none, some, List, [], ◌∷◌, ◌++◌, length, take, drop, get_elem?, refl, sym, ap, subst, ◌∙◌, arith,
  Bool-cases, inl, inr, length-append, length-take, length-set, length-drop,
}
use shclog.Io.Exec.{returns, value}
use shclog.Bench.Sample.{Sample, push, span}
use shclog.Bench.Sample.Running.{take-set_end}
use shclog.Bench.Sample.Percentile.{Floats, element, sort_samples, percentile}

abbrev pub how_many : (ℕ → Bool) → List ℕ → ℕ
how_many p [] = 0
how_many p (x ∷ xs) = (if p x then 1 else 0) + how_many p xs

-- Each list holds every value as often as the other does.
abbrev pub Rearranges : List ℕ → List ℕ → Type 0
Rearranges xs ys = (p : ℕ → Bool) → how_many p xs ≡ how_many p ys

how_many_all : (xs : List ℕ) → how_many (λ _. true) xs ≡ length xs
how_many_all [] = refl
how_many_all (x ∷ xs) = omega (arith, how_many_all xs)

Rearranges-length : (xs ys : List ℕ) → Rearranges xs ys → length xs ≡ length ys
Rearranges-length xs ys r = sym (how_many_all xs) ∙ r (λ _. true) ∙ how_many_all ys

how_many-append :
    (p : ℕ → Bool) (xs ys : List ℕ) → how_many p (xs ++ ys) ≡ how_many p xs + how_many p ys
how_many-append p [] ys = omega arith
how_many-append p (x ∷ xs) ys = omega (arith, how_many-append p xs ys)

abbrev pub IsFloor : ℕ → List ℕ → Type 0
IsFloor a [] = Unit {0}
IsFloor a (x ∷ xs) = (a ≤ x) × IsFloor a xs

abbrev pub IsAscending : List ℕ → Type 0
IsAscending [] = Unit {0}
IsAscending (x ∷ xs) = IsFloor x xs × IsAscending xs

-- At most `i` of the samples are smaller than `v`, and more than `i` are not greater.
abbrev pub HasRank : List ℕ → ℕ → ℕ → Type 0
HasRank xs i v = (how_many (λ x. ltb x v) xs ≤ i) × (i < how_many (λ x. leb x v) xs)

none_below : (a : ℕ) (xs : List ℕ) → IsFloor a xs → how_many (λ x. ltb x a) xs ≡ 0
none_below a [] h = refl
none_below a (x ∷ xs) (l, h) =
    let no : ltb x a ≡ false = ground arith in rw no (omega (arith, none_below a xs h))

IsFloor-get : (a : ℕ) (xs : List ℕ) (i v : ℕ) → IsFloor a xs → get_elem? xs i ≡ some v → a ≤ v
IsFloor-get a [] i v h e = absurd (let e' : ◌≡◌ {A = Option ℕ} none (some v) = e in cc)
IsFloor-get a (x ∷ xs) zero v (l, h) e =
    let same = ap {B = ℕ} (λ (o : Option ℕ). elim o [ none ↦ 0 | some w ↦ w ]) e in
    omega (arith, l, same)
IsFloor-get a (x ∷ xs) (suc i) v (l, h) e = IsFloor-get a xs i v h e

at_most_one :
    (x v : ℕ) (xs : List ℕ) (i : ℕ)
    → how_many (λ y. ltb y v) xs ≤ i
    → how_many (λ y. ltb y v) (x ∷ xs) ≤ suc i
at_most_one x v xs i low = elim (Bool-cases (ltb x v)) [
  | inl e ↦ rw e (omega (arith, low))
  | inr e ↦ rw e (omega (arith, low))
]

IsAscending-rank :
    (xs : List ℕ) (i : ℕ)
    → IsAscending xs
    → i < length xs
    → (v : ℕ) × (get_elem? xs i ≡ some v) × HasRank xs i v
IsAscending-rank [] i h l = absurd (omega (arith, l))
IsAscending-rank (x ∷ xs) zero (f, h) l =
    let itself : leb x x ≡ true = ground arith in
    let below : ltb x x ≡ false = ground arith in
    (x, refl, (rw below (omega (arith, none_below x xs f)), rw itself (omega arith)))
IsAscending-rank (x ∷ xs) (suc i) (f, h) l =
    let (v, e, (low, high)) = IsAscending-rank xs i h (omega (arith, l)) in
    let before : leb x v ≡ true = (let le = IsFloor-get x xs i v f e in ground arith) in
    (v, e, (at_most_one x v xs i low, rw before (omega (arith, high))))

-- What a sample holds of the values pushed while its buffer, of `room` slots, had room.
abbrev pub Kept : (room : ℕ) → List ℕ → Sample → Type 0
Kept room xs s =
    (length s.samples ≡ room)
    × (s.count ≤ length s.samples)
    × Rearranges (span s) xs
    × (s.samples_sorted ≡ true → IsAscending (span s))

take-append : (n : ℕ) (ys zs : List ℕ) → length ys ≡ n → take n (ys ++ zs) ≡ ys
take-append zero [] zs e = refl
take-append zero (y ∷ ys) zs e = absurd (omega (arith, e))
take-append (suc n) [] zs e = absurd (omega (arith, e))
take-append (suc n) (y ∷ ys) zs e = ap (◌∷◌ y) (take-append n ys zs (omega (arith, e)))

get_elem?-take : (xs : List ℕ) (n i : ℕ) → i < n → get_elem? (take n xs) i ≡ get_elem? xs i
get_elem?-take xs zero i h = absurd (omega (arith, h))
get_elem?-take [] (suc n) i h = refl
get_elem?-take (x ∷ xs) (suc n) zero h = refl
get_elem?-take (x ∷ xs) (suc n) (suc i) h = get_elem?-take xs n i (omega (arith, h))

length-span : (s : Sample) → s.count ≤ length s.samples → length (span s) ≡ s.count
unfolding span
length-span s h = omega (arith, length-take s.count s.samples, h)

element-get :
    (debug : Bool) (samples : List ℕ) (i v : ℕ)
    → i < length samples
    → get_elem? samples i ≡ some v
    → element debug samples i ≡ returns v
unfolding element
element-get debug samples i v h e =
    let inside : ltb i (length samples) ≡ true = ground arith in rw (inside, e) refl

-- What `std::ranges::sort` promises.
abbrev pub Sorts : (List ℕ → List ℕ) → Type 0
Sorts sort = (xs : List ℕ) → IsAscending (sort xs) × Rearranges (sort xs) xs

sort_samples-Kept :
    (debug : Bool) (sort : List ℕ → List ℕ) (room : ℕ) (xs : List ℕ) (s : Sample)
    → Sorts sort
    → Kept room xs s
    → (t : Sample) × (sort_samples debug sort s ≡ returns t)
      × (t.count ≡ s.count)
      × Kept room xs t
      × IsAscending (span t)
unfolding sort_samples span
sort_samples-Kept debug sort size xs s sorts (len, room, same, order) =
    elim (Bool-cases s.samples_sorted) [
      | inl e ↦ (s, rw e refl, refl, (len, room, same, order), order e)
      | inr e ↦
          let fits : leb s.count (length s.samples) ≡ true = ground arith in
          let long : length (sort (span s)) ≡ s.count =
            Rearranges-length (sort (span s)) (span s) ((sorts (span s)).1) ∙ length-span s room in
          let kept : take s.count (sort (span s) ++ drop s.count s.samples) ≡ sort (span s) =
            take-append s.count (sort (span s)) (drop s.count s.samples) long in
          (
            record s { samples = sort (span s) ++ drop s.count s.samples; samples_sorted = true },
            rw (e, fits) refl,
            refl,
            (
              omega (
                arith,
                length-append (sort (span s)) (drop s.count s.samples),
                long,
                len,
                length-drop s.count s.samples,
              ),
              omega (arith, length-append (sort (span s)) (drop s.count s.samples), long),
              λ p. ap (how_many p) kept ∙ (sorts (span s)).1 p ∙ same p,
              λ _. subst IsAscending (sym kept) ((sorts (span s)).0),
            ),
            subst IsAscending (sym kept) ((sorts (span s)).0),
          )
    ]

-- Nor is there a sample too many or too few.
pub Kept-count : (room : ℕ) (xs : List ℕ) (s : Sample) → Kept room xs s → s.count ≡ length xs
Kept-count room xs s (len, fits, same, order) =
    sym (length-span s fits) ∙ Rearranges-length (span s) xs same

in_span :
    (t : Sample) (i v : ℕ)
    → i < t.count
    → get_elem? (span t) i ≡ some v
    → get_elem? t.samples i ≡ some v
unfolding span
in_span t i v h e = sym (get_elem?-take t.samples t.count i h) ∙ e

-- A percentile of a sample that is not empty is one of the values pushed: as many as its index of them
-- are smaller at most, and more are not greater. The values stay, in another order. `sort` sorts, the
-- argument is valid, and its product with the last index is not greater than that index.
pub percentile-HasRank :
    (debug : Bool) (sort : List ℕ → List ℕ) (floats : Floats) (p : floats.F64) (room : ℕ)
    (xs : List ℕ) (s : Sample)
    → Sorts sort
    → floats.is_invalid p ≡ false
    → 0 < length xs
    → floats.scaled p (length xs - 1) ≤ length xs - 1
    → Kept room xs s
    → (t : Sample) × (v : ℕ) × (percentile debug sort floats p s ≡ returns (t, value v))
      × HasRank xs (floats.scaled p (length xs - 1)) v
      × Kept room xs t
unfolding percentile
percentile-HasRank debug sort floats p room xs s sorts valid some_value bound kept =
    let (t, e, count, keeps, order) = sort_samples-Kept debug sort room xs s sorts kept in
    let size : t.count ≡ length xs =
      sym (length-span t (keeps.1)) ∙ Rearranges-length (span t) xs (keeps.2) in
    let i = floats.scaled p (length xs - 1) in
    let (v, at_i, rank) =
      IsAscending-rank (span t) i order
        (omega (arith, some_value, bound, size, length-span t (keeps.1))) in
    let read : element debug t.samples (floats.scaled p (t.count - 1)) ≡ returns v =
      subst (λ (n : ℕ). element debug t.samples (floats.scaled p (n - 1)) ≡ returns v) (sym size)
        (element-get debug t.samples i v (omega (arith, some_value, bound, size, keeps.1))
          (in_span t i v (omega (arith, some_value, bound, size)) at_i)) in
    let nonempty : (s.count == 0) ≡ false = ground (arith, some_value, size, count) in
    (
      t,
      v,
      rw (valid, nonempty, e) (rw read refl),
      (
        omega (arith, rank.0, keeps.2 (λ x. ltb x v)),
        omega (arith, rank.1, keeps.2 (λ x. leb x v)),
      ),
      keeps,
    )

-- A sample with room keeps a value that is pushed.
pub push-Kept :
    (limit room : ℕ) (xs : List ℕ) (s : Sample) (v : ℕ)
    → Kept room xs s
    → s.count < length s.samples
    → Kept room (xs ++ (v ∷ [])) ((push limit s v).0)
unfolding push span
push-Kept limit size xs s v (len, room, same, order) free =
    let has_room : leb (length s.samples) s.count ≡ false = ground arith in
    let kept = take-set_end s.samples s.count v free in
    rw has_room (
      omega (arith, len, length-set s.samples s.count v),
      omega (arith, free, length-set s.samples s.count v),
      λ p.
          ap (how_many p) kept
          ∙ how_many-append p (take s.count s.samples) (v ∷ [])
          ∙ ap (λ (n : ℕ). n + how_many p (v ∷ [])) (same p)
          ∙ sym (how_many-append p xs (v ∷ [])),
      λ e. absurd (let d : false ≡ true = e in cc),
    )
