-- ===== src/Bench/Sample/Totals.antt =====
-- After any pushes a sample answers with the values that it kept.
use shclog.Prelude.{
  ℕ, suc, ◌-◌, ◌≤◌, ◌<◌, ◌≡◌, min, Bool, false, leb, none, some, List, [], ◌∷◌, ◌++◌, length, take,
  length-append, length-set, arith, refl, ap, ap₂, sym, ◌==◌, if◌then◌else◌, ◌∙◌, subst, dec_lt,
  le→leb, lt→leb_false,
}
use mathlib.Core.List.{append-nil}
use shclog.Math.{Checked}
use shclog.Bench.Sample.{
  Sample, PushResult, success, buffer_full, push, push_all, span, min_of, max_of, total, make,
  empty_sample,
}
use shclog.Bench.Sample.Running.{
  smallest, largest, sum_of, smallest-append_one, largest-append_one, take-set_end,
  append_one_append, take_nil, Holds, add_total-IsTotal,
}

push_full :
    (limit : ℕ) (s : Sample) (v : ℕ)
    → length s.samples ≤ s.count
    → push limit s v ≡ (s, buffer_full)
unfolding push
push_full limit s v h = rw (le→leb (length s.samples) s.count h) refl

-- A push onto a sample with room is kept, and answers success.
pub push-Holds :
    (limit room : ℕ) (xs : List ℕ) (s : Sample) (v : ℕ)
    → 0 < limit
    → Holds limit room xs s
    → length xs < room
    → ((push limit s v).1 ≡ success) × Holds limit room (xs ++ (v ∷ [])) ((push limit s v).0)
unfolding push
push-Holds limit room xs s v p (len, cnt, cont, lo, hi, tot) h =
    let free : leb (length s.samples) s.count ≡ false =
      lt→leb_false (length s.samples) s.count (omega arith) in
    rw free (
      refl,
      (
        length-set s.samples s.count v ∙ len,
        omega (arith, length-append xs (v ∷ [])),
        take-set_end s.samples s.count v (omega arith) ∙ ap (λ r. r ++ (v ∷ [])) cont,
        omega (arith, smallest-append_one (limit - 1) xs v),
        omega (arith, largest-append_one xs v),
        add_total-IsTotal limit xs s.sum v p tot,
      ),
    )

-- After any pushes the sample holds the values that came while there was room.
pub push_all-Holds :
    (limit room : ℕ) (vs xs : List ℕ) (s : Sample)
    → 0 < limit
    → Holds limit room xs s
    → Holds limit room (xs ++ take (room - length xs) vs) (push_all limit s vs)
unfolding push_all
push_all-Holds limit room [] xs s p h =
    subst (λ ys. Holds limit room ys s)
      (sym (ap (λ r. xs ++ r) (take_nil (room - length xs)) ∙ append-nil xs)) h
push_all-Holds limit room (v ∷ vs) xs s p h = elim (dec_lt (length xs) room) [
  | yes free ↦
      subst (λ ys. Holds limit room ys (push_all limit ((push limit s v).0) vs))
        (append_one_append xs v (take (room - length (xs ++ (v ∷ []))) vs)
          ∙ ap (λ r. xs ++ r) (sym (ap (λ (k : ℕ). take k (v ∷ vs)) (one_more free))))
        (push_all-Holds limit room vs (xs ++ (v ∷ [])) ((push limit s v).0) p
          ((push-Holds limit room xs s v p h free).1))
  | no full ↦
      subst
        (λ (t : Sample).
          Holds limit room (xs ++ take (room - length xs) (v ∷ vs)) (push_all limit t vs))
        (sym (ap (λ (r : Sample × PushResult). r.0) (push_full limit s v (omega arith))))
        (subst (λ ys. Holds limit room ys (push_all limit s vs))
          (ap (λ (k : ℕ). xs ++ take k vs) (none_left full)
            ∙ sym (ap (λ (k : ℕ). xs ++ take k (v ∷ vs)) (none_left full)))
          (push_all-Holds limit room vs xs s p h))
]
  where
    one_more : length xs < room → room - length xs ≡ suc (room - length (xs ++ (v ∷ [])))
    one_more free = omega (arith, length-append xs (v ∷ []))

    none_left : ¬ (length xs < room) → room - length xs ≡ 0
    none_left full = omega arith

-- What the sample answers about the values that it holds.
abbrev pub Reports : (limit : ℕ) → List ℕ → Sample → Type 0
Reports limit xs s =
    (span s ≡ xs)
    × (min_of s ≡ (if length xs == 0 then none else some (smallest (limit - 1) xs)))
    × (max_of s ≡ (if length xs == 0 then none else some (largest xs)))
    × (total s ≡ (
        if length xs == 0
        then none
        else some
            (record { value = min (sum_of xs) (limit - 1); overflow = leb limit (sum_of xs) })))

Holds-Reports :
    (limit room : ℕ) (xs : List ℕ) (s : Sample) → Holds limit room xs s → Reports limit xs s
unfolding span min_of max_of total
Holds-Reports limit room xs s (len, cnt, cont, lo, hi, (o, e)) =
    let counted = ap (λ (c : ℕ). c == 0) cnt in
    let summed : s.sum
        ≡ record { value = min (sum_of xs) (limit - 1); overflow = leb limit (sum_of xs) } =
      ap₂ (λ (a : ℕ) (b : Bool). record { value = a; overflow = b }) e o in
    (
      cont,
      ap₂ (λ (c : Bool) (a : ℕ). if c then none else some a) counted lo,
      ap₂ (λ (c : Bool) (a : ℕ). if c then none else some a) counted hi,
      ap₂ (λ (c : Bool) (a : Checked). if c then none else some a) counted summed,
    )

-- A sample on a buffer holds the first values, as many as the buffer has room for.
pub push_all-Holds_new :
    (limit : ℕ) (buffer vs : List ℕ)
    → 0 < limit
    → Holds limit
        (length buffer)
        (take (length buffer) vs)
        (push_all limit (empty_sample limit buffer) vs)
push_all-Holds_new limit buffer vs p =
    subst
      (λ (k : ℕ).
        Holds limit (length buffer) (take k vs) (push_all limit (empty_sample limit buffer) vs))
      (omega arith)
      (push_all-Holds limit (length buffer) vs [] (empty_sample limit buffer) p
        (refl, refl, refl, refl, refl, (sym (lt→leb_false limit 0 p), omega arith)))

-- A sample made on a buffer, after any pushes, answers with the values that came while the buffer
-- had room: their list, their least and greatest, and their sum, held at the largest value of the
-- type and flagged once it does not fit; without values the last three are the error of an empty
-- sample.
pub push_all-Reports :
    (limit : ℕ) (buffer vs : List ℕ)
    → 0 < limit
    → (s : Sample) × (make limit (some buffer) ≡ some s)
      × Reports limit (take (length buffer) vs) (push_all limit s vs)
unfolding make
push_all-Reports limit buffer vs p = (
  empty_sample limit buffer,
  refl,
  Holds-Reports limit (length buffer) (take (length buffer) vs)
      (push_all limit (empty_sample limit buffer) vs) (push_all-Holds_new limit buffer vs p),
)
