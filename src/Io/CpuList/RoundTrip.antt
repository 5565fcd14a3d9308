-- ===== src/Io/CpuList/RoundTrip.antt =====
-- The parser reads back the lists that the kernel prints, and runs past one without a line end.
use shclog.Prelude.{
  ℕ, zero, suc, ◌≤◌, ◌≡◌, Bool, List, [], ◌∷◌, ◌++◌, length, length-append, refl, sym, ap, subst,
  ◌∙◌, arith,
}
use mathlib.Core.List.{append_assoc, append-nil}
use shclog.Decimal.{to_chars, Begins, to_chars-Begins}
use shclog.Io.CpuList.{
  Outcome, ok, ◌>>=◌, split_comma, parse_field, overrun, parse_siblings, ends_line, read_core,
}
use shclog.Io.CpuList.Fields.{
  Range, single, span, Valid, AllValid, text, items, printed, expanded, text-Without,
  split_comma-append, Stops, parse_field-text,
}

cons_of_Begins : (xs : List ℕ) → Begins xs → (c : ℕ) × (ds : List ℕ) × (xs ≡ c ∷ ds)
cons_of_Begins [] b = absurd b
cons_of_Begins (c ∷ ds) b = (c, ds, refl)

text-ne-nil : (r : Range) (cs : List ℕ) → (c : ℕ) × (ds : List ℕ) × (text r ++ cs ≡ c ∷ ds)
unfolding text
text-ne-nil (single n) cs = cons_of_Begins (to_chars n ++ cs) (to_chars-Begins n cs)
text-ne-nil (span lo hi) cs = cons_of_Begins ((to_chars lo ++ (b'-' ∷ to_chars hi)) ++ cs) (
    subst Begins (sym (append_assoc (to_chars lo) (b'-' ∷ to_chars hi) cs))
      (to_chars-Begins lo (b'-' ∷ (to_chars hi ++ cs))))

printed-ne-nil :
    (r : Range) (rs : List Range) (t : List ℕ) → (c : ℕ) × (ds : List ℕ) × (printed r rs t ≡ c ∷ ds)
unfolding printed
printed-ne-nil r [] t = text-ne-nil r t
printed-ne-nil r (s ∷ rs) t = text-ne-nil r (b',' ∷ printed s rs t)

module _ (debug : Bool) where
  -- What follows a field.
  abbrev next_round : ℕ → List ℕ → List ℕ × List ℕ → Outcome (List ℕ)
  next_round fuel acc r = elim (r.1) [
    | [] ↦ overrun debug
    | d ∷ rest ↦ parse_siblings debug fuel (acc ++ r.0) rest
  ]

  one_round :
      (fuel : ℕ) (acc xs : List ℕ) (c : ℕ) (ds : List ℕ)
      → xs ≡ c ∷ ds
      → parse_siblings debug (suc fuel) acc xs
        ≡ (parse_field ((split_comma xs).0) ((split_comma xs).1) >>= next_round fuel acc)
  unfolding parse_siblings
  one_round fuel acc xs c ds e = rw e refl

  -- A range at the front, with what is left of its field and what is behind it.
  range_round :
      (fuel : ℕ) (acc : List ℕ) (r : Range) (cs : List ℕ)
      → Valid r
      → Stops ((split_comma cs).0)
      → parse_siblings debug (suc fuel) acc (text r ++ cs)
        ≡ next_round fuel acc (items r, (split_comma cs).0 ++ (split_comma cs).1)
  range_round fuel acc r cs v st =
      let (c, ds, e) = text-ne-nil r cs in
      one_round fuel acc (text r ++ cs) c ds e
      ∙ rw
          (
            split_comma-append (text r) cs (text-Without b',' r refl refl),
            parse_field-text r ((split_comma cs).0) ((split_comma cs).1) v st,
          )
          refl

  next_assoc :
      (fuel : ℕ) (acc a b t : List ℕ)
      → next_round fuel (acc ++ a) (b, t) ≡ next_round fuel acc (a ++ b, t)
  next_assoc fuel acc a b [] = refl
  next_assoc fuel acc a b (d ∷ rest) =
      ap (λ xs. parse_siblings debug fuel xs rest) (append_assoc acc a b)

  -- The end of the list: bytes without a comma that are no range.
  module _ (t : List ℕ) (alone : split_comma t ≡ (t, [])) (stops : Stops t) where
    parse-printed :
        (fuel : ℕ) (acc : List ℕ) (r : Range) (rs : List Range)
        → length (printed r rs t) ≤ fuel
        → Valid r
        → AllValid rs
        → (out : Outcome (List ℕ)) → ((m : ℕ) → next_round m acc (expanded r rs, t) ≡ out)
        → parse_siblings debug fuel acc (printed r rs t) ≡ out
    unfolding printed split_comma
    parse-printed zero acc r rs len v vs out last =
        let (c, ds, e) = printed-ne-nil r rs t in absurd (omega (arith, ap length e))
    parse-printed (suc fuel) acc r [] len v vs out last =
        range_round fuel acc r t v
          (subst Stops (sym (ap (λ (x : List ℕ × List ℕ). x.0) alone)) stops)
        ∙ ap (λ (x : List ℕ × List ℕ). next_round fuel acc (items r, x.0 ++ x.1)) alone
        ∙ ap (λ xs. next_round fuel acc (items r, xs)) (append-nil t)
        ∙ last fuel
    parse-printed (suc fuel) acc r (s ∷ rs) len v (w, vs) out last =
        range_round fuel acc r (b',' ∷ printed s rs t) v tt
        ∙ parse-printed fuel (acc ++ items r) s rs
            (omega (arith, len, length-append (text r) (b',' ∷ printed s rs t))) w vs out
            (λ m. next_assoc m acc (items r) (expanded s rs) t ∙ last m)

ends_line-append :
    (xs : List ℕ) (c : ℕ) (ys : List ℕ) → ends_line (xs ++ (c ∷ ys)) ≡ ends_line (c ∷ ys)
unfolding ends_line
ends_line-append [] c ys = refl
ends_line-append (x ∷ []) c ys = refl
ends_line-append (x ∷ y ∷ xs) c ys = ends_line-append (y ∷ xs) c ys

ends_line-cons :
    (c : ℕ) (xs : List ℕ) (d : ℕ) (ds : List ℕ) → xs ≡ d ∷ ds → ends_line (c ∷ xs) ≡ ends_line xs
unfolding ends_line
ends_line-cons c xs d ds e = rw e refl

ends_line-printed :
    (r : Range) (rs : List Range) (c : ℕ) (t : List ℕ)
    → ends_line (printed r rs (c ∷ t)) ≡ ends_line (c ∷ t)
unfolding printed
ends_line-printed r [] c t = ends_line-append (text r) c t
ends_line-printed r (s ∷ rs) c t =
    let (d, ds, e) = printed-ne-nil s rs (c ∷ t) in
    ends_line-append (text r) b',' (printed s rs (c ∷ t))
    ∙ ends_line-cons b',' (printed s rs (c ∷ t)) d ds e
    ∙ ends_line-printed s rs c t

-- A list of the kernel's form, with its line end, is read as the processors it stands for, in their
-- order, when every number is in the range of a `usize` and no range has the largest one as a bound.
pub read_core-printed :
    (debug : Bool) (i : ℕ) (r : Range) (rs : List Range)
    → Valid r
    → AllValid rs
    → read_core debug i (printed r rs (b'\n' ∷ []))
      ≡ ok (record { core_idx = i; siblings = expanded r rs })
unfolding read_core ends_line
read_core-printed debug i r rs v vs =
    rw
      (
        parse-printed debug (b'\n' ∷ []) refl (refl, refl) (length (printed r rs (b'\n' ∷ []))) [] r
            rs (omega arith) v vs (ok (expanded r rs)) (λ m. refl),
        ends_line-printed r rs b'\n' [],
      )
      refl
