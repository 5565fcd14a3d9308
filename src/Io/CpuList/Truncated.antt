-- ===== src/Io/CpuList/Truncated.antt =====
-- A list that the buffer of `list_cpu_cores` does not hold is cut before its line end.
use shclog.Prelude.{
  ℕ, zero, suc, ◌+◌, ◌≤◌, ◌<◌, ◌≡◌, ◌≢◌, Bool, List, [], ◌∷◌, ◌++◌, length, length-append, take,
  take-append_le, refl, ap, ◌∙◌, arith, sym, ℕ_discrete, subst,
}
use mathlib.Core.List.{append_assoc}
use shclog.Io.CpuList.{
  Outcome, ok, malformed_file, could_not_read, aborts, undefined, unfinished, ◌>>=◌, CpuCore,
  CpuFile, content, buf_size, ends_line, parse_siblings, read_core, list_from, list_cpu_cores,
}
use shclog.Io.CpuList.Listing.{path, path_of_lem}
use shclog.Io.CpuList.Fields.{Range, text, printed, Without, append-Without, text-Without}

Without-take : (mark n : ℕ) (xs : List ℕ) → Without mark xs → Without mark (take n xs)
Without-take mark zero xs h = tt
Without-take mark (suc n) [] h = tt
Without-take mark (suc n) (x ∷ xs) (e, h) = (e, Without-take mark n xs h)

printed-Without : (r : Range) (rs : List Range) → Without b'\n' (printed r rs [])
unfolding printed
printed-Without r [] = append-Without b'\n' (text r) [] (text-Without b'\n' r refl refl) tt
printed-Without r (s ∷ rs) =
    append-Without b'\n' (text r) (b',' ∷ printed s rs []) (text-Without b'\n' r refl refl)
      (refl, printed-Without s rs)

printed-append : (r : Range) (rs : List Range) (t : List ℕ) → printed r rs t ≡ printed r rs [] ++ t
unfolding printed
printed-append r [] t = sym (append_assoc (text r) [] t)
printed-append r (s ∷ rs) t =
    ap (λ (x : List ℕ). text r ++ (b',' ∷ x)) (printed-append s rs t)
    ∙ sym (append_assoc (text r) (b',' ∷ printed s rs []) t)

bind-not_ok :
    {A B : Type 0} (m : Outcome A) (f : A → Outcome B) (b : B)
    → ((a : A) → f a ≢ ok b)
    → (m >>= f) ≢ ok b
bind-not_ok (ok a) f b h = h a
bind-not_ok malformed_file f b h = λ e. cc
bind-not_ok could_not_read f b h = λ e. cc
bind-not_ok aborts f b h = λ e. cc
bind-not_ok undefined f b h = λ e. cc
bind-not_ok unfinished f b h = λ e. cc

ends_line-Without : (xs : List ℕ) → Without b'\n' xs → ends_line xs ≢ ok tt
unfolding ends_line
ends_line-Without [] h = λ e. cc
ends_line-Without (c ∷ []) (h, _) = rw h (λ e. cc)
ends_line-Without (c ∷ d ∷ cs) (h, k) = ends_line-Without (d ∷ cs) k

first-not_ok :
    {A B : Type 0} (m : Outcome A) (f : A → Outcome B) (b : B)
    → ((a : A) → m ≢ ok a)
    → (m >>= f) ≢ ok b
first-not_ok (ok a) f b h = absurd (h a refl)
first-not_ok malformed_file f b h = λ e. cc
first-not_ok could_not_read f b h = λ e. cc
first-not_ok aborts f b h = λ e. cc
first-not_ok undefined f b h = λ e. cc
first-not_ok unfinished f b h = λ e. cc

read_core-Without :
    (debug : Bool) (i : ℕ) (bytes : List ℕ) (core : CpuCore)
    → Without b'\n' bytes
    → read_core debug i bytes ≢ ok core
unfolding read_core
read_core-Without debug i bytes core h =
    bind-not_ok (parse_siblings debug (length bytes) [] bytes) _ core
      (λ siblings. first-not_ok (ends_line bytes) _ core (λ a. ends_line-Without bytes h))

-- The first bytes of a printed list that is longer than the buffer.
read_core-cut :
    (debug : Bool) (i : ℕ) (r : Range) (rs : List Range) (core : CpuCore)
    → buf_size < length (printed r rs (b'\n' ∷ []))
    → read_core debug i (take buf_size (printed r rs (b'\n' ∷ []))) ≢ ok core
read_core-cut debug i r rs core long =
    let split = printed-append r rs (b'\n' ∷ []) in
    let longer = ap length split ∙ length-append (printed r rs []) (b'\n' ∷ []) in
    rw (split, take-append_le buf_size (printed r rs []) (b'\n' ∷ []) (omega (arith, longer, long)))
      (read_core-Without debug i (take buf_size (printed r rs [])) core
        (Without-take b'\n' buf_size (printed r rs []) (printed-Without r rs)))

module _ (ranges : ℕ → Range × List Range) (debug : Bool) (stub : List ℕ) (files : List ℕ → CpuFile)
    (last : ℕ)
    (held : (i : ℕ)
      → i < last
      → files (path stub i) ≡ content (printed ((ranges i).0) ((ranges i).1) (b'\n' ∷ []))) where
  -- a processor's file, and how it is read
  abbrev list : ℕ → List ℕ
  list i = printed ((ranges i).0) ((ranges i).1) (b'\n' ∷ [])

  abbrev read : ℕ → Outcome CpuCore
  read i = read_core debug i (take buf_size (list i))

  list_from-cut :
      (rounds i j : ℕ) (cores : List CpuCore)
      → i ≤ j
      → j < last
      → j < rounds + i
      → rounds + i ≤ 10000
      → buf_size < length (list j)
      → list_from debug stub files rounds i ≢ ok cores
  unfolding list_from
  list_from-cut zero i j cores le lt here bound long = absurd (omega (arith, le, here))
  list_from-cut (suc rounds) i j cores le lt here bound long =
      rw (path_of_lem debug stub i (omega (arith, bound))) (
        rw (held i (omega (arith, le, lt))) (elim (ℕ_discrete i j) [
          | yes same ↦ first-not_ok (read i) _ cores (λ core.
              read_core-cut debug i ((ranges i).0) ((ranges i).1) core
                (subst (λ (k : ℕ). buf_size < length (list k)) (sym same) long))
          | no other ↦ bind-not_ok (read i) _ cores (λ core.
              first-not_ok (list_from debug stub files rounds (suc i)) _ cores (λ rest.
                list_from-cut rounds (suc i) j rest (omega (arith, le, other)) lt
                  (omega (arith, here)) (omega (arith, bound)) long))
        ]))

  -- When the processors up to the `last` have files with printed lists, and the list of one of the
  -- first 10000 of them is longer than the buffer of 64 bytes, the function never answers with a list
  -- of processors: it reads that file without its line end.
  pub list_cpu_cores-cut :
      (j : ℕ) (cores : List CpuCore)
      → j < last
      → j < 10000
      → buf_size < length (printed ((ranges j).0) ((ranges j).1) (b'\n' ∷ []))
      → list_cpu_cores debug stub files ≢ ok cores
  unfolding list_cpu_cores
  list_cpu_cores-cut j cores lt few long =
      list_from-cut 10000 0 j cores (omega arith) lt (omega (arith, few)) (omega arith) long
