-- ===== src/Io/CpuList/Listing.antt =====
-- The files of all the processors, from the first one on.
use shclog.Prelude.{
  ℕ, zero, suc, ◌+◌, ◌≤◌, ◌<◌, ◌≡◌, Bool, false, ltb, List, [], ◌∷◌, ◌++◌, length, take_all, refl,
  ap, ◌∙◌, arith,
}
use shclog.Decimal.{to_chars}
use shclog.Decimal.Places.{length-to_chars}
use shclog.Io.CpuList.{
  CpuCore, ok, CpuFile, content, missing, path_stub_end, path_of, list_from, list_cpu_cores,
  buf_size,
}
use shclog.Io.CpuList.Fields.{Range, Valid, AllValid, printed, expanded}
use shclog.Io.CpuList.RoundTrip.{read_core-printed}

abbrev pub path : List ℕ → ℕ → List ℕ
path path_stub i = path_stub ++ (to_chars i ++ path_stub_end)

pub path_of_lem :
    (debug : Bool) (stub : List ℕ) (i : ℕ) → i < 10000 → path_of debug stub i ≡ ok (path stub i)
unfolding path_of
path_of_lem debug stub i l =
    let fits : ltb 4 (length (to_chars i)) ≡ false =
      (let h = length-to_chars 3 i l in ground arith) in
    rw fits refl

-- The ranges that each processor's file names.
module _ (ranges : ℕ → Range × List Range) where
  abbrev pub cores : ℕ → ℕ → List CpuCore
  cores zero i = []
  cores (suc n) i =
      record { core_idx = i; siblings = expanded ((ranges i).0) ((ranges i).1) } ∷ cores n (suc i)

  module _ (debug : Bool) (stub : List ℕ) (files : List ℕ → CpuFile)
      (valid : (i : ℕ) → Valid ((ranges i).0) × AllValid ((ranges i).1)) (last : ℕ)
      (held : (i : ℕ)
        → i < last
        → files (path stub i) ≡ content (printed ((ranges i).0) ((ranges i).1) (b'\n' ∷ [])))
      (fits : (i : ℕ)
        → i < last
        → length (printed ((ranges i).0) ((ranges i).1) (b'\n' ∷ [])) ≤ buf_size)
      (gone : files (path stub last) ≡ missing) where
    list_from-printed :
        (n rounds i : ℕ)
        → n + i ≡ last
        → n ≤ rounds
        → rounds + i ≤ 10000
        → list_from debug stub files rounds i ≡ ok (cores n i)
    unfolding list_from
    list_from-printed zero zero i at short bound = refl
    list_from-printed zero (suc rounds) i at short bound =
        rw (path_of_lem debug stub i (omega arith)) (
          let here : i ≡ last = omega (arith, at) in
          rw (ap (λ (m : ℕ). files (path stub m)) here ∙ gone) refl)
    list_from-printed (suc n) zero i at short bound = absurd (omega arith)
    list_from-printed (suc n) (suc rounds) i at short bound =
        rw (path_of_lem debug stub i (omega arith)) (
          rw
            (
              held i (omega arith),
              take_all buf_size (printed ((ranges i).0) ((ranges i).1) (b'\n' ∷ []))
                  (fits i (omega arith)),
            )
            (rw
              (read_core-printed debug i ((ranges i).0) ((ranges i).1) ((valid i).0) ((valid i).1))
              (rw (list_from-printed n rounds (suc i) (omega arith) (omega arith) (omega arith))
                refl)))

    -- When at most 10000 processors have a file, each with a printed list of numbers in range that the
    -- buffer of 64 bytes holds, line end included, and the path after theirs does not open, the function answers with all of them in their order.
    pub list_cpu_cores-printed : last ≤ 10000 → list_cpu_cores debug stub files ≡ ok (cores last 0)
    unfolding list_cpu_cores
    list_cpu_cores-printed bound = list_from-printed last 10000 0 (omega arith) bound (omega arith)
