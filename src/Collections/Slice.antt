-- ===== src/Collections/Slice.antt =====
-- `Slice` of include/shclog/collections/slice.hpp with elements of `size_of` bytes: the allocation with
-- its header, the array, the index, `first` and the comparison. Memory is what `data` points at: the
-- elements from there to the end of the block.
pub mod Room
mod Examples
use shclog.Prelude.{
  ℕ, ◌+◌, ◌-◌, ◌*◌, ◌/◌, ◌%◌, ◌^◌, Bool, true, false, not, ◌&&◌, ◌||◌, leb, ltb, ◌==◌,
  if◌then◌else◌, Option, none, some, List, [], ◌∷◌, length, set, take, get_elem?,
}
use shclog.Math.{mul_with_overflow, add_with_overflow}
use shclog.Io.Exec.{Exec, returns, aborts, undefined, ◌>>=◌}

pub record Slice : Type 0 where
  pub elements : List ℕ
  pub len : ℕ

-- `none` is `NO_SENTINEL`.
abbrev pub extra : Option ℕ → ℕ
extra none = 0
extra (some sentinel) = 1

-- `begin()` to `end()`
unfoldable pub view : Slice → List ℕ
view s = take s.len s.elements

-- A read or a write behind the memory is undefined.
abbrev pub read : List ℕ → ℕ → Exec ℕ
read elements i = elim (get_elem? elements i) [ none ↦ undefined | some v ↦ returns v ]

abbrev pub write : List ℕ → ℕ → ℕ → Exec (List ℕ)
write elements i v = if ltb i (length elements) then returns (set elements i v) else undefined

module _ (debug : Bool) where
  -- The bytes that `operator new` asks for, with the assertions of a debug build.
  unfoldable pub requested : (header payload size_of : ℕ) → Exec ℕ
  unfolding mul_with_overflow add_with_overflow
  requested header payload size_of =
      let slice = mul_with_overflow (2 ^ 64) payload size_of in
      let whole = add_with_overflow (2 ^ 64) slice.value header in
      if debug
      then (if slice.overflow || whole.overflow then aborts else returns whole.value)
      else returns ((header + payload * size_of % 2 ^ 64) % 2 ^ 64)

  -- `storage n` is what `n` fresh elements hold; `has_memory` whether the allocation succeeds. `none` is
  -- `MakeError::OutOfMemory`.
  module _ (has_memory : ℕ → Bool) (storage : ℕ → List ℕ) (header size_of : ℕ) where
    abbrev pub terminate : Option ℕ → ℕ → List ℕ → Exec (List ℕ)
    terminate none len elements = returns elements
    terminate (some sentinel) len elements = write elements len sentinel

    unfoldable pub make : Option ℕ → ℕ → Exec (Option Slice)
    unfolding requested
    make sentinel len = requested header ((len + extra sentinel) % 2 ^ 64) size_of >>= λ bytes.
        if has_memory bytes
        then (terminate sentinel len (storage ((bytes - header) / size_of)) >>= λ elements.
            returns (some (record { elements = elements; len = len })))
        else returns none

  -- `operator[]` and `first`
  unfoldable pub index : Slice → ℕ → Exec ℕ
  index s i = if ltb i s.len || not debug then read s.elements i else aborts

  unfoldable pub first : Slice → ℕ → Exec Slice
  first s n = if leb n s.len || not debug then returns (record s { len = n }) else aborts

  -- `Slice(T (&arr)[N])`, whose `N` is positive
  unfoldable pub of_array : Option ℕ → List ℕ → Exec Slice
  of_array none arr = returns (record { elements = arr; len = length arr })
  of_array (some sentinel) arr = read arr (length arr - 1) >>= λ c.
      if c == sentinel || not debug
      then returns (record { elements = arr; len = length arr - 1 })
      else aborts

-- `std::ranges::equal`
unfoldable pub equal : List ℕ → List ℕ → Bool
equal [] [] = true
equal [] (y ∷ ys) = false
equal (x ∷ xs) [] = false
equal (x ∷ xs) (y ∷ ys) = x == y && equal xs ys
