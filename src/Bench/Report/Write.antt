-- ===== src/Bench/Report/Write.antt =====
-- `UnitRepr::write` and `REPR_MAX_LEN` of include/shclog/bench/report.hpp, with `write_number` of
-- include/shclog/fmt.hpp at an unsigned integer type. A `Slice` is the list of its bytes.
pub mod Exact
pub mod Room
use shclog.Prelude.{
  ℕ, zero, suc, ◌+◌, ◌%◌, ◌^◌, max, Bool, true, false, not, ◌||◌, ltb, leb, ◌==◌, if◌then◌else◌,
  Option, none, some, List, [], ◌∷◌, ◌++◌, length, set, drop,
}
use shclog.Decimal.{to_chars}
use shclog.Io.Exec.{Exec, returns, aborts, ◌>>=◌}
use shclog.Bench.Report.{UnitScale, ValueInUnit, fit}

-- The buffer and `it - first`. No room is `none`, the error `BufferTooSmall`; what the buffer then
-- holds is left open.
abbrev pub Cursor : Type 0
Cursor = List ℕ × ℕ

abbrev pub and_then : {A B : Type 0} → Option A → (A → Option B) → Option B
and_then none f = none
and_then (some a) f = f a

unfoldable pub put : ℕ → Cursor → Option Cursor
put c (buffer, it) = if it == length buffer then none else some (set buffer it c, suc it)

-- `for (const char c : ...) if (!put(c))`
unfoldable pub put_all : List ℕ → Cursor → Option Cursor
unfolding put
put_all [] s = some s
put_all (c ∷ cs) s = and_then (put c s) (put_all cs)

-- The characters at the start of the buffer.
unfoldable pub write_chars : List ℕ → List ℕ → Option Cursor
write_chars buffer cs =
    if ltb (length buffer) (length cs)
    then none
    else some (cs ++ drop (length cs) buffer, length cs)

unfoldable pub write_number : List ℕ → ℕ → Option Cursor
unfolding to_chars write_chars
write_number buffer v = write_chars buffer (to_chars v)

module _ (debug : Bool) where
  -- The point and the digit of a tenth, behind the assertion that it is a digit.
  unfoldable pub put_tenth : ℕ → Cursor → Exec (Option Cursor)
  unfolding put
  put_tenth tenth s = if tenth == 0 then returns (some s) else elim (put b'.' s) [
    | none ↦ returns none
    | some s' ↦ if ltb tenth 10 || not debug then returns (put ((48 + tenth) % 256) s') else aborts
  ]

  module _ (S : UnitScale) where
    -- `write(const ValueInUnit &, Slice &)` behind its `write_number`.
    unfoldable pub write_rest : ℕ → S.Measure → Option Cursor → Exec (Option Cursor)
    unfolding put_tenth put_all
    write_rest tenth u none = returns none
    write_rest tenth u (some s) = put_tenth tenth s >>= λ t.
        returns (and_then t (λ s'. and_then (put b' ' s') (put_all (S.symbol u))))

    -- The buffer and the number of bytes written.
    unfoldable pub write : ValueInUnit S.Measure → List ℕ → Exec (Option Cursor)
    unfolding write_number write_rest
    write v buffer = write_rest v.tenth v.measure (write_number buffer v.whole)

    -- `write(value, unit, Slice &)`; `fit` of an integer has no error but a failed cast.
    unfoldable pub write_value : ℕ → ℕ → S.Measure → List ℕ → Exec (Option Cursor)
    unfolding fit write
    write_value limit value u buffer = elim (fit S limit value u) [
      | none ↦ aborts
      | some v ↦ write v buffer
    ]

module _ (S : UnitScale) where
  -- the loop of `SYMBOL_MAX_LEN` over the indexes 0 to `n`
  unfoldable pub longest_symbol : ℕ → ℕ
  longest_symbol zero = length (S.symbol (S.from 0))
  longest_symbol (suc n) = max (longest_symbol n) (length (S.symbol (S.from (suc n))))

  unfoldable pub symbol_max_len : ℕ
  unfolding longest_symbol
  symbol_max_len = longest_symbol (S.to_underlying S.last)

  -- `digits10` is that of the type.
  unfoldable pub repr_max_len : ℕ → ℕ
  unfolding symbol_max_len
  repr_max_len digits10 = digits10 + 1 + 1 + 1 + symbol_max_len
