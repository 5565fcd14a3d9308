-- ===== src/Bench/Report/Write/Exact.antt =====
-- What `write` leaves in the buffer, and when there is room for it.
use shclog.Prelude.{
  ℕ, ◌+◌, ◌%◌, ◌≤◌, ◌<◌, ◌≡◌, Bool, true, false, ltb, leb, ◌==◌, if◌then◌else◌, Option, none, some,
  List, [], ◌∷◌, ◌++◌, length, set, drop, length-append, refl, sym, ap, ap₂, dec_lt, ◌∙◌, arith,
  Bool-cases, Option-cases, inl, inr,
}
use mathlib.Core.List.{append_assoc, append-nil}
use shclog.Decimal.{to_chars}
use shclog.Io.Exec.{returns}
use shclog.Bench.Report.{UnitScale, ValueInUnit}
use shclog.Bench.Report.Write.{
  Cursor, and_then, put, put_all, write_chars, write_number, write_rest, put_tenth, write,
}

abbrev pub fraction : ℕ → List ℕ
fraction tenth = if tenth == 0 then [] else (b'.' ∷ (48 + tenth) ∷ [])

-- The characters of a number with what stands behind them.
abbrev pub characters : (S : UnitScale) → List ℕ → ℕ → S.Measure → List ℕ
characters S cs tenth u = cs ++ (fraction tenth ++ (b' ' ∷ S.symbol u))

-- The number, its tenth where there is one, a blank and the symbol.
unfoldable pub text : (S : UnitScale) → ValueInUnit S.Measure → List ℕ
text S v = characters S (to_chars v.whole) v.tenth v.measure

set-length :
    (p : List ℕ) (d : ℕ) (r : List ℕ) (c : ℕ) → set (p ++ (d ∷ r)) (length p) c ≡ p ++ (c ∷ r)
set-length [] d r c = refl
set-length (x ∷ p) d r c = ap (◌∷◌ x) (set-length p d r c)

append_one : (p : List ℕ) (c : ℕ) (r : List ℕ) → p ++ (c ∷ r) ≡ (p ++ (c ∷ [])) ++ r
append_one p c r = sym (append_assoc p (c ∷ []) r)

put-behind :
    (c d : ℕ) (p r : List ℕ)
    → put c (p ++ (d ∷ r), length p) ≡ some ((p ++ (c ∷ [])) ++ r, length (p ++ (c ∷ [])))
unfolding put
put-behind c d p r =
    let free : (length p == length (p ++ (d ∷ r))) ≡ false =
      (let l = length-append p (d ∷ r) in ground arith) in
    rw (free, set-length p d r c)
      (ap₂ (λ b n. some (b, n)) (append_one p c r) (omega (arith, length-append p (c ∷ []))))

put-full : (c : ℕ) (p : List ℕ) → put c (p ++ [], length p) ≡ none
unfolding put
put-full c p =
    let full : (length p == length (p ++ [])) ≡ true =
      (let l = length-append p [] in ground arith) in
    rw full refl

-- Bytes put behind `p`, over the bytes `r`.
put_all-behind :
    (cs p r : List ℕ)
    → length cs ≤ length r
    → put_all cs (p ++ r, length p) ≡ some ((p ++ cs) ++ drop (length cs) r, length (p ++ cs))
unfolding put_all
put_all-behind [] p r h = rw (append-nil p) refl
put_all-behind (c ∷ cs) p [] h = absurd (omega (arith, h))
put_all-behind (c ∷ cs) p (d ∷ r) h = rw (put-behind c d p r) (
    put_all-behind cs (p ++ (c ∷ [])) r (omega (arith, h))
    ∙ ap (λ q. some (q ++ drop (length cs) r, length q)) (sym (append_one p c cs)))

put_all-full : (cs p r : List ℕ) → length r < length cs → put_all cs (p ++ r, length p) ≡ none
unfolding put_all
put_all-full [] p r h = absurd (omega (arith, h))
put_all-full (c ∷ cs) p [] h = rw (put-full c p) refl
put_all-full (c ∷ cs) p (d ∷ r) h =
    rw (put-behind c d p r) (put_all-full cs (p ++ (c ∷ [])) r (omega (arith, h)))

put_all-append :
    (xs ys : List ℕ) (s : Cursor) → put_all (xs ++ ys) s ≡ and_then (put_all xs s) (put_all ys)
unfolding put_all
put_all-append [] ys s = refl
put_all-append (x ∷ xs) ys s = elim (Option-cases (put x s)) [
  | inl n ↦ rw (n, put_all) refl
  | inr (t, n) ↦ rw (n, put_all) (put_all-append xs ys t)
]

write_chars-put_all : (buffer cs : List ℕ) → write_chars buffer cs ≡ put_all cs (buffer, 0)
unfolding write_chars
write_chars-put_all buffer cs = elim (dec_lt (length buffer) (length cs)) [
  | yes l ↦
      let full : ltb (length buffer) (length cs) ≡ true = ground arith in
      rw full (sym (put_all-full cs [] buffer l))
  | no g ↦
      let room : ltb (length buffer) (length cs) ≡ false = ground arith in
      rw room (sym (put_all-behind cs [] buffer (omega arith)))
]

put_tenth-put_all :
    (debug : Bool) (tenth : ℕ) (s : Cursor)
    → tenth < 10
    → put_tenth debug tenth s ≡ returns (put_all (fraction tenth) s)
unfolding put_tenth put_all
put_tenth-put_all debug tenth s small = elim (Bool-cases (tenth == 0)) [
  | inl z ↦ rw z refl
  | inr z ↦ rw z (elim (Option-cases (put b'.' s)) [
    | inl n ↦ rw n refl
    | inr (t, n) ↦
        let digit : ltb tenth 10 ≡ true = ground arith in
        let byte : (48 + tenth) % 256 ≡ 48 + tenth = omega (arith, small) in
        rw (n, digit, byte)
          (elim (Option-cases (put (48 + tenth) t)) [ inl k ↦ rw k refl | inr (u, k) ↦ rw k refl ])
  ])
]

put_all_cons :
    (c : ℕ) (cs : List ℕ) (o : Option Cursor)
    → and_then o (λ s. and_then (put c s) (put_all cs)) ≡ and_then o (put_all (c ∷ cs))
unfolding put_all
put_all_cons c cs o = refl

write_rest-put_all :
    (debug : Bool) (S : UnitScale) (cs : List ℕ) (tenth : ℕ) (u : S.Measure) (buffer : List ℕ)
    → tenth < 10
    → write_rest debug S tenth u (write_chars buffer cs)
      ≡ returns (put_all (characters S cs tenth u) (buffer, 0))
unfolding write_rest
write_rest-put_all debug S cs tenth u buffer small =
    rw
      (
        write_chars-put_all buffer cs,
        put_all-append cs (fraction tenth ++ (b' ' ∷ S.symbol u)) (buffer, 0),
      )
      (elim (Option-cases (put_all cs (buffer, 0))) [
        | inl n ↦ rw n refl
        | inr (s, n) ↦ rw n (
            rw
              (
                put_tenth-put_all debug tenth s small,
                put_all-append (fraction tenth) (b' ' ∷ S.symbol u) s,
              )
              (ap returns (put_all_cons b' ' (S.symbol u) (put_all (fraction tenth) s))))
      ])

-- Characters written with a tenth, a blank and a symbol behind them fill the buffer's start when the
-- buffer has room for them all. The tenth is a digit.
pub write_rest-characters :
    (debug : Bool) (S : UnitScale) (cs : List ℕ) (tenth : ℕ) (u : S.Measure) (buffer : List ℕ)
    → tenth < 10
    → write_rest debug S tenth u (write_chars buffer cs)
      ≡ returns (
          if leb (length (characters S cs tenth u)) (length buffer)
          then some (
            characters S cs tenth u ++ drop (length (characters S cs tenth u)) buffer,
            length (characters S cs tenth u),
          )
          else none)
write_rest-characters debug S cs tenth u buffer small =
    write_rest-put_all debug S cs tenth u buffer small
    ∙ ap returns (elim (dec_lt (length buffer) (length (characters S cs tenth u))) [
      | yes l ↦
          let full : leb (length (characters S cs tenth u)) (length buffer) ≡ false =
            ground arith in
          rw full (put_all-full (characters S cs tenth u) [] buffer l)
      | no g ↦
          let room : leb (length (characters S cs tenth u)) (length buffer) ≡ true = ground arith in
          rw room (put_all-behind (characters S cs tenth u) [] buffer (omega arith))
    ])

-- `write` fills the buffer's start with the number, a point and the tenth unless that is 0, a blank
-- and the symbol, and answers their number of bytes, when the buffer has room for them all; otherwise
-- it answers BufferTooSmall. The tenth is a digit.
pub write-text :
    (debug : Bool) (S : UnitScale) (v : ValueInUnit S.Measure) (buffer : List ℕ)
    → v.tenth < 10
    → write debug S v buffer
      ≡ returns (
          if leb (length (text S v)) (length buffer)
          then some (text S v ++ drop (length (text S v)) buffer, length (text S v))
          else none)
unfolding write write_number text
write-text debug S v buffer small =
    write_rest-characters debug S (to_chars v.whole) v.tenth v.measure buffer small
