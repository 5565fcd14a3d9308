-- ===== src/Io/Errno/Enumerators.antt =====
-- All the enumerators of `Errno` (include/shclog/io/syscall.hpp) by their codes, and that the
-- conversions of src/shclog/io/syscall.cpp keep each of them.
use shclog.Prelude.{
  ℕ, zero, suc, ◌≡◌, Bool, true, ◌&&◌, ◌||◌, leb, ◌==◌, List, [], ◌∷◌, ◌++◌, refl, arith,
  Bool-cases, inl, inr,
}
use shclog.Prelude.Int.{pos, negsuc, neg_ℤ}
use shclog.Io.Exec.{member}
use shclog.Io.Errno
use shclog.Io.Syscall.{e_errno, io_uring_errno, from_errno}

-- PERM to LOOP, with SUCCESS
abbrev pub base_codes : List ℕ
base_codes =
    0 ∷ 1 ∷ 2 ∷ 3 ∷ 4 ∷ 5 ∷ 6 ∷ 7 ∷ 8 ∷ 9 ∷ 10 ∷ 11 ∷ 12 ∷ 13 ∷ 14 ∷ 15 ∷ 16 ∷ 17 ∷ 18 ∷ 19 ∷ 20
    ∷ 21 ∷ 22 ∷ 23 ∷ 24 ∷ 25 ∷ 26 ∷ 27 ∷ 28 ∷ 29 ∷ 30 ∷ 31 ∷ 32 ∷ 33 ∷ 34 ∷ 35 ∷ 36 ∷ 37 ∷ 38 ∷ 39
    ∷ 40 ∷ []

-- NOMSG to RESTART
abbrev pub stream_codes : List ℕ
stream_codes =
    42 ∷ 43 ∷ 44 ∷ 45 ∷ 46 ∷ 47 ∷ 48 ∷ 49 ∷ 50 ∷ 51 ∷ 52 ∷ 53 ∷ 54 ∷ 55 ∷ 56 ∷ 57 ∷ 59 ∷ 60 ∷ 61
    ∷ 62 ∷ 63 ∷ 64 ∷ 65 ∷ 66 ∷ 67 ∷ 68 ∷ 69 ∷ 70 ∷ 71 ∷ 72 ∷ 73 ∷ 74 ∷ 75 ∷ 76 ∷ 77 ∷ 78 ∷ 79 ∷ 80
    ∷ 81 ∷ 82 ∷ 83 ∷ 84 ∷ 85 ∷ []

-- STRPIPE to HWPOISON
abbrev pub network_codes : List ℕ
network_codes =
    86 ∷ 87 ∷ 88 ∷ 89 ∷ 90 ∷ 91 ∷ 92 ∷ 93 ∷ 94 ∷ 95 ∷ 96 ∷ 97 ∷ 98 ∷ 99 ∷ 100 ∷ 101 ∷ 102 ∷ 103
    ∷ 104 ∷ 105 ∷ 106 ∷ 107 ∷ 108 ∷ 109 ∷ 110 ∷ 111 ∷ 112 ∷ 113 ∷ 114 ∷ 115 ∷ 116 ∷ 117 ∷ 118 ∷ 119
    ∷ 120 ∷ 121 ∷ 122 ∷ 123 ∷ 124 ∷ 125 ∷ 126 ∷ 127 ∷ 128 ∷ 129 ∷ 130 ∷ 131 ∷ 132 ∷ 133 ∷ []

-- NSRNODATA to NSRCNAMELOOP
abbrev pub resolver_codes : List ℕ
resolver_codes =
    160 ∷ 161 ∷ 162 ∷ 163 ∷ 164 ∷ 165 ∷ 166 ∷ 167 ∷ 168 ∷ 169 ∷ 170 ∷ 171 ∷ 172 ∷ 173 ∷ 174 ∷ 175
    ∷ 176 ∷ 177 ∷ []

abbrev pub enumerators : List ℕ
enumerators =
    base_codes
    ++ (stream_codes ++ (network_codes ++ (resolver_codes ++ (Errno.unexpected_errno ∷ []))))

-- A code that the bound of the conversions lets through, or the one that stands for the others.
abbrev passes : ℕ → Bool
passes c = leb c 177 || c == Errno.unexpected_errno

all_pass : List ℕ → Bool
all_pass [] = true
all_pass (c ∷ cs) = passes c && all_pass cs

all_pass-member : (cs : List ℕ) (e : ℕ) → all_pass cs ≡ true → member cs e ≡ true → passes e ≡ true
unfolding all_pass
all_pass-member [] e h m = ground arith
all_pass-member (c ∷ cs) e h m = elim (Bool-cases (c == e)) [
  | inl same ↦ ground arith
  | inr other ↦ all_pass-member cs e (ground arith) (rw other at m)
]

enumerators_pass : all_pass enumerators ≡ true
unfolding all_pass
enumerators_pass = refl

passing_kept :
    (c rc : ℕ)
    → passes c ≡ true
    → (from_errno c ≡ c) × (io_uring_errno (neg_ℤ (pos c)) ≡ c) × (e_errno (negsuc rc) (pos c) ≡ c)
passing_kept zero rc p = (refl, refl, refl)
passing_kept (suc c) rc p = (ground arith, ground arith, ground arith)

-- Each enumerator is what the three conversions give of its own code: as the result of a pthread
-- function, as the negated result of a completion, and as the `errno` of a call that failed.
pub enumerators_kept :
    (e rc : ℕ)
    → member enumerators e ≡ true
    → (from_errno e ≡ e) × (io_uring_errno (neg_ℤ (pos e)) ≡ e) × (e_errno (negsuc rc) (pos e) ≡ e)
enumerators_kept e rc h = passing_kept e rc (all_pass-member enumerators e enumerators_pass h)
