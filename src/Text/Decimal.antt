-- ===== src/Text/Decimal.antt =====
-- A number written by `<<` is read back by `>>`.
use Prim.Native.Nat.{◌/◌}
use leviathan_matching_engin.Prelude.{
  ℕ, zero, suc, ◌+◌, ◌%◌, ◌<◌, ◌≡◌, ◌⊎◌, inl, inr, refl, ap, ◌∙◌, true, false, some, [], ◌∷◌, ◌++◌,
  ◌==◌, arith, Bool-cases,
}
use leviathan_matching_engin.Order.{uint64_limit}
use leviathan_matching_engin.Text.{
  Text, is_digit, print_digits, print_nat, skip_space, read_digits, read_signed, extract_uint64,
  extract_int,
}

-- A digit stands in front.
abbrev pub Opens : Text → Type 0
Opens [] = ⊥
Opens (c ∷ s) = is_digit c ≡ true

-- A text ends, or a comma comes next.
abbrev pub IsDelimited : Text → Type 0
IsDelimited [] = Unit
IsDelimited (c ∷ s) = c ≡ b','

pub Opens-append : (s t : Text) → Opens s → Opens (s ++ t)
Opens-append [] t h = absurd h
Opens-append (c ∷ s) t h = h

print_digits-Opens :
    (fuel n : ℕ) (out : Text) → n < fuel → (0 < n) ⊎ Opens out → Opens (print_digits fuel n out)
unfolding print_digits
print_digits-Opens zero n out h o = absurd (omega arith)
print_digits-Opens (suc fuel) n out h o = elim (Bool-cases (n == 0)) [
  | inl e ↦ elim o [ inl pos ↦ absurd (ground arith) | inr already ↦ rw e already ]
  | inr e ↦
      rw e (
        print_digits-Opens fuel (n / 10) ((b'0' + n % 10) ∷ out) (ground arith)
          (inr (ground arith)))
]

pub print_nat-Opens : (n : ℕ) → Opens (print_nat n)
unfolding print_nat
print_nat-Opens n = elim (Bool-cases (n == 0)) [
  | inl e ↦ rw e refl
  | inr e ↦ rw e (print_digits-Opens (suc n) n [] (omega arith) (inl (ground arith)))
]

read_digits-print_digits :
    (fuel n : ℕ) (out : Text)
    → n < fuel
    → read_digits 0 (print_digits fuel n out) ≡ read_digits n out
unfolding print_digits read_digits
read_digits-print_digits zero n out h = absurd (omega arith)
read_digits-print_digits (suc fuel) n out h = elim (Bool-cases (n == 0)) [
  | inl e ↦ ground arith
  | inr e ↦ ground (arith, read_digits-print_digits fuel (n / 10) ((b'0' + n % 10) ∷ out))
]

print_digits-append :
    (fuel n : ℕ) (out rest : Text)
    → print_digits fuel n out ++ rest ≡ print_digits fuel n (out ++ rest)
unfolding print_digits
print_digits-append zero n out rest = refl
print_digits-append (suc fuel) n out rest =
    ground (arith, print_digits-append fuel (n / 10) ((b'0' + n % 10) ∷ out) rest)

read_digits_stop : (n : ℕ) (rest : Text) → IsDelimited rest → read_digits n rest ≡ (n, rest)
unfolding read_digits
read_digits_stop n [] h = refl
read_digits_stop n (c ∷ s) h = ground arith

read_digits-print_nat :
    (n : ℕ) (rest : Text) → IsDelimited rest → read_digits 0 (print_nat n ++ rest) ≡ (n, rest)
unfolding print_nat read_digits
read_digits-print_nat n rest h = elim (Bool-cases (n == 0)) [
  | inl e ↦ ground (arith, read_digits_stop 0 rest h)
  | inr e ↦ ground (
    arith,
    print_digits-append (suc n) n [] rest,
    read_digits-print_digits (suc n) n rest,
    read_digits_stop n rest h,
  )
]

read_signed_digit :
    (s : Text)
    → Opens s
    → read_signed (skip_space s) ≡ some (false, (read_digits 0 s).0, (read_digits 0 s).1)
unfolding skip_space
read_signed_digit [] h = absurd h
read_signed_digit (c ∷ s) h = ground arith

pub read_signed-print_nat :
    (n : ℕ) (rest : Text)
    → IsDelimited rest
    → read_signed (skip_space (print_nat n ++ rest)) ≡ some (false, n, rest)
read_signed-print_nat n rest h =
    read_signed_digit (print_nat n ++ rest) (Opens-append (print_nat n) rest (print_nat-Opens n))
    ∙ ap (λ r. some (false, r.0, r.1)) (read_digits-print_nat n rest h)

pub extract_uint64-print_nat :
    (n : ℕ) (rest : Text)
    → n < uint64_limit
    → IsDelimited rest
    → extract_uint64 (print_nat n ++ rest) ≡ some (n, rest)
unfolding extract_uint64
extract_uint64-print_nat n rest fits h =
    rw (read_signed-print_nat n rest h, extract_uint64) (ground arith)

pub extract_int-print_nat :
    (n : ℕ) (rest : Text)
    → n < 256
    → IsDelimited rest
    → extract_int (print_nat n ++ rest) ≡ some (n, rest)
unfolding extract_int
extract_int-print_nat n rest fits h =
    rw (read_signed-print_nat n rest h, extract_int) (ground arith)
