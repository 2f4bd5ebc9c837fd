-- ===== src/Text.antt =====
-- What src/recording_order_book.cpp and src/replay.cpp use of the standard streams: a text is the list
-- of its bytes, `<<` appends to it, and `>>` takes from its front or fails.
pub mod Decimal
use Prim.Native.Char.{code}
use Prim.Native.String.{String}
use Prim.Native.Nat.{◌/◌}
use leviathan_matching_engin.Prelude.{
  ℕ, zero, suc, ◌+◌, ◌-◌, ◌*◌, ◌%◌, ◌^◌, Bool, true, false, not, ◌&&◌, ◌||◌, Option, none, some,
  List, [], ◌∷◌, ◌++◌, ◌==◌, leb, ltb, if◌then◌else◌,
}
use leviathan_matching_engin.Order.{uint64_limit}

abbrev pub Text : Type 0
Text = List ℕ

-- The bytes of a literal.
abbrev pub codes : String → Text
codes String.[] = []
codes (String.◌∷◌ c s) = code c ∷ codes s

abbrev pub same_text : Text → Text → Bool
same_text [] [] = true
same_text (c ∷ s) (d ∷ t) = c == d && same_text s t
same_text _ _ = false

abbrev pub is_digit : ℕ → Bool
is_digit c = leb b'0' c && leb c b'9'

-- `isspace` of the C locale: a blank, or one of \t \n \v \f \r.
abbrev pub is_space : ℕ → Bool
is_space c = c == b' ' || (leb 9 c && leb c 13)

-- The digits of `n` in front of `out`, on fuel.
unfoldable pub print_digits : ℕ → ℕ → Text → Text
print_digits zero n out = out
print_digits (suc fuel) n out =
    let more = print_digits fuel (n / 10) ((b'0' + n % 10) ∷ out) in if n == 0 then out else more

-- `<<` of an unsigned integer.
unfoldable pub print_nat : ℕ → Text
print_nat n = if n == 0 then b'0' ∷ [] else print_digits (suc n) n []

unfoldable pub skip_space : Text → Text
skip_space [] = []
skip_space (c ∷ s) = let rest = skip_space s in if is_space c then rest else c ∷ s

-- The number that the digits in front of a text continue, and what stands behind them.
unfoldable pub read_digits : ℕ → Text → ℕ × Text
read_digits n [] = (n, [])
read_digits n (c ∷ s) =
    let rest = read_digits (n * 10 + (c - b'0')) s in if is_digit c then rest else (n, c ∷ s)

-- At least one digit.
abbrev pub read_number : Text → Option (ℕ × Text)
read_number [] = none
read_number (c ∷ s) = if is_digit c then some (read_digits 0 (c ∷ s)) else none

-- A number behind an optional sign; the flag says that the sign was a minus.
abbrev pub read_signed : Text → Option (Bool × ℕ × Text)
read_signed [] = none
read_signed (c ∷ s) = elim (read_number (if c == b'-' || c == b'+' then s else c ∷ s)) [
  | none ↦ none
  | some (n, rest) ↦ some (c == b'-', n, rest)
]

-- `>>` into a `uint64_t`: a minus negates modulo 2^64, and a number out of range fails.
unfoldable pub extract_uint64 : Text → Option (ℕ × Text)
extract_uint64 s = elim (read_signed (skip_space s)) [
  | none ↦ none
  | some (negative, n, rest) ↦
      if ltb n uint64_limit
      then some ((if negative then (uint64_limit - n) % uint64_limit else n), rest)
      else none
]

-- `>>` into an `int`, whose value is given modulo 2^32.
unfoldable pub extract_int : Text → Option (ℕ × Text)
extract_int s = elim (read_signed (skip_space s)) [
  | none ↦ none
  | some (negative, n, rest) ↦
      if negative
      then (if leb n (2 ^ 31) then some ((2 ^ 32 - n) % 2 ^ 32, rest) else none)
      else (if ltb n (2 ^ 31) then some (n, rest) else none)
]

abbrev pub take_char : Text → Option (ℕ × Text)
take_char [] = none
take_char (c ∷ s) = some (c, s)

-- `>>` into a `char`.
unfoldable pub extract_char : Text → Option (ℕ × Text)
extract_char s = take_char (skip_space s)

-- A reader takes a value from the front of the stream. Once one fails, the stream has failed.
abbrev pub Reader : Type 0 → Type 0
Reader A = Text → Option (A × Text)

infixl 5 ◌>>=◌ ◌>>◌
abbrev pub ◌>>=◌ : {A B : Type 0} → Reader A → (A → Reader B) → Reader B
◌>>=◌ m f s = elim (m s) [ none ↦ none | some (a, rest) ↦ f a rest ]

abbrev pub ◌>>◌ : {A B : Type 0} → Reader A → Reader B → Reader B
m >> k = m >>= λ _. k

abbrev pub yield : {A : Type 0} → A → Reader A
yield a s = some (a, s)

-- `std::getline` up to a delimiter, which is taken and dropped.
unfoldable pub take_until : ℕ → Text → Text × Text
take_until d [] = ([], [])
take_until d (c ∷ s) =
    let (field, rest) = take_until d s in if c == d then ([], s) else (c ∷ field, rest)

abbrev pub onto_first : ℕ → List Text → List Text
onto_first c [] = (c ∷ []) ∷ []
onto_first c (l ∷ ls) = (c ∷ l) ∷ ls

-- The lines that `while (std::getline(input, line))` sees.
unfoldable pub split_lines : Text → List Text
split_lines [] = []
split_lines (c ∷ s) =
    let rest = split_lines s in if c == b'\n' then [] ∷ rest else onto_first c rest
