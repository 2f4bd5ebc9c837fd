-- ===== src/Price.antt =====
-- Prices (the `double`s of include/order.hpp and include/order_book.hpp) are a parameter: a type
-- with the comparison of `std::less<double>`, which the side maps of include/order_book.hpp sort by.
-- The laws are those of IEEE comparison on numbers that are not NaN, with -0.0 and 0.0 one price.
use leviathan_matching_engin.Prelude.{ℕ, ◌≡◌, Bool, true, false, not, ◌&&◌, arith, ltb}

pub record Comparator (P : Type 0) : Type 0 where
  pub lt : P → P → Bool
  pub lt_irrefl : (a : P) → lt a a ≡ false
  pub lt_trans : (a b c : P) → lt a b ≡ true → lt b c ≡ true → lt a c ≡ true
  pub lt_connex : (a b : P) → lt a b ≡ false → lt b a ≡ false → a ≡ b

-- `std::greater<double>`, which sorts the bids.
abbrev pub greater : {P : Type 0} → Comparator P → Comparator P
greater c = record {
  lt = λ a b. c.lt b a;
  lt_irrefl = c.lt_irrefl;
  lt_trans = λ a b d p q. c.lt_trans d b a q p;
  lt_connex = λ a b p q. c.lt_connex a b q p;
}

-- `a == b` on prices.
abbrev pub same_price : {P : Type 0} → Comparator P → P → P → Bool
same_price c a b = not (c.lt a b) && not (c.lt b a)

module _ {P : Type 0} (c : Comparator P) where
  pub lt_asymm : (a b : P) → c.lt a b ≡ true → c.lt b a ≡ false
  lt_asymm a b h = ground (arith, c.lt_irrefl a, c.lt_trans a b a)

  -- If `a` does not come after `b` and `b` comes before `d`, then `a` comes before `d`.
  pub le_lt_trans : (a b d : P) → c.lt b a ≡ false → c.lt b d ≡ true → c.lt a d ≡ true
  le_lt_trans a b d h k = ground (arith, c.lt_connex a b, c.lt_trans a b d)

pub ltb_irrefl : (a : ℕ) → ltb a a ≡ false
ltb_irrefl a = ground arith

pub ltb_trans : (a b c : ℕ) → ltb a b ≡ true → ltb b c ≡ true → ltb a c ≡ true
ltb_trans a b c p q = ground arith

pub ltb-connex : (a b : ℕ) → ltb a b ≡ false → ltb b a ≡ false → a ≡ b
ltb-connex a b p q = ground arith

-- Prices in whole ticks: an instance of the parameter, at which the examples run.
abbrev pub ticks : Comparator ℕ
ticks = record { lt = ltb; lt_irrefl = ltb_irrefl; lt_trans = ltb_trans; lt_connex = ltb-connex }
