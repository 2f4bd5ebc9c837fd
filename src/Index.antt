-- ===== src/Index.antt =====
-- `order_index_` of include/order_book.hpp: `unordered_map<uint64_t, OrderLocation>` as an
-- association list.
pub mod Agrees
use leviathan_matching_engin.Prelude.{
  ℕ, suc, ◌≡◌, ◌≢◌, refl, Option, none, some, List, [], ◌∷◌, arith, ◌==◌, if◌then◌else◌, length,
}
use leviathan_matching_engin.Order.{Side}

pub record OrderLocation (P : Type 0) : Type 0 where
  pub side : Side
  pub price : P

abbrev pub Index : Type 0 → Type 0
Index P = List (ℕ × OrderLocation P)

module _ {P : Type 0} where
  -- `find`
  unfoldable pub lookup : ℕ → Index P → Option (OrderLocation P)
  lookup i [] = none
  lookup i ((j, v) ∷ m) = if i == j then some v else lookup i m

  -- `order_index_[i] = v`
  unfoldable pub insert : ℕ → OrderLocation P → Index P → Index P
  insert i v [] = (i, v) ∷ []
  insert i v ((j, w) ∷ m) = if i == j then (i, v) ∷ m else (j, w) ∷ insert i v m

  -- `erase`
  unfoldable pub erase : ℕ → Index P → Index P
  erase i [] = []
  erase i ((j, w) ∷ m) = let rest = erase i m in if i == j then rest else (j, w) ∷ rest

  -- The keys of an `unordered_map` are distinct.
  abbrev pub HasDistinctKeys : Index P → Type 0
  HasDistinctKeys [] = Unit
  HasDistinctKeys ((j, v) ∷ m) = (lookup j m ≡ none) × HasDistinctKeys m

  pub lookup-insert :
      (i j : ℕ) (v : OrderLocation P) (m : Index P)
      → lookup i (insert j v m) ≡ (if i == j then some v else lookup i m)
  unfolding lookup insert
  lookup-insert i j v [] = refl
  lookup-insert i j v ((k, w) ∷ m) = ground (arith, lookup-insert i j v m)

  pub lookup-erase :
      (i j : ℕ) (m : Index P) → lookup i (erase j m) ≡ (if i == j then none else lookup i m)
  unfolding lookup erase
  lookup-erase i j [] = ground arith
  lookup-erase i j ((k, w) ∷ m) = ground (arith, lookup-erase i j m)

  pub insert-HasDistinctKeys :
      (j : ℕ) (v : OrderLocation P) (m : Index P)
      → HasDistinctKeys m
      → HasDistinctKeys (insert j v m)
  unfolding insert lookup
  insert-HasDistinctKeys j v [] d = ground arith
  insert-HasDistinctKeys j v ((k, w) ∷ m) d =
      ground (arith, lookup-insert k j v m, insert-HasDistinctKeys j v m d.1)

  pub erase-HasDistinctKeys :
      (j : ℕ) (m : Index P) → HasDistinctKeys m → HasDistinctKeys (erase j m)
  unfolding erase
  erase-HasDistinctKeys j [] d = tt
  erase-HasDistinctKeys j ((k, w) ∷ m) d =
      ground (arith, lookup-erase k j m, erase-HasDistinctKeys j m d.1)

  pub length-insert :
      (j : ℕ) (v : OrderLocation P) (m : Index P)
      → lookup j m ≡ none
      → length (insert j v m) ≡ suc (length m)
  unfolding insert lookup
  length-insert j v [] h = refl
  length-insert j v ((k, w) ∷ m) h = ground (arith, length-insert j v m)

  pub erase_missing : (j : ℕ) (m : Index P) → lookup j m ≡ none → erase j m ≡ m
  unfolding erase lookup
  erase_missing j [] h = refl
  erase_missing j ((k, w) ∷ m) h = ground (arith, erase_missing j m)

  pub length-erase :
      (j : ℕ) (m : Index P)
      → HasDistinctKeys m
      → lookup j m ≢ none
      → suc (length (erase j m)) ≡ length m
  unfolding erase lookup
  length-erase j [] d h = absurd (h refl)
  length-erase j ((k, w) ∷ m) d h = ground (arith, erase_missing j m, length-erase j m d.1)
