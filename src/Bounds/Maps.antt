-- ===== src/Bounds/Maps.antt =====
-- The function templates of src/order_book.cpp over a side map of orders within `uint64_t`.
use leviathan_matching_engin.Prelude.{
  ℕ, ◌<◌, ◌≡◌, Bool-cases, Option-cases, inl, inr, Option, some, List, [], ◌∷◌, arith, All,
  All-append,
}
use leviathan_matching_engin.Price.{Comparator, same_price}
use leviathan_matching_engin.Order.{Order, uint64_limit}
use leviathan_matching_engin.Levels.{
  Levels, erase_order, set_quantity, keep_level, push_back, alter_level, erase_from_side,
}
use leviathan_matching_engin.Bounds.{FitsOrder, FitsLevels}

module _ {P : Type 0} where
  -- A change of a deque that leaves its orders within range.
  abbrev pub KeepsFit : (List (Order P) → Option (List (Order P))) → Type 0
  KeepsFit f = (q q' : List (Order P)) → f q ≡ some q' → All FitsOrder q → All FitsOrder q'

  pub erase_order-Fits : (i : ℕ) → KeepsFit (erase_order i)
  erase_order-Fits i [] q' e h = cc
  erase_order-Fits i (o ∷ q) q' e h = elim (Option-cases (erase_order i q)) [
    | inl gone ↦ ground arith
    | inr (r, found) ↦ ground (arith, erase_order-Fits i q r)
  ]

  pub set_quantity-Fits : (i n : ℕ) → n < uint64_limit → KeepsFit (set_quantity i n)
  set_quantity-Fits i n fits [] q' e h = cc
  set_quantity-Fits i n fits (o ∷ q) q' e h = elim (Option-cases (set_quantity i n q)) [
    | inl gone ↦ ground arith
    | inr (r, found) ↦ ground (arith, set_quantity-Fits i n fits q r)
  ]

  pub keep_level-Fits :
      (k : P) (rest : Levels P) (q : List (Order P))
      → FitsLevels rest
      → All FitsOrder q
      → FitsLevels (keep_level k rest q)
  keep_level-Fits k rest [] h a = h
  keep_level-Fits k rest (o ∷ q) h a = (a, h)

module _ {P : Type 0} (c : Comparator P) where
  pub push_back-Fits :
      (p : P) (o : Order P) (m : Levels P)
      → FitsOrder o
      → FitsLevels m
      → FitsLevels (push_back c p o m)
  unfolding push_back
  push_back-Fits p o [] h m = ((h, tt), tt)
  push_back-Fits p o ((k, q) ∷ rest) h m =
      ground (arith, push_back-Fits p o rest h m.1, All-append FitsOrder q (o ∷ []) m.0 (h, tt))

  pub alter_level-Fits :
      (p : P) (f : List (Order P) → Option (List (Order P))) (m m' : Levels P)
      → KeepsFit f
      → alter_level c p f m ≡ some m'
      → FitsLevels m
      → FitsLevels m'
  unfolding alter_level
  alter_level-Fits p f [] m' keeps e h = cc
  alter_level-Fits p f ((k, q) ∷ rest) m' keeps e h = elim (Bool-cases (same_price c p k)) [
    | inl here ↦ elim (Option-cases (f q)) [
      | inl gone ↦ ground arith
      | inr (q', found) ↦ ground (arith, keep_level-Fits k rest q' h.1 (keeps q q' found h.0))
    ]
    | inr on ↦ elim (Option-cases (alter_level c p f rest)) [
      | inl gone ↦ ground arith
      | inr (r, found) ↦ ground (arith, alter_level-Fits p f rest r keeps found h.1)
    ]
  ]

  pub erase_from_side-Fits :
      (p : P) (i : ℕ) (m m' : Levels P)
      → erase_from_side c p i m ≡ some m'
      → FitsLevels m
      → FitsLevels m'
  unfolding erase_from_side
  erase_from_side-Fits p i m m' e h =
      alter_level-Fits p (erase_order i) m m' (erase_order-Fits i) e h
