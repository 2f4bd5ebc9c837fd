-- ===== src/Resting.antt =====
-- Lists of resting orders in the order in which they are matched: the view of the side maps of
-- src/order_book.cpp that the laws are stated over.
use leviathan_matching_engin.Prelude.{
  ℕ, suc, ◌+◌, ◌≡◌, refl, ap, inl, inr, Option, none, some, List, [], ◌∷◌, ◌++◌, arith, ◌==◌,
  if◌then◌else◌, length, All, Bool-cases,
}
use leviathan_matching_engin.Order.{Order}

module _ {P : Type 0} where
  -- The first order with an id.
  abbrev pub find_id : ℕ → List (Order P) → Option (Order P)
  find_id i [] = none
  find_id i (o ∷ os) = if i == o.id then some o else find_id i os

  -- How many orders have an id.
  abbrev pub count_id : ℕ → List (Order P) → ℕ
  count_id i [] = 0
  count_id i (o ∷ os) = (if i == o.id then 1 else 0) + count_id i os

  abbrev pub volume : List (Order P) → ℕ
  volume [] = 0
  volume (o ∷ os) = o.quantity + volume os

  -- The second list is the first with one order put in somewhere.
  pub data Insertion (o : Order P) : List (Order P) → List (Order P) → Type 0 where
    here : (os : List (Order P)) → Insertion o os (o ∷ os)
    there :
        (x : Order P) {xs ys : List (Order P)} → Insertion o xs ys → Insertion o (x ∷ xs) (x ∷ ys)

  pub count_id-append :
      (i : ℕ) (xs ys : List (Order P)) → count_id i (xs ++ ys) ≡ count_id i xs + count_id i ys
  count_id-append i [] ys = omega arith
  count_id-append i (x ∷ xs) ys = omega (arith, count_id-append i xs ys)

  pub volume-append : (xs ys : List (Order P)) → volume (xs ++ ys) ≡ volume xs + volume ys
  volume-append [] ys = omega arith
  volume-append (x ∷ xs) ys = omega (arith, volume-append xs ys)

  pub find_id-append :
      (i : ℕ) (xs ys : List (Order P))
      → find_id i (xs ++ ys) ≡ elim (find_id i xs) [ none ↦ find_id i ys | some o ↦ some o ]
  find_id-append i [] ys = refl
  find_id-append i (x ∷ xs) ys = ground (arith, find_id-append i xs ys)

  pub find_id-count_zero : (i : ℕ) (xs : List (Order P)) → count_id i xs ≡ 0 → find_id i xs ≡ none
  find_id-count_zero i [] h = refl
  find_id-count_zero i (x ∷ xs) h = ground (arith, find_id-count_zero i xs)

  pub count_id-find_none : (i : ℕ) (xs : List (Order P)) → find_id i xs ≡ none → count_id i xs ≡ 0
  count_id-find_none i [] h = refl
  count_id-find_none i (x ∷ xs) h = ground (arith, count_id-find_none i xs)

  pub find_id-id : (i : ℕ) (xs : List (Order P)) {o : Order P} → find_id i xs ≡ some o → o.id ≡ i
  find_id-id i [] h = cc
  find_id-id i (x ∷ xs) {o} h = ground (arith, find_id-id i xs {o = o})

  pub All-find_id {κ} :
      (Q : Order P → Type κ) (i : ℕ) (xs : List (Order P)) {o : Order P}
      → All Q xs
      → find_id i xs ≡ some o
      → Q o
  All-find_id Q i [] a h = cc
  All-find_id Q i (x ∷ xs) {o} a h = elim (Bool-cases (i == x.id)) [
    | inl e ↦ let p : x ≡ o = ground arith in rw (← p) a.0
    | inr e ↦ All-find_id Q i xs a.1 (ground arith)
  ]

  -- What one insertion does to each view.
  pub Insertion-length :
      {o : Order P} {xs ys : List (Order P)} → Insertion o xs ys → length ys ≡ suc (length xs)
  Insertion-length (here os) = refl
  Insertion-length (there x n) = ap suc (Insertion-length n)

  pub Insertion-volume :
      {o : Order P} {xs ys : List (Order P)}
      → Insertion o xs ys
      → volume ys ≡ o.quantity + volume xs
  Insertion-volume (here os) = refl
  Insertion-volume (there x n) = omega (arith, Insertion-volume n)

  pub Insertion-count_id :
      {o : Order P} {xs ys : List (Order P)} (i : ℕ)
      → Insertion o xs ys
      → count_id i ys ≡ (if i == o.id then 1 else 0) + count_id i xs
  Insertion-count_id i (here os) = refl
  Insertion-count_id i (there x n) = omega (arith, Insertion-count_id i n)

  -- The inserted order is found under its id, if no other has that id.
  pub Insertion-find_id :
      {o : Order P} {xs ys : List (Order P)} (i : ℕ)
      → Insertion o xs ys
      → count_id o.id xs ≡ 0
      → find_id i ys ≡ (if i == o.id then some o else find_id i xs)
  Insertion-find_id i (here os) u = refl
  Insertion-find_id i (there x n) u = ground (arith, Insertion-find_id i n)

  pub Insertion-All {κ} :
      (Q : Order P → Type κ) {o : Order P} {xs ys : List (Order P)}
      → Insertion o xs ys
      → All Q ys
      → Q o × All Q xs
  Insertion-All Q (here os) a = a
  Insertion-All Q (there x n) a = let r = Insertion-All Q n a.1 in (r.0, (a.0, r.1))

  pub Insertion-append_left :
      {o : Order P} {xs ys : List (Order P)} (zs : List (Order P))
      → Insertion o xs ys
      → Insertion o (zs ++ xs) (zs ++ ys)
  Insertion-append_left [] n = n
  Insertion-append_left (z ∷ zs) n = there z (Insertion-append_left zs n)

  pub Insertion-append_right :
      {o : Order P} {xs ys : List (Order P)} (zs : List (Order P))
      → Insertion o xs ys
      → Insertion o (xs ++ zs) (ys ++ zs)
  Insertion-append_right zs (here os) = here (os ++ zs)
  Insertion-append_right zs (there x n) = there x (Insertion-append_right zs n)

  -- The first list is the second with the quantity `n` in one order that has the id.
  pub data Requantified (i n : ℕ) : List (Order P) → List (Order P) → Type 0 where
    set_here :
        (o : Order P) (os : List (Order P))
        → o.id ≡ i
        → Requantified i n (record o { quantity = n } ∷ os) (o ∷ os)
    set_there :
        (x : Order P) {xs ys : List (Order P)}
        → Requantified i n xs ys
        → Requantified i n (x ∷ xs) (x ∷ ys)

  pub Requantified-append_left :
      {i n : ℕ} {xs ys : List (Order P)} (zs : List (Order P))
      → Requantified i n xs ys
      → Requantified i n (zs ++ xs) (zs ++ ys)
  Requantified-append_left [] r = r
  Requantified-append_left (z ∷ zs) r = set_there z (Requantified-append_left zs r)

  pub Requantified-append_right :
      {i n : ℕ} {xs ys : List (Order P)} (zs : List (Order P))
      → Requantified i n xs ys
      → Requantified i n (xs ++ zs) (ys ++ zs)
  Requantified-append_right zs (set_here o os e) = set_here o (os ++ zs) e
  Requantified-append_right zs (set_there x r) = set_there x (Requantified-append_right zs r)

  -- A new quantity changes nothing by which orders are found.
  pub Requantified-length :
      {i n : ℕ} {xs ys : List (Order P)} → Requantified i n xs ys → length xs ≡ length ys
  Requantified-length (set_here o os e) = refl
  Requantified-length (set_there x r) = ap suc (Requantified-length r)

  pub Requantified-count_id :
      {i n : ℕ} {xs ys : List (Order P)} (j : ℕ)
      → Requantified i n xs ys
      → count_id j xs ≡ count_id j ys
  Requantified-count_id j (set_here o os e) = refl
  Requantified-count_id j (set_there x r) = omega (arith, Requantified-count_id j r)
