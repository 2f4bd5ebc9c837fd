-- ===== src/Index/Agrees.antt =====
-- When `order_index_` of include/order_book.hpp agrees with the resting orders.
use leviathan_matching_engin.Prelude.{
  ℕ, ◌≤◌, true, ◌≡◌, ◌≢◌, refl, ap, sym, ◌∙◌, none, some, List, ◌++◌, arith, ◌==◌, length,
  length-append, Option-cases, inl, inr, Option,
}
use leviathan_matching_engin.Order.{Order}
use leviathan_matching_engin.Index.{
  Index, OrderLocation, lookup, insert, erase, HasDistinctKeys, lookup-insert, lookup-erase,
  insert-HasDistinctKeys, erase-HasDistinctKeys, length-insert, length-erase,
}
use leviathan_matching_engin.Resting.{
  find_id, count_id, Insertion, Requantified, set_here, set_there, count_id-append, find_id-append,
  count_id-find_none, find_id-count_zero, Insertion-length, Insertion-count_id, Insertion-find_id,
  Requantified-length, Requantified-count_id,
}

module _ {P : Type 0} where
  abbrev pub location : Order P → OrderLocation P
  location o = record { side = o.side; price = o.price }

  abbrev pub location_of : Option (Order P) → Option (OrderLocation P)
  location_of none = none
  location_of (some o) = some (location o)

  pub record Agrees (x : Index P) (l : List (Order P)) : Type 0 where
    pub located : (i : ℕ) → lookup i x ≡ location_of (find_id i l)
    pub unique : (i : ℕ) → count_id i l ≤ 1
    pub distinct : HasDistinctKeys x
    pub counted : length x ≡ length l

  pub location_of-none : (o : Option (Order P)) → location_of o ≡ none → o ≡ none
  location_of-none none h = refl
  location_of-none (some o) h = cc

  -- A missing key is the id of no resting order.
  pub Agrees-count_zero :
      {x : Index P} {l : List (Order P)} (i : ℕ) → Agrees x l → lookup i x ≡ none → count_id i l ≡ 0
  Agrees-count_zero {l} i a h =
      count_id-find_none i l (location_of-none (find_id i l) (sym (a.located i) ∙ h))

  -- The order that an entry of the index is about.
  pub Agrees-found :
      {x : Index P} {l : List (Order P)} (i : ℕ) {v : OrderLocation P}
      → Agrees x l
      → lookup i x ≡ some v
      → (o : Order P) × (find_id i l ≡ some o) × (v ≡ location o)
  Agrees-found {l} i a h = elim (Option-cases (find_id i l)) [
    | inl missing ↦ ground (arith, a.located i)
    | inr (o, e) ↦ (o, e, ground (arith, a.located i))
  ]

  -- The same count at an id that the test `==` takes for the same.
  count_id-same :
      (i j : ℕ) (l : List (Order P)) → count_id j l ≡ 0 → (i == j) ≡ true → count_id i l ≡ 0
  count_id-same i j l z e = let p : i ≡ j = ground arith in rw p z

  pub insert-Agrees :
      {o : Order P} {x : Index P} {l l' : List (Order P)}
      → lookup o.id x ≡ none
      → Insertion o l l'
      → Agrees x l
      → Agrees (insert o.id (location o) x) l'
  insert-Agrees {o} {x} {l} {l'} h n a = record {
    located = λ i.
        rw (lookup-insert i o.id (location o) x)
          (ground (arith, a.located i, Insertion-find_id i n zero_before));
    unique =
        λ i. ground (arith, a.unique i, Insertion-count_id i n, count_id-same i o.id l zero_before);
    distinct = insert-HasDistinctKeys o.id (location o) x a.distinct;
    counted = omega (arith, length-insert o.id (location o) x h, a.counted, Insertion-length n);
  }
    where
      zero_before : count_id o.id l ≡ 0
      zero_before = Agrees-count_zero o.id a h

  pub erase-Agrees :
      {o : Order P} {x : Index P} {l l' : List (Order P)}
      → Insertion o l l'
      → Agrees x l'
      → Agrees (erase o.id x) l
  erase-Agrees {o} {x} {l} {l'} n a = record {
    located = λ i. rw (lookup-erase i o.id x) (
        ground (
          arith,
          a.located i,
          Insertion-find_id i n zero_left,
          find_id-count_zero i l,
          count_id-same i o.id l zero_left,
        ));
    unique = λ i. ground (arith, a.unique i, Insertion-count_id i n);
    distinct = erase-HasDistinctKeys o.id x a.distinct;
    counted = omega (arith, length-erase o.id x a.distinct found, a.counted, Insertion-length n);
  }
    where
      zero_left : count_id o.id l ≡ 0
      zero_left = ground (arith, a.unique o.id, Insertion-count_id o.id n)

      found : lookup o.id x ≢ none
      found e = ground (arith, a.located o.id, Insertion-find_id o.id n zero_left)

  -- With one order to an id, the order of two lists does not matter.
  pub find_id-swap :
      (i : ℕ) (xs ys : List (Order P))
      → count_id i (xs ++ ys) ≤ 1
      → find_id i (xs ++ ys) ≡ find_id i (ys ++ xs)
  find_id-swap i xs ys h = ground (
    arith,
    count_id-append i xs ys,
    find_id-append i xs ys,
    find_id-append i ys xs,
    find_id-count_zero i xs,
    find_id-count_zero i ys,
  )

  pub swap-Agrees :
      {x : Index P} (xs ys : List (Order P)) → Agrees x (xs ++ ys) → Agrees x (ys ++ xs)
  swap-Agrees {x} xs ys a = record {
    located = λ i. a.located i ∙ ap location_of (find_id-swap i xs ys (a.unique i));
    unique = λ i. omega (arith, a.unique i, count_id-append i xs ys, count_id-append i ys xs);
    distinct = a.distinct;
    counted = omega (arith, a.counted, length-append xs ys, length-append ys xs);
  }

  Requantified-location :
      {i n : ℕ} {xs ys : List (Order P)} (j : ℕ)
      → Requantified i n xs ys
      → location_of (find_id j xs) ≡ location_of (find_id j ys)
  Requantified-location j (set_here o os e) = ground arith
  Requantified-location j (set_there x r) = ground (arith, Requantified-location j r)

  pub requantify-Agrees :
      {i n : ℕ} {x : Index P} {xs ys : List (Order P)}
      → Requantified i n xs ys
      → Agrees x ys
      → Agrees x xs
  requantify-Agrees r a = record {
    located = λ j. a.located j ∙ sym (Requantified-location j r);
    unique = λ j. omega (arith, a.unique j, Requantified-count_id j r);
    distinct = a.distinct;
    counted = omega (arith, a.counted, Requantified-length r);
  }
