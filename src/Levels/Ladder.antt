-- ===== src/Levels/Ladder.antt =====
-- The shape of a side map of src/order_book.cpp: levels in the order of the comparator, none of them
-- empty, and every order at the level of its price, on its side and with a quantity left to fill.
use leviathan_matching_engin.Prelude.{
  ℕ, ◌<◌, ◌≡◌, ◌≢◌, true, List, [], ◌∷◌, ◌++◌, arith, All, All-append, All-imp, inl, inr,
  Bool-cases, append_assoc, some,
}
use leviathan_matching_engin.Price.{Comparator}
use leviathan_matching_engin.Order.{Side, Order}
use leviathan_matching_engin.Levels.{Levels, orders, push_back}
use leviathan_matching_engin.Resting.{
  Insertion, here, there, Insertion-append_left, find_id, All-find_id,
}

module _ {P : Type 0} where
  abbrev pub Belongs : Side → P → Order P → Type 0
  Belongs side k o = (o.side ≡ side) × (o.price ≡ k) × (0 < o.quantity)

  -- Every key comes after `k`.
  abbrev pub Above : Comparator P → P → Levels P → Type 0
  Above c k m = All (λ (l : P × List (Order P)). c.lt k l.0 ≡ true) m

  abbrev pub IsLadder : Comparator P → Side → Levels P → Type 0
  IsLadder c side [] = Unit
  IsLadder c side ((k, q) ∷ rest) =
      (q ≢ []) × All (Belongs side k) q × Above c k rest × IsLadder c side rest

  pub Insertion-snoc : (o : Order P) (q : List (Order P)) → Insertion o q (q ++ o ∷ [])
  Insertion-snoc o [] = here []
  Insertion-snoc o (x ∷ q) = there x (Insertion-snoc o q)

  pub append-ne-nil : (o : Order P) (q : List (Order P)) → q ++ o ∷ [] ≢ []
  append-ne-nil o [] h = cc
  append-ne-nil o (x ∷ q) h = cc

module _ {P : Type 0} (c : Comparator P) where
  pub Above-trans : (j k : P) (m : Levels P) → c.lt j k ≡ true → Above c k m → Above c j m
  Above-trans j k m h a = All-imp _ _ m (λ l p. c.lt_trans j k l.0 h p) a

  push_back-Above :
      (j p : P) (o : Order P) (m : Levels P)
      → c.lt j p ≡ true
      → Above c j m
      → Above c j (push_back c p o m)
  unfolding push_back
  push_back-Above j p o [] h a = (h, tt)
  push_back-Above j p o ((k, q) ∷ rest) h a = ground (arith, push_back-Above j p o rest h a.1)

  -- A new order goes into the level of its price, which is made if there is none.
  pub push_back-IsLadder :
      (side : Side) (p : P) (o : Order P) (m : Levels P)
      → Belongs side p o
      → IsLadder c side m
      → IsLadder c side (push_back c p o m)
  unfolding push_back
  push_back-IsLadder side p o [] b l = (λ e. cc, (b, tt), tt, tt)
  push_back-IsLadder side p o ((k, q) ∷ rest) b (ne, all, above, l) = elim (Bool-cases (c.lt p k)) [
    | inl before ↦
        rw before
          (λ e. cc, (b, tt), (before, Above-trans p k rest before above), (ne, all, above, l))
    | inr not_before ↦ elim (Bool-cases (c.lt k p)) [
      | inl after ↦
          rw (not_before, after)
            (ne, all, push_back-Above k p o rest after above, push_back-IsLadder side p o rest b l)
      | inr not_after ↦
          rw (not_before, not_after)
            (
              append-ne-nil o q,
              All-append _ q (o ∷ []) all
                  (let e : p ≡ k = c.lt_connex p k not_before not_after in subst_level e, tt),
              above,
              l,
            )
    ]
  ]
    where
      subst_level : p ≡ k → Belongs side k o
      subst_level e = ground arith

  pub push_back-Insertion :
      (p : P) (o : Order P) (m : Levels P) → Insertion o (orders m) (orders (push_back c p o m))
  unfolding push_back
  push_back-Insertion p o [] = here []
  push_back-Insertion p o ((k, q) ∷ rest) = elim (Bool-cases (c.lt p k)) [
    | inl before ↦ rw before (here _)
    | inr not_before ↦ elim (Bool-cases (c.lt k p)) [
      | inl after ↦ rw (not_before, after) (Insertion-append_left q (push_back-Insertion p o rest))
      | inr not_after ↦
          rw (not_before, not_after, append_assoc) (Insertion-append_left q (here (orders rest)))
    ]
  ]

  -- An order found below a level comes after it.
  pub find_id-Above :
      (side : Side) (i : ℕ) (j : P) (m : Levels P) {o : Order P}
      → IsLadder c side m
      → Above c j m
      → find_id i (orders m) ≡ some o
      → c.lt j o.price ≡ true
  find_id-Above side i j m {o} l a h =
      All-find_id (λ (x : Order P). c.lt j x.price ≡ true) i (orders m) (go m l a) h
    where
      go :
          (n : Levels P)
          → IsLadder c side n
          → Above c j n
          → All (λ (x : Order P). c.lt j x.price ≡ true) (orders n)
      go [] l' a' = tt
      go ((k, q) ∷ rest) l' a' =
          All-append _ q (orders rest) (All-imp _ _ q (λ x b. rw b.1 a'.0) l'.1) (go rest l'.3 a'.1)

  -- Every order of the map is on its side and has a quantity left.
  pub IsLadder-orders :
      (side : Side) (m : Levels P)
      → IsLadder c side m
      → All (λ (o : Order P). (o.side ≡ side) × (0 < o.quantity)) (orders m)
  IsLadder-orders side [] l = tt
  IsLadder-orders side ((k, q) ∷ rest) l =
      All-append _ q (orders rest) (All-imp _ _ q (λ o b. (b.0, b.2)) l.1)
        (IsLadder-orders side rest l.3)
