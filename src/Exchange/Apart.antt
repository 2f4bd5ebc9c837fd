-- ===== src/Exchange/Apart.antt =====
-- The match of a taker in the abstract exchange, which src/order_book.cpp implements, and the
-- distance of the two sides.
use leviathan_matching_engin.Prelude.{
  ℕ, ◌≡◌, refl, true, false, not, ◌&&◌, inl, inr, List, [], ◌∷◌, ◌==◌, arith, All, All-imp,
  All-swap, Bool-cases,
}
use leviathan_matching_engin.Price.{Comparator}
use leviathan_matching_engin.Order.{Side, buy, sell, Order, opposite, is_market, is_limit}
use leviathan_matching_engin.Book.{comparator}
use leviathan_matching_engin.Matching.Priority.{consume}
use leviathan_matching_engin.Matching.Fills.{consume-prices}
use leviathan_matching_engin.Matching.Sorted.{IsSorted, consume-refused}
use leviathan_matching_engin.Exchange.{Exchange, queue, set_queue, place, add, acceptable, trade}

module _ {P : Type 0} (less : Comparator P) where
  -- Every bid is below every ask.
  abbrev pub IsUncrossed : Exchange P → Type 0
  IsUncrossed e =
      All (λ (x : Order P). All (λ (y : Order P). less.lt x.price y.price ≡ true) e.asks) e.bids

  -- The same, read from one side: each order there is out of reach of each on the other side.
  abbrev OutOfReach : Side → List (Order P) → List (Order P) → Type 0
  OutOfReach s ours theirs =
      All
        (λ (x : Order P).
          All (λ (y : Order P). (comparator less (opposite s)).lt x.price y.price ≡ true) theirs)
        ours

  uncrossed-side :
      (s : Side) (e : Exchange P) → IsUncrossed e → OutOfReach s (queue s e) (queue (opposite s) e)
  uncrossed-side buy e u = u
  uncrossed-side sell e u =
      All-swap (λ (x y : Order P). less.lt x.price y.price ≡ true) e.bids e.asks u

  side-IsUncrossed :
      (s : Side) (e : Exchange P) → OutOfReach s (queue s e) (queue (opposite s) e) → IsUncrossed e
  side-IsUncrossed buy e u = u
  side-IsUncrossed sell e u =
      All-swap (λ (y x : Order P). less.lt x.price y.price ≡ true) e.asks e.bids u

  place-All {κ} :
      (Q : Order P → Type κ) (c : Comparator P) (o : Order P) (xs : List (Order P))
      → Q o
      → All Q xs
      → All Q (place c o xs)
  place-All Q c o [] q a = (q, tt)
  place-All Q c o (x ∷ xs) q a = elim (Bool-cases (c.lt o.price x.price)) [
    | inl before ↦ rw before (q, a)
    | inr after ↦ rw after (a.0, place-All Q c o xs q a.1)
  ]

  queue-set_opposite :
      (s : Side) (q : List (Order P)) (e : Exchange P)
      → (queue (opposite s) (set_queue (opposite s) q e) ≡ q)
        × (queue s (set_queue (opposite s) q e) ≡ queue s e)
  queue-set_opposite buy q e = (refl, refl)
  queue-set_opposite sell q e = (refl, refl)

  set_queue-IsUncrossed :
      (s : Side) (q : List (Order P)) (e : Exchange P)
      → OutOfReach s q (queue (opposite s) e)
      → IsUncrossed (set_queue s q e)
  set_queue-IsUncrossed buy q e u = u
  set_queue-IsUncrossed sell q e u =
      All-swap (λ (y x : Order P). less.lt x.price y.price ≡ true) q e.bids u

  module _ (t : Order P) (e : Exchange P)
      (sorted : IsSorted (comparator less (opposite t.side)) (queue (opposite t.side) e))
      (u : IsUncrossed e) where
    abbrev theirs : Comparator P
    theirs = comparator less (opposite t.side)

    abbrev left_over : List (Order P)
    left_over = (consume (acceptable less t) t (queue (opposite t.side) e)).remaining

    abbrev matched_exchange : Exchange P
    matched_exchange = set_queue (opposite t.side) left_over e

    ours-OutOfReach : OutOfReach t.side (queue t.side e) left_over
    ours-OutOfReach =
        All-imp _ _ (queue t.side e)
          (λ x all.
            consume-prices (acceptable less t) (λ (p : P). theirs.lt x.price p ≡ true) t
              (queue (opposite t.side) e) all)
          (uncrossed-side t.side e u)

    matched-IsUncrossed : IsUncrossed matched_exchange
    matched-IsUncrossed = side-IsUncrossed t.side matched_exchange (
        rw ((queue-set_opposite t.side left_over e).0, (queue-set_opposite t.side left_over e).1)
          ours-OutOfReach)

    -- What is left of a LIMIT order is out of reach of what is left of the other side.
    remainder-OutOfReach :
        is_limit t.type ≡ true
        → ((consume (acceptable less t) t (queue (opposite t.side) e)).left == 0) ≡ false
        → All (λ (y : Order P). theirs.lt t.price y.price ≡ true) left_over
    remainder-OutOfReach lim more =
        elim (consume-refused theirs (is_market t.type) t.price t (queue (opposite t.side) e)
          sorted) [
            | inl done ↦ absurd (ground arith)
            | inr refused ↦
                let priced : is_market t.type ≡ false = ground arith in
                All-imp _ _ left_over (λ y no. ground arith) refused
          ]

    rested-IsUncrossed :
        (n : ℕ)
        → is_limit t.type ≡ true
        → ((consume (acceptable less t) t (queue (opposite t.side) e)).left == 0) ≡ false
        → IsUncrossed (add less (record t { quantity = n }) matched_exchange)
    rested-IsUncrossed n lim more = set_queue-IsUncrossed t.side _ matched_exchange (
        rw ((queue-set_opposite t.side left_over e).0, (queue-set_opposite t.side left_over e).1)
          (place-All _ (comparator less t.side) (record t { quantity = n }) (queue t.side e)
            (remainder-OutOfReach lim more) ours-OutOfReach))

    -- A taker leaves no bid at or above an ask.
    pub trade-IsUncrossed : IsUncrossed (trade less t e).0
    trade-IsUncrossed =
        elim (Bool-cases (
          not ((consume (acceptable less t) t (queue (opposite t.side) e)).left == 0)
          && is_limit t.type)) [
            | inl rests ↦ rw rests (rested-IsUncrossed _ (ground arith) (ground arith))
            | inr done ↦ rw done matched-IsUncrossed
          ]
