-- ===== src/Untimed/Operations.antt =====
-- The operations of src/order_book.cpp do not look at timestamps.
use leviathan_matching_engin.Prelude.{
  ℕ, Option-cases, inl, inr, ◌≡◌, refl, ap, sym, ◌∙◌, Option, none, some, List, arith,
}
use leviathan_matching_engin.Price.{Comparator}
use leviathan_matching_engin.Order.{Side, Order, Trade, opposite}
use leviathan_matching_engin.Index.{Index, OrderLocation}
use leviathan_matching_engin.Index
use leviathan_matching_engin.Levels.{alter_level, erase_from_side, erase_order}
use leviathan_matching_engin.Book.{OrderBook, side_map, set_side, comparator}
use leviathan_matching_engin.Matching.{run_matching}
use leviathan_matching_engin.Operations.{
  add_order, cancel_at, cancel_order, can_fully_fill, rest_remainder, execute, submit_order,
}
use leviathan_matching_engin.Untimed.{
  untimed_order, untimed_trades, untimed_book, side_map-untimed_book, set_side-untimed_book,
}
use leviathan_matching_engin.Untimed.Maps.{
  erase_order-IsUntimed, push_back-untimed_levels, alter_level-untimed_levels,
  can_fully_fill-untimed_levels,
}
use leviathan_matching_engin.Untimed.Matching.{run_matching-untimed}

module _ {P : Type 0} (less : Comparator P) where
  abbrev pub untimed_submission : OrderBook P × List (Trade P) → OrderBook P × List (Trade P)
  untimed_submission r = (untimed_book r.0, untimed_trades r.1)

  pub add_order-untimed :
      (b : OrderBook P) (o : Order P)
      → add_order less (untimed_book b) (untimed_order o) ≡ untimed_book (add_order less b o)
  unfolding add_order
  add_order-untimed b o =
      rw
        (
          side_map-untimed_book o.side b,
          push_back-untimed_levels (comparator less o.side) o.price o (side_map o.side b),
        )
        (set_side-untimed_book o.side _ _ b)

  cancel_at-untimed :
      (b : OrderBook P) (i : ℕ) (loc : Option (OrderLocation P))
      → cancel_at less (untimed_book b) i loc
        ≡ (untimed_book (cancel_at less b i loc).0, (cancel_at less b i loc).1)
  unfolding erase_from_side
  cancel_at-untimed b i none = refl
  cancel_at-untimed b i (some loc) =
      let c = comparator less loc.side in
      let m = side_map loc.side b in
      elim (Option-cases (alter_level c loc.price (erase_order i) m)) [
        | inl e ↦ ground (
          arith,
          side_map-untimed_book loc.side b,
          alter_level-untimed_levels c loc.price (erase_order i) m (erase_order-IsUntimed i),
        )
        | inr (m', e) ↦ ground (
          arith,
          side_map-untimed_book loc.side b,
          alter_level-untimed_levels c loc.price (erase_order i) m (erase_order-IsUntimed i),
          set_side-untimed_book loc.side m' (Index.erase i b.order_index) b,
        )
      ]

  pub cancel_order-untimed :
      (b : OrderBook P) (i : ℕ)
      → cancel_order less (untimed_book b) i
        ≡ (untimed_book (cancel_order less b i).0, (cancel_order less b i).1)
  unfolding cancel_order
  cancel_order-untimed b i = cancel_at-untimed b i (Index.lookup i b.order_index)

  can_fully_fill-untimed :
      (b : OrderBook P) (s : Side) (p : P) (n : ℕ)
      → can_fully_fill less (untimed_book b) s p n ≡ can_fully_fill less b s p n
  unfolding can_fully_fill
  can_fully_fill-untimed b s p n =
      rw (side_map-untimed_book (opposite s) b)
        (can_fully_fill-untimed_levels (comparator less (opposite s)) (side_map (opposite s) b) p n)

  rest_remainder-untimed :
      (b : OrderBook P) (t : Order P)
      → rest_remainder less (untimed_book b) (untimed_order t)
        ≡ untimed_book (rest_remainder less b t)
  rest_remainder-untimed b t = ground (arith, add_order-untimed b t)

  execute-untimed :
      (b : OrderBook P) (t : Order P)
      → execute less (untimed_book b) (untimed_order t) ≡ untimed_submission (execute less b t)
  unfolding execute
  execute-untimed b t =
      let m = run_matching less b t in
      rw
        (
          run_matching-untimed less b t,
          set_side-untimed_book (opposite t.side) m.side_map m.order_index b,
          rest_remainder-untimed (set_side (opposite t.side) m.side_map m.order_index b) m.incoming,
        )
        refl

  -- On any book `submitOrder` without the timestamps of the orders does the same, and makes the
  -- same trades but for their timestamps.
  pub submit_order-untimed :
      (b : OrderBook P) (t : Order P)
      → submit_order less (untimed_book b) (untimed_order t)
        ≡ untimed_submission (submit_order less b t)
  unfolding submit_order
  submit_order-untimed b t =
      ground (arith, execute-untimed b t, can_fully_fill-untimed b t.side t.price t.quantity)

  -- Two books, and two orders, that are the same but for timestamps.
  pub submit_order-same :
      (b b' : OrderBook P) (t t' : Order P)
      → untimed_book b ≡ untimed_book b'
      → untimed_order t ≡ untimed_order t'
      → untimed_submission (submit_order less b t) ≡ untimed_submission (submit_order less b' t')
  submit_order-same b b' t t' e h =
      sym (submit_order-untimed b t)
      ∙ (λ i. submit_order less (e i) (h i))
      ∙ submit_order-untimed b' t'

  pub add_order-same :
      (b b' : OrderBook P) (t t' : Order P)
      → untimed_book b ≡ untimed_book b'
      → untimed_order t ≡ untimed_order t'
      → untimed_book (add_order less b t) ≡ untimed_book (add_order less b' t')
  add_order-same b b' t t' e h =
      sym (add_order-untimed b t) ∙ (λ i. add_order less (e i) (h i)) ∙ add_order-untimed b' t'

  pub cancel_order-same :
      (b b' : OrderBook P) (i : ℕ)
      → untimed_book b ≡ untimed_book b'
      → (untimed_book (cancel_order less b i).0 ≡ untimed_book (cancel_order less b' i).0)
        × ((cancel_order less b i).1 ≡ (cancel_order less b' i).1)
  cancel_order-same b b' i e =
      let p : (untimed_book (cancel_order less b i).0, (cancel_order less b i).1)
          ≡ (untimed_book (cancel_order less b' i).0, (cancel_order less b' i).1) =
        sym (cancel_order-untimed b i)
        ∙ (λ k. cancel_order less (e k) i)
        ∙ cancel_order-untimed b' i in
      (ap (λ x. x.0) p, ap (λ x. x.1) p)
