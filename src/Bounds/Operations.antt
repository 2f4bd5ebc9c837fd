-- ===== src/Bounds/Operations.antt =====
-- The operations of src/order_book.cpp on ids and quantities within `uint64_t`.
use leviathan_matching_engin.Prelude.{
  ℕ, ◌<◌, ◌==◌, leb, not, ◌&&◌, Bool-cases, Option-cases, inl, inr, Option, none, some, arith, All,
}
use leviathan_matching_engin.Price.{Comparator, same_price}
use leviathan_matching_engin.Order.{Order, opposite, limit, is_fok, make_order, uint64_limit}
use leviathan_matching_engin.Index
use leviathan_matching_engin.Index.{OrderLocation}
use leviathan_matching_engin.Levels.{alter_level, erase_from_side, set_quantity}
use leviathan_matching_engin.Book.{OrderBook, side_map, set_side, comparator}
use leviathan_matching_engin.Matching.{run_matching}
use leviathan_matching_engin.Operations.{
  add_order, cancel_at, cancel_order, can_fully_fill, rest_remainder, execute, submit_order,
  modify_found, modify_at, modify_order,
}
use leviathan_matching_engin.Recording.Calls.{trades_of}
use leviathan_matching_engin.Bounds.{FitsOrder, FitsTrade, FitsBook, side_map-Fits, set_side-Fits}
use leviathan_matching_engin.Bounds.Maps.{
  set_quantity-Fits, push_back-Fits, alter_level-Fits, erase_from_side-Fits,
}
use leviathan_matching_engin.Bounds.Matching.{run_matching-Fits}

module _ {P : Type 0} (less : Comparator P) where
  pub add_order-Fits :
      (b : OrderBook P) (o : Order P) → FitsBook b → FitsOrder o → FitsBook (add_order less b o)
  unfolding add_order
  add_order-Fits b o h ho =
      set_side-Fits o.side _ _ b
        (push_back-Fits (comparator less o.side) o.price o (side_map o.side b) ho
          (side_map-Fits o.side b h))
        h

  cancel_at-Fits :
      (b : OrderBook P) (i : ℕ) (loc : Option (OrderLocation P))
      → FitsBook b
      → FitsBook (cancel_at less b i loc).0
  cancel_at-Fits b i none h = h
  cancel_at-Fits b i (some loc) h =
      let c = comparator less loc.side in
      let m = side_map loc.side b in
      elim (Option-cases (erase_from_side c loc.price i m)) [
        | inl e ↦ rw (e, cancel_at) h
        | inr (m', e) ↦
            rw (e, cancel_at)
              (set_side-Fits loc.side m' (Index.erase i b.order_index) b
                (erase_from_side-Fits c loc.price i m m' e (side_map-Fits loc.side b h)) h)
      ]

  pub cancel_order-Fits :
      (b : OrderBook P) (i : ℕ) → FitsBook b → FitsBook (cancel_order less b i).0
  unfolding cancel_order
  cancel_order-Fits b i h = cancel_at-Fits b i (Index.lookup i b.order_index) h

  rest_remainder-Fits :
      (b : OrderBook P) (t : Order P)
      → FitsBook b
      → FitsOrder t
      → FitsBook (rest_remainder less b t)
  rest_remainder-Fits b t h ht = ground (arith, add_order-Fits b t h ht)

  execute-Fits :
      (b : OrderBook P) (t : Order P)
      → FitsBook b
      → FitsOrder t
      → FitsBook (execute less b t).0 × All FitsTrade (execute less b t).1
  unfolding execute
  execute-Fits b t h ht =
      let m = run_matching less b t in
      let fit = run_matching-Fits less b t h ht in
      (
        rest_remainder-Fits (set_side (opposite t.side) m.side_map m.order_index b) m.incoming
            (set_side-Fits (opposite t.side) m.side_map m.order_index b fit.levels h) fit.incoming,
        fit.trades,
      )

  -- A submission.
  pub submit_order-Fits :
      (b : OrderBook P) (t : Order P)
      → FitsBook b
      → FitsOrder t
      → FitsBook (submit_order less b t).0 × All FitsTrade (submit_order less b t).1
  unfolding submit_order
  submit_order-Fits b t h ht = elim (Bool-cases (t.quantity == 0)) [
    | inl e ↦ rw e (h, tt)
    | inr e ↦
        elim (Bool-cases (is_fok t.type && not (can_fully_fill less b t.side t.price t.quantity))) [
          | inl killed ↦ rw (e, killed) (h, tt)
          | inr alive ↦ rw (e, alive) (execute-Fits b t h ht)
        ]
  ]

  modify_found-Fits :
      (k : ℕ) (b : OrderBook P) (i : ℕ) (p : P) (n : ℕ) (loc : OrderLocation P)
      (o : Option (Order P))
      → FitsBook b
      → i < uint64_limit
      → n < uint64_limit
      → let r = modify_found less k b i p n loc o in FitsBook r.0 × All FitsTrade (trades_of r.1)
  modify_found-Fits k b i p n loc none h hi hn = (h, tt)
  modify_found-Fits k b i p n loc (some o) h hi hn =
      elim (Bool-cases (same_price less p loc.price && leb n o.quantity)) [
        | inl kept ↦
            let c = comparator less loc.side in
            let m = side_map loc.side b in
            elim (Option-cases (alter_level c loc.price (set_quantity i n) m)) [
              | inl e ↦ rw (kept, e) (h, tt)
              | inr (m', e) ↦
                  rw (kept, e)
                    (
                      set_side-Fits loc.side m' b.order_index b
                          (alter_level-Fits c loc.price (set_quantity i n) m m'
                            (set_quantity-Fits i n hn) e (side_map-Fits loc.side b h))
                          h,
                      tt,
                    )
            ]
        | inr moved ↦ rw moved (
            submit_order-Fits (cancel_order less b i).0 (make_order k i loc.side p n limit).0
              (cancel_order-Fits b i h) (hi, hn))
      ]

  modify_at-Fits :
      (k : ℕ) (b : OrderBook P) (i : ℕ) (p : P) (n : ℕ) (loc : Option (OrderLocation P))
      → FitsBook b
      → i < uint64_limit
      → n < uint64_limit
      → let r = modify_at less k b i p n loc in FitsBook r.0 × All FitsTrade (trades_of r.1)
  modify_at-Fits k b i p n none h hi hn = (h, tt)
  modify_at-Fits k b i p n (some loc) h hi hn = elim (Bool-cases (n == 0)) [
    | inl e ↦ elim (Bool-cases (cancel_order less b i).1) [
      | inl done ↦ rw (e, done) (cancel_order-Fits b i h, tt)
      | inr missing ↦ rw (e, missing) (cancel_order-Fits b i h, tt)
    ]
    | inr e ↦ rw e (modify_found-Fits k b i p n loc _ h hi hn)
  ]

  -- A modification.
  pub modify_order-Fits :
      (k : ℕ) (b : OrderBook P) (i : ℕ) (p : P) (n : ℕ)
      → FitsBook b
      → i < uint64_limit
      → n < uint64_limit
      → let r = modify_order less k b i p n in FitsBook r.0 × All FitsTrade (trades_of r.1)
  unfolding modify_order
  modify_order-Fits k b i p n h hi hn =
      modify_at-Fits k b i p n (Index.lookup i b.order_index) h hi hn
