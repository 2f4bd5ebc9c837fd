-- ===== src/Exchange/Resubmit.antt =====
-- `modifyOrder` of src/order_book.cpp against the abstract exchange's modification.
use leviathan_matching_engin.Prelude.{
  ℕ, zero, suc, ◌<◌, ◌≡◌, refl, ap, sym, ◌∙◌, Bool, true, false, ◌&&◌, Option, none, some, List, [],
  ◌==◌, leb, arith, Bool-cases, Option-cases, inl, inr,
}
use leviathan_matching_engin.Price.{Comparator, same_price}
use leviathan_matching_engin.Order.{Side, buy, sell, Order, Trade, limit, opposite, make_order}
use leviathan_matching_engin.Index
use leviathan_matching_engin.Index.{OrderLocation}
use leviathan_matching_engin.Index.Agrees.{location, location_of-none, find_id-swap}
use leviathan_matching_engin.Resting.{find_id, find_id-append}
use leviathan_matching_engin.Levels.{orders}
use leviathan_matching_engin.Book.{OrderBook, side_map}
use leviathan_matching_engin.Book.Validity.{IsValid}
use leviathan_matching_engin.Book.Located.{lookup-Located}
use leviathan_matching_engin.Operations.{cancel_order, modify_order}
use leviathan_matching_engin.Operations.Validity.{cancel_order-IsValid}
use leviathan_matching_engin.Operations.Modify.{
  modify_order_missing, modify_order_zero, modify_order_in_place, modify_order_resubmit,
}
use leviathan_matching_engin.Exchange.{
  Exchange, view, set_queue, requantify, remove, find, submit, modify, modify_resting,
}
use leviathan_matching_engin.Exchange.Place.{
  requantify-missing, Requantified-requantify, Requantified-count_pos,
}
use leviathan_matching_engin.Exchange.Refinement.{
  view-set_side, count_id-split, cancel_order-refines, submit_order-refines,
}

module _ {P : Type 0} where
  abbrev requantify_all : ℕ → ℕ → Exchange P → Exchange P
  requantify_all i n e = record { bids = requantify i n e.bids; asks = requantify i n e.asks }

  requantify-side :
      (s : Side) (i n : ℕ) (q : List (Order P)) (b : OrderBook P)
      → requantify i n (orders (side_map s b)) ≡ q
      → requantify i n (orders (side_map (opposite s) b)) ≡ orders (side_map (opposite s) b)
      → requantify_all i n (view b) ≡ set_queue s q (view b)
  requantify-side buy i n q b e f = ground arith
  requantify-side sell i n q b e f = ground arith

  -- What a modification did to the book and returned, against the exchange's.
  abbrev pub SameResult :
      OrderBook P × Option (List (Trade P)) × ℕ → Exchange P × Option (List (Trade P)) × ℕ → Type 0
  SameResult r e = (view r.0 ≡ e.0) × (r.1 ≡ e.1) × (r.2 ≡ e.2)

module _ {P : Type 0} (less : Comparator P) (counter : ℕ) (b : OrderBook P) (i : ℕ)
    (v : IsValid less b) where
  find-missing : Index.lookup i b.order_index ≡ none → find i (view b) ≡ none
  find-missing h = location_of-none _ (sym (v.indexed.located i) ∙ h)

  find-side :
      (s : Side) {o : Order P}
      → find_id i (orders (side_map s b)) ≡ some o
      → find i (view b) ≡ some o
  find-side buy found = ground (arith, find_id-append i (orders b.bids) (orders b.asks))
  find-side sell found = ground (
    arith,
    find_id-append i (orders b.asks) (orders b.bids),
    find_id-swap i (orders b.bids) (orders b.asks) (v.indexed.unique i),
  )

  module _ (p : P) (n : ℕ) {loc : OrderLocation P} (pos : 0 < n)
      (h : Index.lookup i b.order_index ≡ some loc) (o : Order P)
      (found : find_id i (orders (side_map loc.side b)) ≡ some o) (e : loc ≡ location o) where
    abbrev kept_test : Bool
    kept_test = same_price less p o.price && leb n o.quantity

    to_entry : {x : Bool} → kept_test ≡ x → (same_price less p loc.price && leb n o.quantity) ≡ x
    to_entry t = rw e t

    in_place-refines :
        kept_test ≡ true
        → SameResult
            (modify_order less counter b i p n)
            (requantify_all i n (view b), some [], counter)
    in_place-refines t =
        let t' = to_entry t in
        let (m, done, r, _) =
          modify_order_in_place less counter b i p n v pos h o found e (ground arith)
            (ground arith) in
        let one = count_id-split less b loc.side i v in
        rw done (
          view-set_side loc.side m b.order_index b
              ∙ sym (
                  requantify-side loc.side i n (orders m) b
                    (Requantified-requantify r (omega arith))
                    (requantify-missing i n _ (omega (arith, Requantified-count_pos r)))),
          refl,
          refl,
        )

    resubmit-refines :
        kept_test ≡ false
        → let (new, counter') = make_order counter i loc.side p n limit in
          let x = submit less new (remove i (view b)) in
          SameResult (modify_order less counter b i p n) (x.0, some x.1, counter')
    resubmit-refines t =
        let new = (make_order counter i loc.side p n limit).0 in
        let cancelled = cancel_order less b i in
        let out = cancel_order-refines less b i v in
        let done =
          submit_order-refines less cancelled.0 new (cancel_order-IsValid less b i v) (λ f. cc) in
        rw (modify_order_resubmit less counter b i p n v pos h o found e (to_entry t)) (
          done.0 ∙ ap (λ x. (submit less new x).0) out.0,
          ap some (done.1 ∙ ap (λ x. (submit less new x).1) out.0),
          refl,
        )

  modify_order-refines_found :
      (p : P) (n : ℕ) (loc : OrderLocation P) (o : Order P)
      → Index.lookup i b.order_index ≡ some loc
      → find_id i (orders (side_map loc.side b)) ≡ some o
      → loc ≡ location o
      → SameResult
          (modify_order less counter b i p n)
          (modify_resting less counter i p n (view b) (some o))
  modify_order-refines_found p zero loc o h found e =
      rw (modify_order_zero less counter b i p v h)
        ((cancel_order-refines less b i v).0, refl, refl)
  modify_order-refines_found p (suc n) loc o h found e =
      elim (Bool-cases (same_price less p o.price && leb (suc n) o.quantity)) [
        | inl keep ↦
            let nonzero : (suc n == 0) ≡ false = ground arith in
            rw (nonzero, keep) (in_place-refines p (suc n) (omega arith) h o found e keep)
        | inr move ↦
            let nonzero : (suc n == 0) ≡ false = ground arith in
            let side_of : loc.side ≡ o.side = ap (λ (l : OrderLocation P). l.side) e in
            rw (nonzero, move, ← side_of)
              (resubmit-refines p (suc n) (omega arith) h o found e move)
      ]

  -- On a valid book `modifyOrder` does in each of its cases what the abstract exchange does, with
  -- the same trades and draws from the timestamp counter.
  pub modify_order-refines :
      (p : P) (n : ℕ)
      → SameResult (modify_order less counter b i p n) (modify less counter i p n (view b))
  unfolding modify
  modify_order-refines p n = elim (Option-cases (Index.lookup i b.order_index)) [
    | inl missing ↦
        rw (modify_order_missing less counter b i p n missing, find-missing missing)
          (refl, refl, refl)
    | inr (loc, h) ↦
        let (o, found, e, _) = lookup-Located less b i v h in
        rw (find-side loc.side found) (modify_order-refines_found p n loc o h found e)
  ]
