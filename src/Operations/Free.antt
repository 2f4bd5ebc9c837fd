-- ===== src/Operations/Free.antt =====
-- Which ids the operations of src/order_book.cpp bring into the index.
use leviathan_matching_engin.Prelude.{
  ℕ, zero, suc, ◌≡◌, ◌≢◌, ap, ◌∙◌, subst, ◌&&◌, none, some, leb, arith, Bool-cases, Option-cases,
  inl, inr,
}
use leviathan_matching_engin.Price.{Comparator, same_price}
use leviathan_matching_engin.Order.{Order, limit, make_order}
use leviathan_matching_engin.Index
use leviathan_matching_engin.Index.{lookup-insert, lookup-erase, OrderLocation}
use leviathan_matching_engin.Book.{OrderBook}
use leviathan_matching_engin.Book.Validity.{IsValid, set_side-index}
use leviathan_matching_engin.Book.Located.{lookup-Located}
use leviathan_matching_engin.Matching.{run_matching}
use leviathan_matching_engin.Operations.{
  add_order, cancel_order, submit_order, execute, modify_order,
}
use leviathan_matching_engin.Operations.Matched.{matched, matched-free, run_matching-taker}
use leviathan_matching_engin.Operations.Cancel.{cancel_order_found, cancel_order_missing}
use leviathan_matching_engin.Operations.Submit.{submit_cases}
use leviathan_matching_engin.Operations.Modify.{
  modify_order_missing, modify_order_zero, modify_order_in_place, modify_order_resubmit,
}
use leviathan_matching_engin.Operations.Validity.{cancel_order-IsValid}

module _ {P : Type 0} where
  abbrev pub IsFree : ℕ → OrderBook P → Type 0
  IsFree i b = Index.lookup i b.order_index ≡ none

module _ {P : Type 0} (less : Comparator P) (i : ℕ) where
  pub add_order-IsFree :
      (b : OrderBook P) (o : Order P) → i ≢ o.id → IsFree i b → IsFree i (add_order less b o)
  unfolding add_order
  add_order-IsFree b o ne h =
      rw
        (
          set_side-index o.side _ _ b,
          lookup-insert i o.id (record { side = o.side; price = o.price }) b.order_index,
        )
        (ground arith)

  pub cancel_order-IsFree :
      (b : OrderBook P) (j : ℕ) → IsValid less b → IsFree i b → IsFree i (cancel_order less b j).0
  cancel_order-IsFree b j v h = elim (Option-cases (Index.lookup j b.order_index)) [
    | inl missing ↦ rw (cancel_order_missing less b j missing) h
    | inr (loc, found) ↦
        let (o, m, done, _, _, _, _) = cancel_order_found less b j v found in
        rw
          (
            done,
            set_side-index loc.side m (Index.erase j b.order_index) b,
            lookup-erase i j b.order_index,
          )
          (ground arith)
  ]

  execute-IsFree :
      (b : OrderBook P) (t : Order P)
      → i ≢ t.id
      → IsValid less b
      → IsFree i b
      → IsFree i (execute less b t).0
  unfolding execute
  execute-IsFree b t ne v h = ground (
    arith,
    matched-free less b t i v h,
    add_order-IsFree (matched less b t) (run_matching less b t).incoming ne',
  )
    where
      ne' : i ≢ (run_matching less b t).incoming.id
      ne' e = ne (e ∙ ap (λ (o : Order P). o.id) (run_matching-taker less b t v))

  pub submit_order-IsFree :
      (b : OrderBook P) (t : Order P)
      → i ≢ t.id
      → IsValid less b
      → IsFree i b
      → IsFree i (submit_order less b t).0
  submit_order-IsFree b t ne v h =
      submit_cases less t (λ r. IsFree i r.0) b (λ _. h) (λ _. h) (λ _. execute-IsFree b t ne v h)

  modify_order-IsFree_at :
      (counter : ℕ) (b : OrderBook P) (j : ℕ) (p : P) (n : ℕ) {loc : OrderLocation P}
      → i ≢ j
      → IsValid less b
      → Index.lookup j b.order_index ≡ some loc
      → IsFree i b
      → IsFree i (modify_order less counter b j p n).0
  modify_order-IsFree_at counter b j p zero ne v found h =
      rw (modify_order_zero less counter b j p v found) (cancel_order-IsFree b j v h)
  modify_order-IsFree_at counter b j p (suc n) {loc} ne v found h =
      let (o, here, e, _) = lookup-Located less b j v found in
      elim (Bool-cases (same_price less p loc.price && leb (suc n) o.quantity)) [
        | inl keep ↦
            let (m, done, _, _) =
              modify_order_in_place less counter b j p (suc n) v (omega arith) found o here e
                (ground arith) (ground arith) in
            rw (done, set_side-index loc.side m b.order_index b) h
        | inr move ↦
            rw
              (modify_order_resubmit less counter b j p (suc n) v (omega arith) found o here e move)
              (submit_order-IsFree (cancel_order less b j).0
                (make_order counter j loc.side p (suc n) limit).0 ne
                (cancel_order-IsValid less b j v) (cancel_order-IsFree b j v h))
      ]

  -- `modifyOrder` brings in no id at all.
  pub modify_order-IsFree :
      (counter : ℕ) (b : OrderBook P) (j : ℕ) (p : P) (n : ℕ)
      → IsValid less b
      → IsFree i b
      → IsFree i (modify_order less counter b j p n).0
  modify_order-IsFree counter b j p n v h = elim (Option-cases (Index.lookup j b.order_index)) [
    | inl missing ↦ rw (modify_order_missing less counter b j p n missing) h
    | inr (loc, found) ↦
        modify_order-IsFree_at counter b j p n
          (λ e. let other : Index.lookup j b.order_index ≡ none = subst (λ k. IsFree k b) e h in cc)
          v found h
  ]
