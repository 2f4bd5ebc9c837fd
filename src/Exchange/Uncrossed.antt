-- ===== src/Exchange/Uncrossed.antt =====
-- The two sides of the book of src/order_book.cpp through `submitOrder`, `cancelOrder` and
-- `modifyOrder`.
use leviathan_matching_engin.Prelude.{
  ℕ, ◌≡◌, true, ◌&&◌, inl, inr, some, List, [], ◌∷◌, ◌==◌, arith, All, All-imp, Bool-cases,
  Option-cases, leb, sym, subst,
}
use leviathan_matching_engin.Exchange.Resubmit.{modify_order-refines}
use leviathan_matching_engin.Price.{Comparator, same_price}
use leviathan_matching_engin.Order.{Side, buy, sell, Order, opposite}
use leviathan_matching_engin.Book.{OrderBook, comparator}
use leviathan_matching_engin.Book.Validity.{IsValid, side-IsLadder}
use leviathan_matching_engin.Matching.Sorted.{IsSorted, orders-IsSorted}
use leviathan_matching_engin.Operations.{submit_order, modify_order, cancel_order, execute}
use leviathan_matching_engin.Exchange.{
  Exchange, view, queue, remove_id, requantify, remove, find, submit, modify, modify_resting,
}
use leviathan_matching_engin.Exchange.Refinement.{execute-refines, cancel_order-refines}
use leviathan_matching_engin.Exchange.Apart.{IsUncrossed, trade-IsUncrossed}

module _ {P : Type 0} where
  remove_id-All {κ} :
      (Q : Order P → Type κ) (i : ℕ) (xs : List (Order P)) → All Q xs → All Q (remove_id i xs)
  remove_id-All Q i [] a = tt
  remove_id-All Q i (x ∷ xs) a = elim (Bool-cases (i == x.id)) [
    | inl here ↦ rw here a.1
    | inr further ↦ rw further (a.0, remove_id-All Q i xs a.1)
  ]

  requantify-prices {κ} :
      (Q : P → Type κ) (i n : ℕ) (xs : List (Order P))
      → All (λ (x : Order P). Q x.price) xs
      → All (λ (x : Order P). Q x.price) (requantify i n xs)
  requantify-prices Q i n [] a = tt
  requantify-prices Q i n (x ∷ xs) a = elim (Bool-cases (i == x.id)) [
    | inl here ↦ rw here a
    | inr further ↦ rw further (a.0, requantify-prices Q i n xs a.1)
  ]

  remove_id-IsSorted :
      (c : Comparator P) (i : ℕ) (xs : List (Order P)) → IsSorted c xs → IsSorted c (remove_id i xs)
  remove_id-IsSorted c i [] s = tt
  remove_id-IsSorted c i (x ∷ xs) s = elim (Bool-cases (i == x.id)) [
    | inl here ↦ rw here s.1
    | inr further ↦ rw further (remove_id-All _ i xs s.0, remove_id-IsSorted c i xs s.1)
  ]

module _ {P : Type 0} (less : Comparator P) where
  -- Each side is sorted by its comparator.
  abbrev BothSorted : Exchange P → Type 0
  BothSorted e = (s : Side) → IsSorted (comparator less s) (queue s e)

  pub view-BothSorted : (b : OrderBook P) → IsValid less b → BothSorted (view b)
  view-BothSorted b v buy =
      orders-IsSorted (comparator less buy) buy b.bids (side-IsLadder less buy v)
  view-BothSorted b v sell =
      orders-IsSorted (comparator less sell) sell b.asks (side-IsLadder less sell v)

  remove-IsUncrossed : (i : ℕ) (e : Exchange P) → IsUncrossed less e → IsUncrossed less (remove i e)
  remove-IsUncrossed i e u =
      remove_id-All _ i e.bids (All-imp _ _ e.bids (λ x a. remove_id-All _ i e.asks a) u)

  remove-BothSorted : (i : ℕ) (e : Exchange P) → BothSorted e → BothSorted (remove i e)
  remove-BothSorted i e s buy = remove_id-IsSorted (comparator less buy) i e.bids (s buy)
  remove-BothSorted i e s sell = remove_id-IsSorted (comparator less sell) i e.asks (s sell)

  requantify-IsUncrossed :
      (i n : ℕ) (e : Exchange P)
      → IsUncrossed less e
      → IsUncrossed less (record { bids = requantify i n e.bids; asks = requantify i n e.asks })
  requantify-IsUncrossed i n e u =
      requantify-prices
        (λ (p : P). All (λ (y : Order P). less.lt p y.price ≡ true) (requantify i n e.asks)) i n
        e.bids
        (All-imp _ _ e.bids
          (λ x a. requantify-prices (λ (p : P). less.lt x.price p ≡ true) i n e.asks a) u)

  submit-IsUncrossed :
      (t : Order P) (e : Exchange P)
      → BothSorted e
      → IsUncrossed less e
      → IsUncrossed less (submit less t e).0
  unfolding submit
  submit-IsUncrossed t e s u = ground (arith, trade-IsUncrossed less t e (s (opposite t.side)) u)

  modify_resting-IsUncrossed :
      (counter i : ℕ) (p : P) (n : ℕ) (e : Exchange P) (o : Order P)
      → BothSorted e
      → IsUncrossed less e
      → IsUncrossed less (modify_resting less counter i p n e (some o)).0
  modify_resting-IsUncrossed counter i p n e o s u = elim (Bool-cases (n == 0)) [
    | inl gone ↦ rw gone (remove-IsUncrossed i e u)
    | inr more ↦ elim (Bool-cases (same_price less p o.price && leb n o.quantity)) [
      | inl keep ↦ rw (more, keep) (requantify-IsUncrossed i n e u)
      | inr move ↦
          rw (more, move)
            (submit-IsUncrossed _ (remove i e) (remove-BothSorted i e s) (remove-IsUncrossed i e u))
    ]
  ]

  modify-IsUncrossed :
      (counter i : ℕ) (p : P) (n : ℕ) (e : Exchange P)
      → BothSorted e
      → IsUncrossed less e
      → IsUncrossed less (modify less counter i p n e).0
  unfolding modify
  modify-IsUncrossed counter i p n e s u = elim (Option-cases (find i e)) [
    | inl missing ↦ rw missing u
    | inr (o, found) ↦ rw found (modify_resting-IsUncrossed counter i p n e o s u)
  ]

  -- If in a valid book every bid is below every ask, it is so after `submitOrder` of any order.
  pub submit_order-IsUncrossed :
      (b : OrderBook P) (t : Order P)
      → IsValid less b
      → IsUncrossed less (view b)
      → IsUncrossed less (view (submit_order less b t).0)
  unfolding submit_order
  submit_order-IsUncrossed b t v u = ground (arith, executed)
    where
      executed : IsUncrossed less (view (execute less b t).0)
      executed =
          subst (IsUncrossed less) (sym (execute-refines less b t v).0)
            (trade-IsUncrossed less t (view b) (view-BothSorted b v (opposite t.side)) u)

  pub cancel_order-IsUncrossed :
      (b : OrderBook P) (i : ℕ)
      → IsValid less b
      → IsUncrossed less (view b)
      → IsUncrossed less (view (cancel_order less b i).0)
  cancel_order-IsUncrossed b i v u =
      subst (IsUncrossed less) (sym (cancel_order-refines less b i v).0)
        (remove-IsUncrossed i (view b) u)

  -- If in a valid book every bid is below every ask, it is so after `modifyOrder`.
  pub modify_order-IsUncrossed :
      (counter : ℕ) (b : OrderBook P) (i : ℕ) (p : P) (n : ℕ)
      → IsValid less b
      → IsUncrossed less (view b)
      → IsUncrossed less (view (modify_order less counter b i p n).0)
  modify_order-IsUncrossed counter b i p n v u =
      subst (IsUncrossed less) (sym (modify_order-refines less counter b i v p n).0)
        (modify-IsUncrossed counter i p n (view b) (view-BothSorted b v) u)
