-- ===== src/Exchange/Refinement.antt =====
-- `addOrder`, `cancelOrder` and `submitOrder` of src/order_book.cpp against the abstract
-- exchange.
use mathlib.Core.Path.{ap₂}
use leviathan_matching_engin.Prelude.{
  ℕ, ◌+◌, ◌≤◌, ◌<◌, ◌≡◌, refl, ap, sym, ◌∙◌, Bool, true, false, not, ◌&&◌, List, [], ◌++◌, ◌==◌,
  if◌then◌else◌, arith, Bool-cases, Option-cases, inl, inr,
}
use leviathan_matching_engin.Price.{Comparator}
use leviathan_matching_engin.Order.{
  Side, buy, sell, Order, opposite, is_market, is_limit, is_fok, uint64_limit,
}
use leviathan_matching_engin.Index
use leviathan_matching_engin.Index.{Index}
use leviathan_matching_engin.Index.Agrees.{Agrees-count_zero}
use leviathan_matching_engin.Resting.{count_id, count_id-append, Insertion, Insertion-count_id}
use leviathan_matching_engin.Levels.{Levels, orders}
use leviathan_matching_engin.Book.{OrderBook, side_map, set_side, comparator}
use leviathan_matching_engin.Book.Validity.{IsValid, side-IsLadder, side-Agrees}
use leviathan_matching_engin.Matching.{run_matching}
use leviathan_matching_engin.Matching.Fills.{eligible_volume}
use leviathan_matching_engin.Matching.Refinement.{Refines, spec}
use leviathan_matching_engin.Matching.Priority.{consume}
use leviathan_matching_engin.Matching.Preview.{can_fully_fill_from_map_lem}
use leviathan_matching_engin.Operations.{
  add_order, cancel_order, submit_order, execute, can_fully_fill, rest_remainder,
}
use leviathan_matching_engin.Operations.Matched.{matched, run_matching-Refines, matched-IsValid}
use leviathan_matching_engin.Operations.Cancel.{cancel_order_found, cancel_order_missing}
use leviathan_matching_engin.Exchange.{
  Exchange, view, queue, set_queue, remove_id, remove, place, add, acceptable, trade, is_killed,
  submit,
}
use leviathan_matching_engin.Exchange.Place.{
  push_back-place, remove_id-missing, Insertion-remove_id,
}

module _ {P : Type 0} where
  pub view-set_side :
      (s : Side) (m : Levels P) (x : Index P) (b : OrderBook P)
      → view (set_side s m x b) ≡ set_queue s (orders m) (view b)
  view-set_side buy m x b = refl
  view-set_side sell m x b = refl

  pub queue-view : (s : Side) (b : OrderBook P) → queue s (view b) ≡ orders (side_map s b)
  queue-view buy b = refl
  queue-view sell b = refl

  remove-side :
      (s : Side) (i : ℕ) (q : List (Order P)) (b : OrderBook P)
      → remove_id i (orders (side_map s b)) ≡ q
      → remove_id i (orders (side_map (opposite s) b)) ≡ orders (side_map (opposite s) b)
      → remove i (view b) ≡ set_queue s q (view b)
  remove-side buy i q b e f = ground arith
  remove-side sell i q b e f = ground arith

  -- Whether the exchange has a resting order with the id.
  abbrev pub has_id : ℕ → Exchange P → Bool
  has_id i e = not (count_id i (e.bids ++ e.asks) == 0)

module _ {P : Type 0} (less : Comparator P) where
  -- On a valid book `addOrder` puts the order behind the resting orders of its side that are not
  -- worse, and before the others.
  pub add_order-refines :
      (b : OrderBook P) (o : Order P)
      → IsValid less b
      → view (add_order less b o) ≡ add less o (view b)
  unfolding add_order
  add_order-refines b o v =
      view-set_side o.side _ _ b
      ∙ ap (λ q. set_queue o.side q (view b))
          (push_back-place (comparator less o.side) o.side o (side_map o.side b)
              (side-IsLadder less o.side v)
            ∙ ap (place (comparator less o.side) o) (sym (queue-view o.side b)))

  -- In a valid book the order that a side holds under an id is the only one with that id.
  pub count_id-split :
      (b : OrderBook P) (s : Side) (i : ℕ)
      → IsValid less b
      → count_id i (orders (side_map s b)) + count_id i (orders (side_map (opposite s) b)) ≤ 1
  count_id-split b s i v = omega (
    arith,
    (side-Agrees less s v).unique i,
    count_id-append i (orders (side_map s b)) (orders (side_map (opposite s) b)),
  )

  -- One order out of a side: what the exchange's removal does.
  taken_out :
      (b : OrderBook P) (s : Side) (o : Order P) (m : Levels P)
      → IsValid less b
      → Insertion o (orders m) (orders (side_map s b))
      → (remove o.id (view b) ≡ set_queue s (orders m) (view b)) × (has_id o.id (view b) ≡ true)
  taken_out b s o m v n =
      let one = count_id-split b s o.id v in
      let ours : count_id o.id (orders (side_map s b)) ≡ 1 + count_id o.id (orders m) =
        ground (arith, Insertion-count_id o.id n) in
      (
        remove-side s o.id (orders m) b (Insertion-remove_id n (omega arith))
            (remove_id-missing o.id (orders (side_map (opposite s) b)) (omega arith)),
        ground (arith, total s, count_id-append o.id (orders b.bids) (orders b.asks)),
      )
    where
      total :
          (r : Side)
          → count_id o.id (orders b.bids) + count_id o.id (orders b.asks)
            ≡ count_id o.id (orders (side_map r b))
              + count_id o.id (orders (side_map (opposite r) b))
      total buy = refl
      total sell = omega arith

  -- On a valid book `cancelOrder` takes the order with the id out of the resting orders, and
  -- returns whether there was one.
  pub cancel_order-refines :
      (b : OrderBook P) (i : ℕ)
      → IsValid less b
      → (view (cancel_order less b i).0 ≡ remove i (view b))
        × ((cancel_order less b i).1 ≡ has_id i (view b))
  cancel_order-refines b i v = elim (Option-cases (Index.lookup i b.order_index)) [
    | inl missing ↦
        let none_here : count_id i (orders b.bids ++ orders b.asks) ≡ 0 =
          Agrees-count_zero i v.indexed missing in
        let parts = count_id-append i (orders b.bids) (orders b.asks) in
        rw (cancel_order_missing less b i missing) (
          ground (arith, remove_id-missing i (orders b.bids), remove_id-missing i (orders b.asks)),
          ground arith,
        )
    | inr (loc, found) ↦
        let (o, m, done, same, _, n, _) = cancel_order_found less b i v found in
        let out = taken_out b loc.side o m v n in
        rw (done, ← same) (view-set_side loc.side m _ b ∙ sym out.0, sym out.1)
  ]

  can_fully_fill-is_killed :
      (b : OrderBook P) (t : Order P)
      → IsValid less b
      → 0 < t.quantity
      → (is_fok t.type ≡ true
          → eligible_volume (acceptable less t) (queue (opposite t.side) (view b)) < uint64_limit)
      → (is_fok t.type && not (can_fully_fill less b t.side t.price t.quantity))
        ≡ is_killed less t (view b)
  unfolding can_fully_fill
  can_fully_fill-is_killed b t v pos w = elim (Bool-cases (is_fok t.type)) [
    | inl killable ↦
        let priced : is_market t.type ≡ false = ground arith in
        let small = rw (priced, queue-view (opposite t.side) b) at (w killable) in
        let decided =
          can_fully_fill_from_map_lem (comparator less (opposite t.side)) (opposite t.side) t.price
            t.quantity (side_map (opposite t.side) b) (side-IsLadder less (opposite t.side) v) pos
            small in
        rw (priced, queue-view (opposite t.side) b)
          (ap (λ (x : Bool). is_fok t.type && not x) decided)
    | inr other ↦ rw other
  ]

  -- What becomes of the remainder of a taker.
  abbrev settle : Order P → Exchange P → Exchange P
  settle t e = if not (t.quantity == 0) && is_limit t.type then add less t e else e

  rest_remainder-refines :
      (b : OrderBook P) (t : Order P)
      → IsValid less b
      → view (rest_remainder less b t) ≡ settle t (view b)
  rest_remainder-refines b t v = elim (Bool-cases (not (t.quantity == 0) && is_limit t.type)) [
    | inl rests ↦ rw rests (add_order-refines b t v)
    | inr done ↦ rw done
  ]

  pub execute-refines :
      (b : OrderBook P) (t : Order P)
      → IsValid less b
      → (view (execute less b t).0 ≡ (trade less t (view b)).0)
        × ((execute less b t).1 ≡ (trade less t (view b)).1)
  unfolding execute
  execute-refines b t v = (
    rest_remainder-refines (matched less b t) (run_matching less b t).incoming
          (matched-IsValid less b t v)
        ∙ ap₂ settle done.taker (
            view-set_side theirs (run_matching less b t).side_map _ b
            ∙ ap (λ q. set_queue theirs q (view b)) done.book)
        ∙ ap
            (λ os.
              let x = consume (acceptable less t) t os in
              settle (record t { quantity = x.left }) (set_queue theirs x.remaining (view b)))
            (sym (queue-view theirs b)),
    done.filled ∙ ap (λ os. (consume (acceptable less t) t os).fills) (sym (queue-view theirs b)),
  )
    where
      theirs : Side
      theirs = opposite t.side

      done :
          Refines
            (comparator less theirs)
            (is_market t.type)
            theirs
            (record {
              incoming = t;
              side_map = side_map theirs b;
              order_index = b.order_index;
              trades = [];
            })
            (run_matching less b t)
            (spec (comparator less theirs) (is_market t.type) theirs t (orders (side_map theirs b)))
      done = run_matching-Refines less b t v

  -- On a valid book `submitOrder` leaves the resting orders, and makes the trades, of the abstract
  -- exchange, which has no levels and no index; for a FOK order, where the volume at its price or
  -- better is below 2^64.
  pub submit_order-refines :
      (b : OrderBook P) (t : Order P)
      → IsValid less b
      → (is_fok t.type ≡ true
          → eligible_volume (acceptable less t) (queue (opposite t.side) (view b)) < uint64_limit)
      → (view (submit_order less b t).0 ≡ (submit less t (view b)).0)
        × ((submit_order less b t).1 ≡ (submit less t (view b)).1)
  unfolding submit_order submit
  submit_order-refines b t v w = elim (Bool-cases (t.quantity == 0)) [
    | inl zero_quantity ↦ rw zero_quantity (refl, refl)
    | inr some_quantity ↦
        let same = can_fully_fill-is_killed b t v (ground arith) w in
        elim (Bool-cases (is_killed less t (view b))) [
          | inl killed ↦ rw (some_quantity, same ∙ killed, killed) (refl, refl)
          | inr alive ↦ rw (some_quantity, same ∙ alive, alive) (execute-refines b t v)
        ]
  ]
