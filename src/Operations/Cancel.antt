-- ===== src/Operations/Cancel.antt =====
-- `cancelOrder` of src/order_book.cpp, on an id that the index has and on one that it has not.
use leviathan_matching_engin.Prelude.{ℕ, ◌≡◌, ap, ◌∙◌, true, false, none, some, ==-refl}
use leviathan_matching_engin.Price.{Comparator}
use leviathan_matching_engin.Order.{Order}
use leviathan_matching_engin.Index
use leviathan_matching_engin.Index.{Index, OrderLocation, lookup-erase}
use leviathan_matching_engin.Resting.{find_id, Insertion}
use leviathan_matching_engin.Levels.{Levels, orders, erase_from_side, erase_order, alter_level}
use leviathan_matching_engin.Levels.Ladder.{IsLadder}
use leviathan_matching_engin.Levels.Found.{erase_order-Altered}
use leviathan_matching_engin.Book.{OrderBook, side_map, set_side, comparator}
use leviathan_matching_engin.Book.Validity.{IsValid, side-IsLadder, set_side-index}
use leviathan_matching_engin.Book.Located.{lookup-Located}
use leviathan_matching_engin.Operations.{cancel_order, cancel_at}

module _ {P : Type 0} (less : Comparator P) where
  cancel_at_done :
      (b : OrderBook P) (i : ℕ) (loc : OrderLocation P) {m : Levels P} (p : P)
      → loc.price ≡ p
      → alter_level (comparator less loc.side) p (erase_order i) (side_map loc.side b) ≡ some m
      → cancel_at less b i (some loc) ≡ (set_side loc.side m (Index.erase i b.order_index) b, true)
  unfolding erase_from_side
  cancel_at_done b i loc {m} p e h =
      let h' : alter_level (comparator less loc.side) loc.price (erase_order i)
            (side_map loc.side b)
          ≡ some m =
        rw e h in
      rw (h', cancel_at)

  -- `cancelOrder` of an order that the index has takes that order, and no other, out of its side.
  pub cancel_order_found :
      (b : OrderBook P) (i : ℕ) {loc : OrderLocation P}
      → IsValid less b
      → Index.lookup i b.order_index ≡ some loc
      → (o : Order P) × (m : Levels P) × (cancel_order less b i
          ≡ (set_side loc.side m (Index.erase i b.order_index) b, true))
        × (o.id ≡ i)
        × (find_id i (orders (side_map loc.side b)) ≡ some o)
        × Insertion o (orders m) (orders (side_map loc.side b))
        × IsLadder (comparator less loc.side) loc.side m
  unfolding cancel_order
  cancel_order_found b i {loc} v h =
      let (o, found, e, same) = lookup-Located less b i v h in
      let (m, done, n, l, _) =
        erase_order-Altered (comparator less loc.side) loc.side i (side_map loc.side b)
          (side-IsLadder less loc.side v) found in
      (
        o,
        m,
        ap (cancel_at less b i) h
            ∙ cancel_at_done b i loc o.price (ap (λ (x : OrderLocation P). x.price) e) done,
        same,
        found,
        n,
        l,
      )

  pub cancel_order_missing :
      (b : OrderBook P) (i : ℕ)
      → Index.lookup i b.order_index ≡ none
      → cancel_order less b i ≡ (b, false)
  unfolding cancel_order
  cancel_order_missing b i h = ap (cancel_at less b i) h

  -- After a cancellation the index has no entry for the id.
  pub cancel_order-free :
      (b : OrderBook P) (i : ℕ) {loc : OrderLocation P}
      → IsValid less b
      → Index.lookup i b.order_index ≡ some loc
      → Index.lookup i (cancel_order less b i).0.order_index ≡ none
  cancel_order-free b i {loc} v h =
      let (o, m, done, _, _, _, _) = cancel_order_found b i v h in
      rw (
        done,
        set_side-index loc.side m (Index.erase i b.order_index) b,
        lookup-erase i i b.order_index,
        ==-refl i,
      )
