-- ===== src/Book/Located.antt =====
-- What an entry of `order_index_` of include/order_book.hpp points at.
use leviathan_matching_engin.Prelude.{
  ℕ, ◌≡◌, ◌≢◌, sym, ◌∙◌, ap, some, List, arith, Option-cases, inl, inr,
}
use leviathan_matching_engin.Price.{Comparator}
use leviathan_matching_engin.Order.{Side, buy, sell, Order, opposite}
use leviathan_matching_engin.Index
use leviathan_matching_engin.Index.{OrderLocation}
use leviathan_matching_engin.Index.Agrees.{location, Agrees-found}
use leviathan_matching_engin.Resting.{find_id, find_id-append, find_id-id, All-find_id}
use leviathan_matching_engin.Levels.{orders}
use leviathan_matching_engin.Levels.Ladder.{IsLadder-orders}
use leviathan_matching_engin.Book.{OrderBook, side_map, comparator}
use leviathan_matching_engin.Book.Validity.{IsValid, side-IsLadder, side-Agrees}

pub opposite-ne : (s : Side) → opposite s ≢ s
opposite-ne buy h = cc
opposite-ne sell h = cc

module _ {P : Type 0} (less : Comparator P) where
  -- An order of the side's map that has the id, and is where the entry says.
  abbrev pub Located : OrderBook P → ℕ → OrderLocation P → Type 0
  Located b i loc =
      (o : Order P) × (find_id i (orders (side_map loc.side b)) ≡ some o)
      × (loc ≡ location o)
      × (o.id ≡ i)

  pub lookup-Located :
      (b : OrderBook P) (i : ℕ) {loc : OrderLocation P}
      → IsValid less b
      → Index.lookup i b.order_index ≡ some loc
      → Located b i loc
  lookup-Located b i {loc} v h =
      let (o, found, e) = Agrees-found i (side-Agrees less loc.side v) h in
      elim (Option-cases (find_id i ours)) [
        | inl missing ↦
            let across : find_id i theirs ≡ some o = ground (arith, find_id-append i ours theirs) in
            let on_other : o.side ≡ opposite loc.side =
              (All-find_id _ i theirs
                (IsLadder-orders (comparator less (opposite loc.side)) (opposite loc.side)
                  (side_map (opposite loc.side) b) (side-IsLadder less (opposite loc.side) v))
                across).0 in
            absurd
              (opposite-ne loc.side (sym on_other ∙ sym (ap (λ (l : OrderLocation P). l.side) e)))
        | inr (o', here) ↦
            let ours_has : find_id i ours ≡ some o = ground (arith, find_id-append i ours theirs) in
            (o, ours_has, e, find_id-id i ours ours_has)
      ]
    where
      ours : List (Order P)
      ours = orders (side_map loc.side b)

      theirs : List (Order P)
      theirs = orders (side_map (opposite loc.side) b)
