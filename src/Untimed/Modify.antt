-- ===== src/Untimed/Modify.antt =====
-- `modifyOrder` of src/order_book.cpp does not look at timestamps.
use leviathan_matching_engin.Prelude.{
  ℕ, ◌==◌, leb, ◌&&◌, Bool-cases, Option-cases, inl, inr, ◌≡◌, refl, ap, sym, ◌∙◌, Option, none,
  some, List, [], arith, if◌then◌else◌,
}
use mathlib.Core.Option
use leviathan_matching_engin.Price.{Comparator, same_price}
use leviathan_matching_engin.Order.{Side, Order, Trade, limit, make_order}
use leviathan_matching_engin.Index.{Index, OrderLocation}
use leviathan_matching_engin.Index
use leviathan_matching_engin.Levels.{alter_level, set_quantity, find_order_in_deque}
use leviathan_matching_engin.Book.{OrderBook, side_map, set_side, comparator}
use leviathan_matching_engin.Operations.{
  cancel_order, submit_order, modify_found, modify_at, modify_order,
}
use leviathan_matching_engin.Untimed.{
  untimed_book_idem, untimed_order, untimed_trades, untimed_book, side_map-untimed_book,
  set_side-untimed_book,
}
use leviathan_matching_engin.Untimed.Maps.{
  set_quantity-IsUntimed, alter_level-untimed_levels, find_order-untimed_levels,
}
use leviathan_matching_engin.Untimed.Operations.{
  untimed_submission, cancel_order-same, submit_order-same,
}

module _ {P : Type 0} (less : Comparator P) where
  abbrev pub untimed_modification :
      OrderBook P × Option (List (Trade P)) × ℕ → OrderBook P × Option (List (Trade P))
  untimed_modification r = (untimed_book r.0, Option.map untimed_trades r.1)

  -- An untimed book behaves as the book, whatever the counter.
  abbrev Resubmitted : ℕ → OrderBook P → ℕ → P → ℕ → Side → Type 0
  Resubmitted k b i p n side =
      untimed_submission less
        (submit_order less (cancel_order less b i).0 (make_order k i side p n limit).0)
      ≡ untimed_submission less (
          submit_order less (cancel_order less (untimed_book b) i).0
            (make_order 0 i side p n limit).0)

  resubmitted :
      (k : ℕ) (b : OrderBook P) (i : ℕ) (p : P) (n : ℕ) (side : Side) → Resubmitted k b i p n side
  resubmitted k b i p n side =
      submit_order-same less _ _ _ _
        (cancel_order-same less b (untimed_book b) i (sym (untimed_book_idem b))).0 refl

  -- The write of a new quantity in place.
  abbrev requantified : OrderBook P → ℕ → ℕ → OrderLocation P → OrderBook P
  requantified b i n loc =
      elim (alter_level (comparator less loc.side) loc.price (set_quantity i n)
        (side_map loc.side b)) [ none ↦ b | some m ↦ set_side loc.side m b.order_index b ]

  requantified-untimed :
      (b : OrderBook P) (i n : ℕ) (loc : OrderLocation P)
      → requantified (untimed_book b) i n loc ≡ untimed_book (requantified b i n loc)
  requantified-untimed b i n loc =
      let c = comparator less loc.side in
      let m = side_map loc.side b in
      elim (Option-cases (alter_level c loc.price (set_quantity i n) m)) [
        | inl e ↦ ground (
          arith,
          side_map-untimed_book loc.side b,
          alter_level-untimed_levels c loc.price (set_quantity i n) m (set_quantity-IsUntimed i n),
        )
        | inr (m', e) ↦ ground (
          arith,
          side_map-untimed_book loc.side b,
          alter_level-untimed_levels c loc.price (set_quantity i n) m (set_quantity-IsUntimed i n),
          set_side-untimed_book loc.side m' b.order_index b,
        )
      ]

  modify_found-untimed :
      (k : ℕ) (b : OrderBook P) (i : ℕ) (p : P) (n : ℕ) (loc : OrderLocation P)
      (o : Option (Order P))
      → untimed_modification (modify_found less k b i p n loc o)
        ≡ untimed_modification
            (modify_found less 0 (untimed_book b) i p n loc (Option.map untimed_order o))
  modify_found-untimed k b i p n loc none = ap (λ x. (x, none)) (sym (untimed_book_idem b))
  modify_found-untimed k b i p n loc (some o) =
      elim (Bool-cases (same_price less p loc.price && leb n o.quantity)) [
        | inl kept ↦ rw kept (
            ap (λ x. (x, some []))
              (sym (untimed_book_idem (requantified b i n loc))
                ∙ ap untimed_book (sym (requantified-untimed b i n loc))))
        | inr moved ↦ rw moved (ap (λ x. (x.0, some x.1)) (resubmitted k b i p n loc.side))
      ]

  modify_at-untimed :
      (k : ℕ) (b : OrderBook P) (i : ℕ) (p : P) (n : ℕ) (loc : Option (OrderLocation P))
      → untimed_modification (modify_at less k b i p n loc)
        ≡ untimed_modification (modify_at less 0 (untimed_book b) i p n loc)
  modify_at-untimed k b i p n none = ap (λ x. (x, none)) (sym (untimed_book_idem b))
  modify_at-untimed k b i p n (some loc) = elim (Bool-cases (n == 0)) [
    | inl zero_left ↦
        let (book, done) =
          cancel_order-same less b (untimed_book b) i (sym (untimed_book_idem b)) in
        rw zero_left (λ j. (book j, Option.map untimed_trades (if done j then some [] else none)))
    | inr positive ↦
        let c = comparator less loc.side in
        let m = side_map loc.side b in
        rw (positive, side_map-untimed_book loc.side b, find_order-untimed_levels c loc.price i m)
          (modify_found-untimed k b i p n loc (find_order_in_deque c loc.price i m))
  ]

  -- On two books that are the same but for timestamps, `modifyOrder` at any two values of the
  -- timestamp counter leaves books, and returns trades, that are the same but for timestamps.
  pub modify_order-same :
      (k k' : ℕ) (b b' : OrderBook P) (i : ℕ) (p : P) (n : ℕ)
      → untimed_book b ≡ untimed_book b'
      → untimed_modification (modify_order less k b i p n)
        ≡ untimed_modification (modify_order less k' b' i p n)
  unfolding modify_order
  modify_order-same k k' b b' i p n e =
      modify_at-untimed k b i p n (Index.lookup i b.order_index)
      ∙ (λ j.
          untimed_modification (modify_at less 0 (e j) i p n (Index.lookup i (e j).order_index)))
      ∙ sym (modify_at-untimed k' b' i p n (Index.lookup i b'.order_index))
