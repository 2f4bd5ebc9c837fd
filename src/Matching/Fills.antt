-- ===== src/Matching/Fills.antt =====
-- Laws of price-time priority: what a taker is filled with, at which prices and by whom.
use leviathan_matching_engin.Prelude.{
  ℕ, zero, suc, ◌+◌, ◌-◌, ◌<◌, min, ◌≡◌, refl, Bool, true, false, not, ◌||◌, ◌⊎◌, inl, inr, List,
  [], ◌∷◌, ◌==◌, leb, if◌then◌else◌, arith, length, All, All-imp, map, Bool-cases,
}
use leviathan_matching_engin.Order.{Side, buy, sell, Order, Trade}
use leviathan_matching_engin.Resting.{volume}
use leviathan_matching_engin.Matching.{make_trade}
use leviathan_matching_engin.Matching.Priority.{
  consume, consume_nil, consume_stop, consume_whole, consume_part,
}

module _ {P : Type 0} where
  -- The quantity that changes hands in a list of trades.
  abbrev pub traded : List (Trade P) → ℕ
  traded [] = 0
  traded (f ∷ fs) = f.quantity + traded fs

  -- The parties to a trade, for a taker on the given side.
  abbrev pub taker_id : Side → Trade P → ℕ
  taker_id buy f = f.buy_order_id
  taker_id sell f = f.sell_order_id

  abbrev pub maker_id : Side → Trade P → ℕ
  maker_id buy f = f.sell_order_id
  maker_id sell f = f.buy_order_id

  abbrev pub take : ℕ → List (Order P) → List (Order P)
  take zero os = []
  take (suc n) [] = []
  take (suc n) (o ∷ os) = o ∷ take n os

  pub make_trade-taker_id : (t r : Order P) (n : ℕ) → taker_id t.side (make_trade t r n) ≡ t.id
  make_trade-taker_id t r n = ground arith

  pub make_trade-maker_id : (t r : Order P) (n : ℕ) → maker_id t.side (make_trade t r n) ≡ r.id
  make_trade-maker_id t r n = ground arith

module _ {P : Type 0} (acceptable : P → Bool) where
  -- What holds of each trade of a taker.
  pub record IsFill (taker : Order P) (f : Trade P) : Type 0 where
    pub within_limit : acceptable f.price ≡ true
    pub positive : 0 < f.quantity
    pub by_taker : taker_id taker.side f ≡ taker.id
    pub at_arrival : f.timestamp ≡ taker.timestamp

  -- The quantity of all orders at acceptable prices, wherever they stand.
  abbrev pub eligible_volume : List (Order P) → ℕ
  eligible_volume [] = 0
  eligible_volume (o ∷ os) = (if acceptable o.price then o.quantity else 0) + eligible_volume os

  -- No acceptable price stands behind one that is not.
  abbrev pub IsMonotone : List (Order P) → Type 0
  IsMonotone [] = Unit
  IsMonotone (o ∷ os) = (acceptable o.price ≡ false → eligible_volume os ≡ 0) × IsMonotone os

  -- The first order, if there is one, is not acceptable.
  abbrev pub IsBlocked : List (Order P) → Type 0
  IsBlocked [] = Unit
  IsBlocked (o ∷ os) = acceptable o.price ≡ false

  pub consume-quantity :
      (t : Order P) (os : List (Order P))
      → traded (consume acceptable t os).fills + (consume acceptable t os).left ≡ t.quantity
  unfolding consume
  consume-quantity t [] = omega arith
  consume-quantity t (r ∷ rs) =
      ground (arith, consume-quantity (record t { quantity = t.quantity - r.quantity }) rs)

  pub consume-volume :
      (t : Order P) (os : List (Order P))
      → volume (consume acceptable t os).remaining + traded (consume acceptable t os).fills
        ≡ volume os
  unfolding consume
  consume-volume t [] = omega arith
  consume-volume t (r ∷ rs) =
      ground (arith, consume-volume (record t { quantity = t.quantity - r.quantity }) rs)

  -- A taker is filled with all that is eligible, up to its quantity.
  pub consume-traded :
      (t : Order P) (os : List (Order P))
      → IsMonotone os
      → traded (consume acceptable t os).fills ≡ min t.quantity (eligible_volume os)
  unfolding consume
  consume-traded t [] m = omega arith
  consume-traded t (r ∷ rs) m =
      ground (arith, consume-traded (record t { quantity = t.quantity - r.quantity }) rs m.1)

  pub consume-IsBlocked :
      (t : Order P) (os : List (Order P))
      → ((consume acceptable t os).left ≡ 0) ⊎ IsBlocked (consume acceptable t os).remaining
  unfolding consume
  consume-IsBlocked t [] = inr tt
  consume-IsBlocked t (r ∷ rs) =
      ground (arith, consume-IsBlocked (record t { quantity = t.quantity - r.quantity }) rs)

  make_trade-IsFill :
      (t r : Order P) (n : ℕ) → acceptable r.price ≡ true → 0 < n → IsFill t (make_trade t r n)
  make_trade-IsFill t r n ok pos = record {
    within_limit = ok;
    positive = pos;
    by_taker = make_trade-taker_id t r n;
    at_arrival = refl;
  }

  IsFill-requantify :
      (t : Order P) (n : ℕ) (f : Trade P) → IsFill (record t { quantity = n }) f → IsFill t f
  IsFill-requantify t n f h = record {
    within_limit = h.within_limit;
    positive = h.positive;
    by_taker = h.by_taker;
    at_arrival = h.at_arrival;
  }

  pub consume-IsFill :
      (t : Order P) (os : List (Order P))
      → All (λ (o : Order P). 0 < o.quantity) os
      → All (IsFill t) (consume acceptable t os).fills
  consume-IsFill t [] pos = rw (consume_nil acceptable t) tt
  consume-IsFill t (r ∷ rs) pos = elim (Bool-cases (t.quantity == 0 || not (acceptable r.price))) [
    | inl stop ↦ rw (consume_stop acceptable t r rs stop) tt
    | inr fill ↦ elim (Bool-cases (leb r.quantity t.quantity)) [
      | inl whole ↦ rw (consume_whole acceptable t r rs fill whole) (
        make_trade-IsFill t r r.quantity (ground arith) pos.0,
        All-imp _ _ _ (IsFill-requantify t (t.quantity - r.quantity))
            (consume-IsFill (record t { quantity = t.quantity - r.quantity }) rs pos.1),
      )
      | inr part ↦
          rw (consume_part acceptable t r rs fill part)
            (make_trade-IsFill t r t.quantity (ground arith) (ground arith), tt)
    ]
  ]

  -- The makers are the first resting orders, in their order and at their prices.
  pub consume-makers :
      (t : Order P) (os : List (Order P))
      → let fills = (consume acceptable t os).fills in
        (map (maker_id t.side) fills ≡ map (λ (o : Order P). o.id) (take (length fills) os))
        × (map (λ (f : Trade P). f.price) fills
            ≡ map (λ (o : Order P). o.price) (take (length fills) os))
  unfolding consume
  consume-makers t [] = (refl, refl)
  consume-makers t (r ∷ rs) = ground (
    arith,
    consume-makers (record t { quantity = t.quantity - r.quantity }) rs,
    make_trade-maker_id t r r.quantity,
    make_trade-maker_id t r t.quantity,
  )

  -- A property of prices that all orders have, those that are left have too.
  pub consume-prices {κ} :
      (Q : P → Type κ) (t : Order P) (os : List (Order P))
      → All (λ (o : Order P). Q o.price) os
      → All (λ (o : Order P). Q o.price) (consume acceptable t os).remaining
  consume-prices Q t [] h = rw (consume_nil acceptable t) tt
  consume-prices Q t (r ∷ rs) h = elim (Bool-cases (t.quantity == 0 || not (acceptable r.price))) [
    | inl stop ↦ rw (consume_stop acceptable t r rs stop) h
    | inr fill ↦ elim (Bool-cases (leb r.quantity t.quantity)) [
      | inl whole ↦
          rw (consume_whole acceptable t r rs fill whole)
            (consume-prices Q (record t { quantity = t.quantity - r.quantity }) rs h.1)
      | inr part ↦ rw (consume_part acceptable t r rs fill part) h
    ]
  ]
