-- ===== src/Matching/Priority.antt =====
-- Price-time priority, as a specification of the matching loop of src/order_book.cpp: the orders of
-- one side stand in a single list, best first, and a taker consumes it from the front. There are no
-- levels, deques, index or fuel.
use leviathan_matching_engin.Prelude.{
  ℕ, ◌-◌, ◌≡◌, refl, Bool, true, false, not, ◌||◌, List, [], ◌∷◌, ◌==◌, leb, if◌then◌else◌,
}
use leviathan_matching_engin.Price.{Comparator}
use leviathan_matching_engin.Order.{Order, Trade}
use leviathan_matching_engin.Matching.{make_trade}

-- What is left of the taker, the orders that still rest, and the fills.
pub record Execution (P : Type 0) : Type 0 where
  pub left : ℕ
  pub remaining : List (Order P)
  pub fills : List (Trade P)

-- A taker accepts a price that is not worse than its own; a MARKET order accepts every price.
abbrev pub accepts : {P : Type 0} → Comparator P → Bool → P → P → Bool
accepts c any_price own price = any_price || not (c.lt own price)

module _ {P : Type 0} (acceptable : P → Bool) where
  unfoldable pub consume : Order P → List (Order P) → Execution P
  consume taker [] = record { left = taker.quantity; remaining = []; fills = [] }
  consume taker (r ∷ rs) =
      let deeper = consume (record taker { quantity = taker.quantity - r.quantity }) rs in
      if taker.quantity == 0 || not (acceptable r.price)
      then record { left = taker.quantity; remaining = r ∷ rs; fills = [] }
      else (if leb r.quantity taker.quantity
          then record deeper { fills = make_trade taker r r.quantity ∷ deeper.fills }
          else record {
            left = 0;
            remaining = record r { quantity = r.quantity - taker.quantity } ∷ rs;
            fills = make_trade taker r taker.quantity ∷ [];
          })

  pub consume_nil :
      (taker : Order P)
      → consume taker [] ≡ record { left = taker.quantity; remaining = []; fills = [] }
  unfolding consume
  consume_nil taker = refl

  pub consume_stop :
      (taker r : Order P) (rs : List (Order P))
      → (taker.quantity == 0 || not (acceptable r.price)) ≡ true
      → consume taker (r ∷ rs) ≡ record { left = taker.quantity; remaining = r ∷ rs; fills = [] }
  unfolding consume
  consume_stop taker r rs h = rw (h, consume)

  pub consume_whole :
      (taker r : Order P) (rs : List (Order P))
      → (taker.quantity == 0 || not (acceptable r.price)) ≡ false
      → leb r.quantity taker.quantity ≡ true
      → let deeper = consume (record taker { quantity = taker.quantity - r.quantity }) rs in
        consume taker (r ∷ rs)
        ≡ record deeper { fills = make_trade taker r r.quantity ∷ deeper.fills }
  unfolding consume
  consume_whole taker r rs h e = rw (h, e, consume)

  pub consume_part :
      (taker r : Order P) (rs : List (Order P))
      → (taker.quantity == 0 || not (acceptable r.price)) ≡ false
      → leb r.quantity taker.quantity ≡ false
      → consume taker (r ∷ rs) ≡ record {
        left = 0;
        remaining = record r { quantity = r.quantity - taker.quantity } ∷ rs;
        fills = make_trade taker r taker.quantity ∷ [];
      }
  unfolding consume
  consume_part taker r rs h e = rw (h, e, consume)
