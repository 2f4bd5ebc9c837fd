-- ===== src/Exchange/Budget.antt =====
-- How much each operation of the abstract exchange may add to its volume.
use leviathan_matching_engin.Prelude.{
  ℕ, ◌+◌, ◌-◌, ◌≤◌, ◌≡◌, Bool, ◌&&◌, true, false, Option, none, some, List, [], ◌∷◌, ◌++◌, ◌==◌,
  if◌then◌else◌, leb, arith, Bool-cases, inl, inr,
}
use leviathan_matching_engin.Price.{Comparator, same_price}
use leviathan_matching_engin.Order.{Side, buy, sell, Order, limit, make_order, is_limit}
use leviathan_matching_engin.Resting.{volume, count_id, count_id-append}
use leviathan_matching_engin.Matching.Fills.{traded, eligible_volume}
use leviathan_matching_engin.Exchange.{
  Exchange, queue, remove_id, requantify, remove, find, acceptable, is_killed, submit, trade,
  modify_resting, modify,
}
use leviathan_matching_engin.Exchange.Place.{requantify-missing}
use leviathan_matching_engin.Exchange.Volume.{total_volume, total_volume-sides, trade-Balances}

balance-bound :
    (rests : Bool) (x x' moved q : ℕ)
    → moved ≤ q
    → x' + moved ≡ x + (if rests then q - moved else 0)
    → x' ≤ x + q
balance-bound true x x' moved q wanted h = omega (arith, h)
balance-bound false x x' moved q wanted h = omega (arith, h)

module _ {P : Type 0} where
  volume-remove_id : (i : ℕ) (xs : List (Order P)) → volume (remove_id i xs) ≤ volume xs
  volume-remove_id i [] = omega arith
  volume-remove_id i (x ∷ xs) = ground (arith, volume-remove_id i xs)

  volume-requantify : (i n : ℕ) (xs : List (Order P)) → volume (requantify i n xs) ≤ volume xs + n
  volume-requantify i n [] = omega arith
  volume-requantify i n (x ∷ xs) = ground (arith, volume-requantify i n xs)

  eligible_volume-below :
      (acceptable : P → Bool) (xs : List (Order P)) → eligible_volume acceptable xs ≤ volume xs
  eligible_volume-below acceptable [] = omega arith
  eligible_volume-below acceptable (x ∷ xs) = ground (arith, eligible_volume-below acceptable xs)

  queue-volume : (s : Side) (e : Exchange P) → volume (queue s e) ≤ total_volume e
  queue-volume buy e = omega arith
  queue-volume sell e = omega arith

  pub total_volume-eligible :
      (acceptable : P → Bool) (s : Side) (e : Exchange P)
      → eligible_volume acceptable (queue s e) ≤ total_volume e
  total_volume-eligible acceptable s e =
      omega (arith, eligible_volume-below acceptable (queue s e), queue-volume s e)

  pub total_volume-remove : (i : ℕ) (e : Exchange P) → total_volume (remove i e) ≤ total_volume e
  total_volume-remove i e = omega (arith, volume-remove_id i e.bids, volume-remove_id i e.asks)

  total_volume-requantify :
      (i n : ℕ) (e : Exchange P)
      → count_id i (e.bids ++ e.asks) ≤ 1
      → volume (requantify i n e.bids) + volume (requantify i n e.asks) ≤ total_volume e + n
  total_volume-requantify i n e unique =
      let parts = count_id-append i e.bids e.asks in
      elim (Bool-cases (count_id i e.bids == 0)) [
        | inl not_bid ↦
            rw (requantify-missing i n e.bids (ground arith))
              (omega (arith, volume-requantify i n e.asks))
        | inr bid ↦
            let not_ask : count_id i e.asks ≡ 0 = ground arith in
            rw (requantify-missing i n e.asks not_ask) (omega (arith, volume-requantify i n e.bids))
      ]

module _ {P : Type 0} (less : Comparator P) where
  total_volume-trade :
      (t : Order P) (e : Exchange P) → total_volume (trade less t e).0 ≤ total_volume e + t.quantity
  total_volume-trade t e =
      let after = (trade less t e).0 in
      let (lost, wanted, gained) = trade-Balances less t e in
      balance-bound (is_limit t.type) (total_volume e) (total_volume after)
        (traded (trade less t e).1) t.quantity wanted
        (omega (arith, lost, gained, total_volume-sides t.side e, total_volume-sides t.side after))

  pub total_volume-submit :
      (t : Order P) (e : Exchange P)
      → total_volume (submit less t e).0 ≤ total_volume e + t.quantity
  unfolding submit
  total_volume-submit t e = elim (Bool-cases (t.quantity == 0)) [
    | inl zero_quantity ↦ rw zero_quantity (omega arith)
    | inr some_quantity ↦ elim (Bool-cases (is_killed less t e)) [
      | inl killed ↦ rw (some_quantity, killed) (omega arith)
      | inr alive ↦ rw (some_quantity, alive) (total_volume-trade t e)
    ]
  ]

  total_volume-modify_resting :
      (counter i : ℕ) (p : P) (n : ℕ) (e : Exchange P) (o : Option (Order P))
      → count_id i (e.bids ++ e.asks) ≤ 1
      → total_volume (modify_resting less counter i p n e o).0 ≤ total_volume e + n
  total_volume-modify_resting counter i p n e none unique = omega arith
  total_volume-modify_resting counter i p n e (some o) unique = elim (Bool-cases (n == 0)) [
    | inl gone ↦ rw gone (omega (arith, total_volume-remove i e))
    | inr stays ↦ elim (Bool-cases (same_price less p o.price && leb n o.quantity)) [
      | inl keep ↦ rw (stays, keep) (total_volume-requantify i n e unique)
      | inr move ↦
          let new = (make_order counter i o.side p n limit).0 in
          rw (stays, move)
            (omega (arith, total_volume-submit new (remove i e), total_volume-remove i e))
    ]
  ]

  pub total_volume-modify :
      (counter i : ℕ) (p : P) (n : ℕ) (e : Exchange P)
      → count_id i (e.bids ++ e.asks) ≤ 1
      → total_volume (modify less counter i p n e).0 ≤ total_volume e + n
  unfolding modify
  total_volume-modify counter i p n e unique =
      total_volume-modify_resting counter i p n e (find i e) unique
