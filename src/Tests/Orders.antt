-- ===== src/Tests/Orders.antt =====
-- The theorems on src/order_book.cpp at the sample book.
use leviathan_matching_engin.Bounds.{FitsBook}
use leviathan_matching_engin.Bounds.Matching.{FitsMatching}
use leviathan_matching_engin.Bounds.Exact.{run_matching-exact}
use leviathan_matching_engin.Resting.{volume}
use leviathan_matching_engin.Prelude.{
  ◌≤◌, ℕ, ◌≡◌, ◌+◌, ◌⊎◌, refl, false, none, some, [], ◌∷◌, arith, All, map, length,
}
use leviathan_matching_engin.Price.{ticks, greater}
use leviathan_matching_engin.Order.{buy, sell, limit, market, ioc, fok, Trade, Order}
use leviathan_matching_engin.Index
use leviathan_matching_engin.Levels.{orders}
use leviathan_matching_engin.Book.{OrderBook, best_bid, best_ask, total_order_count, get_depth}
use leviathan_matching_engin.Book.Validity.{IsValid}
use leviathan_matching_engin.Operations.{add_order, cancel_order, submit_order, modify_order}
use leviathan_matching_engin.Operations.Validity.{
  add_order-IsValid, submit_order-IsValid, cancel_order-IsValid,
}
use leviathan_matching_engin.Operations.Modify.{modify_order-IsValid}
use leviathan_matching_engin.Operations.FillOrKill.{
  submit_order-fok, submit_order-fok_traded, submit_order-fok_overflow,
}
use leviathan_matching_engin.Exchange.{view, submit, remove, modify, add, acceptable}
use leviathan_matching_engin.Matching.{match_loop, run_matching}
use leviathan_matching_engin.Matching.Refinement.{Refines, spec, match_loop-Refines}
use leviathan_matching_engin.Matching.Fills.{eligible_volume, traded, maker_id, take, IsFill}
use leviathan_matching_engin.Operations.Submit.{
  opposing, submit_order-makers, submit_order-IsFill, submit_order-traded, submit_order-never_rests,
}
use leviathan_matching_engin.Exchange.Volume.{Balances, submit_order-volume}
use leviathan_matching_engin.Book.Queries.{
  IsBest, quoted-IsBest, total_order_count_lem, get_depth_lem,
}
use leviathan_matching_engin.Exchange.Apart.{IsUncrossed}
use leviathan_matching_engin.Exchange.Refinement.{
  submit_order-refines, cancel_order-refines, add_order-refines, has_id,
}
use leviathan_matching_engin.Exchange.Resubmit.{modify_order-refines, SameResult}
use leviathan_matching_engin.Exchange.Uncrossed.{submit_order-IsUncrossed, modify_order-IsUncrossed}
use leviathan_matching_engin.Tests.Sample.{order, sample, sample-IsValid, taker}

submit_order-refines_example :
    (view (submit_order ticks sample (taker fok)).0 ≡ (submit ticks (taker fok) (view sample)).0)
    × ((submit_order ticks sample (taker fok)).1 ≡ (submit ticks (taker fok) (view sample)).1)
submit_order-refines_example =
    submit_order-refines ticks sample (taker fok) sample-IsValid (λ _. omega arith)

lookup_new : Index.lookup 9 sample.order_index ≡ none
unfolding Index.lookup
lookup_new = refl

submit_order-IsValid_example : IsValid ticks (submit_order ticks sample (taker limit)).0
submit_order-IsValid_example =
    submit_order-IsValid ticks sample (taker limit) (λ _. lookup_new) sample-IsValid

modify_order-IsValid_example : IsValid ticks (modify_order ticks 7 sample 4 102 20).0
modify_order-IsValid_example = modify_order-IsValid ticks 7 sample 4 102 20 sample-IsValid

sample-IsUncrossed : IsUncrossed ticks (view sample)
sample-IsUncrossed = ((refl, (refl, (refl, tt))), tt)

submit_order-IsUncrossed_example :
    IsUncrossed ticks (view (submit_order ticks sample (taker limit)).0)
submit_order-IsUncrossed_example =
    submit_order-IsUncrossed ticks sample (taker limit) sample-IsValid sample-IsUncrossed

modify_order-refines_example :
    SameResult (modify_order ticks 7 sample 4 102 20) (modify ticks 7 4 102 20 (view sample))
modify_order-refines_example = modify_order-refines ticks 7 sample 4 sample-IsValid 102 20

cancel_order-refines_example :
    (view (cancel_order ticks sample 2).0 ≡ remove 2 (view sample))
    × ((cancel_order ticks sample 2).1 ≡ has_id 2 (view sample))
cancel_order-refines_example = cancel_order-refines ticks sample 2 sample-IsValid

submit_order-fok_example :
    (submit_order ticks sample (taker fok) ≡ (sample, []))
    ⊎ (traded (submit_order ticks sample (taker fok)).1 ≡ 10)
submit_order-fok_example = submit_order-fok ticks (taker fok) sample sample-IsValid refl

submit_order-fok_traded_example : traded (submit_order ticks sample (taker fok)).1 ≡ 10
submit_order-fok_traded_example =
    submit_order-fok_traded ticks (taker fok) sample sample-IsValid refl (omega arith)

-- Two asks, the second with the largest quantity that there is.
abbrev huge : OrderBook ℕ
huge = record {
  bids = [];
  asks =
      (101, order 1 sell 101 1 0 limit ∷ order 2 sell 101 18446744073709551615 1 limit ∷ []) ∷ [];
  order_index =
      (1, record { side = sell; price = 101 }) ∷ (2, record { side = sell; price = 101 }) ∷ [];
}

huge-IsValid : IsValid ticks huge
unfolding Index.lookup
huge-IsValid = record {
  bids_ladder = tt;
  asks_ladder = (λ e. cc, ((refl, refl, omega arith), ((refl, refl, omega arith), tt)), tt, tt);
  indexed = record {
    located = λ i. ground arith;
    unique = λ i. ground arith;
    distinct = (refl, (refl, tt));
    counted = refl;
  };
}

huge-Fits : FitsBook huge
huge-Fits = (tt, (((omega arith, omega arith), ((omega arith, omega arith), tt)), tt))

run_matching-exact_example :
    let m = run_matching ticks huge (order 9 buy 101 5 2 ioc) in
    (m.incoming.quantity + traded m.trades ≡ 5)
    × (volume (orders m.side_map) + traded m.trades ≡ 18446744073709551616)
    × FitsMatching m
run_matching-exact_example =
    run_matching-exact ticks huge (order 9 buy 101 5 2 ioc) huge-IsValid huge-Fits
      (omega arith, omega arith)

submit_order-fok_overflow_example :
    let t : Order ℕ = order 9 buy 101 5 2 fok in
    (5 ≤ eligible_volume (acceptable ticks t) (opposing ticks t huge))
    × (submit_order ticks huge t ≡ (huge, []))
submit_order-fok_overflow_example =
    submit_order-fok_overflow ticks (order 9 buy 101 5 2 fok) (order 1 sell 101 1 0 limit)
      (order 2 sell 101 18446744073709551615 1 limit) 101 huge refl huge-IsValid huge-Fits
      (omega arith, omega arith) refl refl (omega arith) (omega arith)

match_loop-Refines_example :
    Refines ticks false sell
      (record {
        incoming = taker limit;
        side_map = sample.asks;
        order_index = sample.order_index;
        trades = [];
      })
      (match_loop ticks false 4 (record {
        incoming = taker limit;
        side_map = sample.asks;
        order_index = sample.order_index;
        trades = [];
      }))
      (spec ticks false sell (taker limit) (orders sample.asks))
match_loop-Refines_example =
    match_loop-Refines ticks false sell 4
      (record {
        incoming = taker limit;
        side_map = sample.asks;
        order_index = sample.order_index;
        trades = [];
      })
      sample-IsValid.asks_ladder (omega arith)

submit_order-makers_example :
    let fills = (submit_order ticks sample (taker ioc)).1 in
    (map (maker_id buy) fills
      ≡ map (λ (o : Order ℕ). o.id) (take (length fills) (orders sample.asks)))
    × (map (λ (f : Trade ℕ). f.price) fills
        ≡ map (λ (o : Order ℕ). o.price) (take (length fills) (orders sample.asks)))
submit_order-makers_example = submit_order-makers ticks (taker ioc) sample sample-IsValid

submit_order-IsFill_example :
    All
      (IsFill (acceptable ticks (taker market)) (taker market))
      (submit_order ticks sample (taker market)).1
submit_order-IsFill_example = submit_order-IsFill ticks (taker market) sample sample-IsValid

submit_order-traded_example : traded (submit_order ticks sample (taker ioc)).1 ≡ 10
submit_order-traded_example = submit_order-traded ticks (taker ioc) sample sample-IsValid refl

submit_order-volume_example :
    Balances ticks
      (taker limit)
      (view sample)
      (view (submit_order ticks sample (taker limit)).0)
      (submit_order ticks sample (taker limit)).1
submit_order-volume_example = submit_order-volume ticks sample (taker limit) sample-IsValid

submit_order-never_rests_example :
    (submit_order ticks sample (order 9 buy 103 20 4 ioc)).0.bids ≡ sample.bids
submit_order-never_rests_example =
    submit_order-never_rests ticks (order 9 buy 103 20 4 ioc) sample sample-IsValid refl

modify_order-IsUncrossed_example : IsUncrossed ticks (view (modify_order ticks 7 sample 4 102 20).0)
modify_order-IsUncrossed_example =
    modify_order-IsUncrossed ticks 7 sample 4 102 20 sample-IsValid sample-IsUncrossed

quoted-IsBest_example :
    IsBest (greater ticks) (orders sample.bids) (best_bid sample)
    × IsBest ticks (orders sample.asks) (best_ask sample)
quoted-IsBest_example = quoted-IsBest ticks sample sample-IsValid

total_order_count_lem_example :
    total_order_count sample ≡ length (orders sample.bids) + length (orders sample.asks)
total_order_count_lem_example = total_order_count_lem ticks sample sample-IsValid

get_depth_lem_example :
    get_depth 1000 sample sell 1
    ≡ some (record { price = 101; aggregate_quantity = 8; order_count = 2 } ∷ [])
get_depth_lem_example = get_depth_lem ticks 1000 sample sell 1 sample-IsValid (omega arith)

add_order-refines_example :
    view (add_order ticks sample (taker limit)) ≡ add ticks (taker limit) (view sample)
add_order-refines_example = add_order-refines ticks sample (taker limit) sample-IsValid

add_order-IsValid_example : IsValid ticks (add_order ticks sample (taker limit))
add_order-IsValid_example =
    add_order-IsValid ticks sample (taker limit) (omega arith) lookup_new sample-IsValid

cancel_order-IsValid_example : IsValid ticks (cancel_order ticks sample 2).0
cancel_order-IsValid_example = cancel_order-IsValid ticks sample 2 sample-IsValid
