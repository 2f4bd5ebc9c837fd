-- ===== src/Engine/Refinement.antt =====
-- The requests of src/matching_engine.cpp on the book of src/order_book.cpp against the ledger of the
-- abstract exchange.
use leviathan_matching_engin.Prelude.{
  ℕ, ◌+◌, ◌≤◌, ◌<◌, ◌≡◌, refl, ap, sym, ◌∙◌, Option, none, some, List, [], ◌∷◌, ◌++◌, map, arith,
}
use leviathan_matching_engin.Price.{Comparator, greater}
use leviathan_matching_engin.Order.{Order, opposite, uint64_limit}
use leviathan_matching_engin.Levels.{orders}
use leviathan_matching_engin.Book.{best_bid, best_ask}
use leviathan_matching_engin.Book.Validity.{IsValid, empty_book-IsValid}
use leviathan_matching_engin.Book.Queries.{IsBest, quoted-IsBest, total_order_count_lem}
use leviathan_matching_engin.Exchange.{view, acceptable}
use leviathan_matching_engin.Exchange.Refinement.{
  add_order-refines, cancel_order-refines, submit_order-refines,
}
use leviathan_matching_engin.Exchange.Resubmit.{modify_order-refines}
use leviathan_matching_engin.Exchange.Volume.{total_volume, volume-add}
use leviathan_matching_engin.Exchange.Budget.{
  total_volume-eligible, total_volume-remove, total_volume-submit, total_volume-modify,
}
use leviathan_matching_engin.Engine.{
  Request, add_request, cancel_request, submit_request, modify_request, best_bid_request,
  best_ask_request, total_order_count_request, cancelled, submitted, modified, best_price,
  order_count, Desk, process_request, Event, run, new_engine, empty_desk,
}
use leviathan_matching_engin.Engine.Ledger.{
  Ledger, empty_ledger, ledger, answer, front_price, brought, total_brought, transact, transact_all,
}
use leviathan_matching_engin.Engine.History.{in_hand, pushed, requests_of, run-Linear}
use leviathan_matching_engin.Engine.Safety.{IsNumbered-append_left, empty-AreNew}
use leviathan_matching_engin.Engine.Serving.{
  IsNumbered, AreNew, serve, process_request-IsValid, process_request-AreNew,
}

module _ {P : Type 0} where
  total_brought-append_left :
      (rs later : List (Request P)) → total_brought rs ≤ total_brought (rs ++ later)
  total_brought-append_left [] later = omega arith
  total_brought-append_left (r ∷ rs) later = omega (arith, total_brought-append_left rs later)

  IsBest-front_price :
      (c : Comparator P) (os : List (Order P)) (p : Option P) → IsBest c os p → p ≡ front_price os
  IsBest-front_price c os none best = sym (ap front_price best)
  IsBest-front_price c os (some p) (x, xs, same, price, _) =
      ap some (sym price) ∙ sym (ap front_price same)

module _ {P : Type 0} (less : Comparator P) where
  -- One request on a valid book does what it does to the ledger, while the volume of the resting
  -- orders is below 2^64.
  process_request-refines :
      (d : Desk P) (r : Request P)
      → IsValid less d.book
      → total_volume (view d.book) < uint64_limit
      → ledger (process_request less d r) ≡ transact less d.counter r (ledger d)
  unfolding process_request
  process_request-refines d (add_request o) v w =
      ap (λ e. record (ledger d) { exchange = e }) (add_order-refines less d.book o v)
  process_request-refines d (cancel_request j ticket) v w =
      let (same, done) = cancel_order-refines less d.book j v in
      λ i. answer ticket (cancelled (done i)) (same i) (ledger d)
  process_request-refines d (submit_request o ticket) v w =
      let eligible = total_volume-eligible (acceptable less o) (opposite o.side) (view d.book) in
      let (same, trades) = submit_order-refines less d.book o v (λ killable. omega arith) in
      λ i. answer ticket (submitted (trades i)) (same i) (ledger d)
  process_request-refines d (modify_request j p n ticket) v w =
      let (same, result, _) = modify_order-refines less d.counter d.book j v p n in
      λ i. answer ticket (modified (result i)) (same i) (ledger d)
  process_request-refines d (best_bid_request ticket) v w =
      ap (λ p. answer ticket (best_price p) (view d.book) (ledger d))
        (IsBest-front_price (greater less) (orders d.book.bids) (best_bid d.book)
          (quoted-IsBest less d.book v).0)
  process_request-refines d (best_ask_request ticket) v w =
      ap (λ p. answer ticket (best_price p) (view d.book) (ledger d))
        (IsBest-front_price less (orders d.book.asks) (best_ask d.book)
          (quoted-IsBest less d.book v).1)
  process_request-refines d (total_order_count_request ticket) v w =
      ap (λ n. answer ticket (order_count n) (view d.book) (ledger d))
        (total_order_count_lem less d.book v)

  -- It adds at most what it brings.
  transact-brought :
      (counter : ℕ) (r : Request P) (d : Desk P)
      → IsValid less d.book
      → total_volume (transact less counter r (ledger d)).exchange
        ≤ total_volume (view d.book) + brought r
  transact-brought counter (add_request o) d v = omega (arith, volume-add less o (view d.book))
  transact-brought counter (cancel_request i ticket) d v =
      omega (arith, total_volume-remove i (view d.book))
  transact-brought counter (submit_request o ticket) d v = total_volume-submit less o (view d.book)
  transact-brought counter (modify_request i p n ticket) d v =
      total_volume-modify less counter i p n (view d.book) (v.indexed.unique i)
  transact-brought counter (best_bid_request ticket) d v = omega arith
  transact-brought counter (best_ask_request ticket) d v = omega arith
  transact-brought counter (total_order_count_request ticket) d v = omega arith

  -- The same of well-numbered requests whose quantities stay in the 64 bits.
  serve-refines :
      (d : Desk P) (rs : List (Request P × ℕ))
      → IsNumbered (map (λ (x : Request P × ℕ). x.0) rs)
      → AreNew d (map (λ (x : Request P × ℕ). x.0) rs)
      → IsValid less d.book
      → total_volume (view d.book) + total_brought (map (λ (x : Request P × ℕ). x.0) rs)
        < uint64_limit
      → ledger (serve less d rs) ≡ transact_all less (ledger d) rs
  serve-refines d [] num new v w = refl
  serve-refines d ((r, counter) ∷ rs) num new v w =
      let d' : Desk P = record d { counter = counter } in
      let later : List (Request P) = map (λ (x : Request P × ℕ). x.0) rs in
      let once = process_request-refines d' r v (omega arith) in
      let more : total_volume (view (process_request less d' r).book)
          ≤ total_volume (view d.book) + brought r =
        rw (ap (λ (l : Ledger P). total_volume l.exchange) once) (transact-brought counter r d v) in
      serve-refines (process_request less d' r) rs num.2
        (process_request-AreNew less d' r later num.1 v new.1)
        (process_request-IsValid less d' r num.0 new.0 v) (omega (arith, more))
      ∙ ap (λ l. transact_all less l rs) once

  -- However the threads interleave, if the requests that are pushed bring in distinct ids, add no
  -- order of quantity 0, and bring quantities whose sum is below 2^64, the resting orders and the
  -- fulfilled promises are those of doing some requests in turn on the abstract exchange, each at
  -- some value of the timestamp counter, and these, the one in hand and the queue are what was
  -- pushed, in the order of the pushes.
  pub run-refines :
      (first : ℕ) (xs : List (Event P))
      → IsNumbered (pushed xs)
      → total_brought (pushed xs) < uint64_limit
      → let e = run less xs (new_engine first) in
        (served : List (Request P × ℕ)) × (ledger e.desk ≡ transact_all less empty_ledger served)
        × (requests_of served ++ (in_hand e.worker ++ e.requests.queue) ≡ pushed xs)
  run-refines first xs num small =
      let (served, l) = run-Linear less first xs in
      let e = run less xs (new_engine first) in
      let open_requests = in_hand e.worker ++ e.requests.queue in
      let within = total_brought-append_left (requests_of served) open_requests in
      let whole : total_brought (requests_of served ++ open_requests) < uint64_limit =
        rw l.in_order small in
      let spent : total_brought (requests_of served) < uint64_limit = omega (arith, within) in
      (
        served,
        (λ i. record { exchange = view (l.same_book i); answers = l.same_promises i })
            ∙ serve-refines (empty_desk first) served
                (IsNumbered-append_left (requests_of served) open_requests (rw l.in_order num))
                (empty-AreNew first (requests_of served)) (empty_book-IsValid less)
                (omega (arith, spent)),
        l.in_order,
      )
