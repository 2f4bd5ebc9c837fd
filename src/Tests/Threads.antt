-- ===== src/Tests/Threads.antt =====
-- The theorems on src/matching_engine.cpp at a concrete interleaving.
use leviathan_matching_engin.Prelude.{
  ℕ, ◌≡◌, refl, true, false, ◌⊎◌, List, [], ◌∷◌, ◌++◌, map, arith,
}
use leviathan_matching_engin.Price.{ticks}
use leviathan_matching_engin.Order.{buy, sell, limit}
use leviathan_matching_engin.Book.Validity.{IsValid}
use leviathan_matching_engin.Exchange.{view}
use leviathan_matching_engin.Exchange.Apart.{IsUncrossed}
use leviathan_matching_engin.ThreadSafeQueue.{push, pop}
use leviathan_matching_engin.ThreadSafeQueue.Waiters.{
  Action, calls_pop, tests, pushes_item, new_waiters, act, act_all, IsHeard,
}
use leviathan_matching_engin.ThreadSafeQueue.Waiters.Delivery.{act_all-delivers}
use leviathan_matching_engin.Engine.{
  Request, submit_request, cancel_request, best_bid_request, Response, Engine, Event, starts, stops,
  draws, works, pushes, waiting, finished, new_engine, empty_desk, start, enqueue, matching_step,
  happen, run,
}
use leviathan_matching_engin.Engine.Serving.{serve, all_tickets, IsNumbered}
use leviathan_matching_engin.Engine.History.{pushed, in_hand, requests_of, run-serial}
use leviathan_matching_engin.Engine.Ledger.{ledger, empty_ledger, transact_all}
use leviathan_matching_engin.Engine.Refinement.{run-refines}
use leviathan_matching_engin.Engine.Completion.{closing_steps, run-answers}
use leviathan_matching_engin.Engine.Shutdown.{run-drains, run-finished, serve_all}
use leviathan_matching_engin.Engine.Safety.{run-IsValid, run-IsUncrossed, run-tickets}
use leviathan_matching_engin.Tests.Sample.{order}

-- Two submissions that cross and a cancellation, the last still queued.
abbrev opening : List (Event ℕ)
opening =
    draws
    ∷ pushes (submit_request (order 1 sell 101 5 0 limit) 0)
    ∷ starts
    ∷ works
    ∷ draws
    ∷ pushes (submit_request (order 2 buy 102 8 1 limit) 1)
    ∷ works
    ∷ works
    ∷ pushes (cancel_request 2 2)
    ∷ []

opening-IsNumbered : IsNumbered (pushed opening)
opening-IsNumbered = (
  tt,
  λ i e. ((λ e'. omega (arith, e, e')), ((λ x. x), tt)),
  (tt, (λ i e. ((λ x. x), tt)), (tt, (λ i x. tt), tt)),
)

opening_started : (run ticks opening (new_engine 0)).started ≡ true
unfolding run happen start enqueue push pop matching_step
opening_started = refl

opening_not_stopped : (run ticks opening (new_engine 0)).stopped ≡ false
unfolding run happen start enqueue push pop matching_step
opening_not_stopped = refl

run-answers_example :
    let e = run ticks opening (new_engine 0) in
    let e' =
      run ticks (opening ++ stops ∷ closing_steps e.worker e.requests.queue) (new_engine 0) in
    (e'.worker ≡ finished)
    × (served : List (Request ℕ × ℕ)) × (ledger e'.desk ≡ transact_all ticks empty_ledger served)
    × (requests_of served ≡ pushed opening)
run-answers_example =
    run-answers ticks 0 opening opening_started opening_not_stopped opening-IsNumbered (omega arith)

-- Two submissions that cross and a cancellation, two of them served before the shutdown.
abbrev session : List (Event ℕ)
session =
    draws
    ∷ pushes (submit_request (order 1 sell 101 5 0 limit) 0)
    ∷ starts
    ∷ works
    ∷ draws
    ∷ pushes (submit_request (order 2 buy 102 8 1 limit) 1)
    ∷ works
    ∷ works
    ∷ pushes (cancel_request 2 2)
    ∷ works
    ∷ stops
    ∷ []

session-IsNumbered : IsNumbered (pushed session)
session-IsNumbered = (
  tt,
  λ i e. ((λ e'. omega (arith, e, e')), ((λ x. x), tt)),
  (tt, (λ i e. ((λ x. x), tt)), (tt, (λ i x. tt), tt)),
)

run-serial_example :
    let e = run ticks session (new_engine 0) in
    (served : List (Request ℕ × ℕ)) × (e.desk.book ≡ (serve ticks (empty_desk 0) served).book)
    × (e.desk.fulfilled ≡ (serve ticks (empty_desk 0) served).fulfilled)
    × (requests_of served ++ (in_hand e.worker ++ e.requests.queue) ≡ pushed session)
run-serial_example = run-serial ticks 0 session

run-refines_example :
    let e = run ticks session (new_engine 0) in
    (served : List (Request ℕ × ℕ)) × (ledger e.desk ≡ transact_all ticks empty_ledger served)
    × (requests_of served ++ (in_hand e.worker ++ e.requests.queue) ≡ pushed session)
run-refines_example = run-refines ticks 0 session session-IsNumbered (omega arith)

run-IsValid_example : IsValid ticks (run ticks session (new_engine 0)).desk.book
run-IsValid_example = run-IsValid ticks 0 session session-IsNumbered

run-IsUncrossed_example : IsUncrossed ticks (view (run ticks session (new_engine 0)).desk.book)
run-IsUncrossed_example = run-IsUncrossed ticks 0 session session-IsNumbered (tt, (tt, (tt, tt)))

run-tickets_example :
    let e = run ticks session (new_engine 0) in
    map (λ (x : ℕ × Response ℕ). x.0) e.desk.fulfilled
      ++ all_tickets (in_hand e.worker ++ e.requests.queue)
    ≡ 0 ∷ 1 ∷ 2 ∷ []
run-tickets_example = run-tickets ticks 0 session

-- An engine that was stopped with one request in its queue.
abbrev stopping : Engine ℕ
stopping = record (new_engine 0) {
  requests = record { queue = best_bid_request 0 ∷ []; is_shutdown = true };
  worker = waiting;
  started = true;
  stopped = true;
}

run-drains_example : run ticks (works ∷ works ∷ works ∷ []) stopping ≡ record stopping {
  desk = serve_all ticks (empty_desk 0) (best_bid_request 0 ∷ []);
  requests = record { queue = []; is_shutdown = true };
  worker = finished;
}
run-drains_example = run-drains ticks stopping refl refl

abbrev ended : Engine ℕ
ended = record stopping { requests = record { queue = []; is_shutdown = true }; worker = finished }

run-finished_example :
    let xs = pushes (best_bid_request 1) ∷ works ∷ [] in
    let e' = run ticks xs ended in
    (e'.worker ≡ finished)
    × (e'.desk.book ≡ ended.desk.book)
    × (e'.desk.fulfilled ≡ ended.desk.fulfilled)
    × (e'.requests.queue ≡ ended.requests.queue ++ pushed xs)
run-finished_example = run-finished ticks (pushes (best_bid_request 1) ∷ works ∷ []) ended refl refl

-- A consumer sleeps, an item is pushed, and the notification is still to come.
abbrev late_notification : List (Action ℕ)
late_notification = calls_pop ∷ tests ∷ pushes_item 7 ∷ []

act_all-delivers_example :
    let w = act_all late_notification new_waiters in
    (w.returned ++ w.queue.queue ≡ 7 ∷ []) × ((w.asleep ≡ 0) ⊎ IsHeard w)
act_all-delivers_example = act_all-delivers late_notification

late_notification_run : (act_all late_notification new_waiters).asleep ≡ 1
unfolding act_all act pop push
late_notification_run = refl
