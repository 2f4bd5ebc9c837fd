-- ===== src/Engine/Completion.antt =====
-- A whole life of the engine of src/matching_engine.cpp: start, requests, `stop`, and the steps that
-- are left to the matching thread.
use leviathan_matching_engin.Prelude.{
  ℕ, ◌<◌, ◌≡◌, refl, ap, sym, ◌∙◌, subst, true, false, List, [], ◌∷◌, ◌++◌, arith, append-nil,
}
use leviathan_matching_engin.Price.{Comparator}
use leviathan_matching_engin.Order.{uint64_limit}
use leviathan_matching_engin.ThreadSafeQueue.{shutdown}
use leviathan_matching_engin.Engine.{
  Request, Desk, Worker, unborn, waiting, holding, finished, Engine, Event, stops, works,
  new_engine, stop, process_request, matching_step, happen, run,
}
use leviathan_matching_engin.Engine.Ledger.{ledger, empty_ledger, total_brought, transact_all}
use leviathan_matching_engin.Engine.Serving.{IsNumbered}
use leviathan_matching_engin.Engine.History.{pushed, pushed-cons, in_hand, requests_of}
use leviathan_matching_engin.Engine.Shutdown.{drain_steps, drain_at}
use leviathan_matching_engin.Engine.Timely.{IsTimely, IsSound, run-IsSound}
use leviathan_matching_engin.Engine.Refinement.{run-refines}

module _ {P : Type 0} where
  -- The steps of the matching thread after a shutdown until it returns.
  abbrev pub closing_steps : Worker P → List (Request P) → List (Event P)
  closing_steps unborn q = []
  closing_steps waiting q = drain_steps q
  closing_steps (holding r) q = works ∷ drain_steps q
  closing_steps finished q = []

  pushed-drain_steps : (q : List (Request P)) → pushed (drain_steps q) ≡ []
  pushed-drain_steps [] = refl
  pushed-drain_steps (r ∷ q) = pushed-drain_steps q

  pushed-closing_steps : (w : Worker P) (q : List (Request P)) → pushed (closing_steps w q) ≡ []
  pushed-closing_steps unborn q = refl
  pushed-closing_steps waiting q = pushed-drain_steps q
  pushed-closing_steps (holding r) q = pushed-drain_steps q
  pushed-closing_steps finished q = refl

  pushed-append_silent : (xs ys : List (Event P)) → pushed ys ≡ [] → pushed (xs ++ ys) ≡ pushed xs
  pushed-append_silent [] ys silent = silent
  pushed-append_silent (x ∷ xs) ys silent =
      pushed-cons x (xs ++ ys)
      ∙ ap (◌++◌ (pushed (x ∷ []))) (pushed-append_silent xs ys silent)
      ∙ sym (pushed-cons x xs)

module _ {P : Type 0} (less : Comparator P) where
  run-append :
      (xs ys : List (Event P)) (e : Engine P) → run less (xs ++ ys) e ≡ run less ys (run less xs e)
  unfolding run
  run-append [] ys e = refl
  run-append (x ∷ xs) ys e = run-append xs ys (happen less x e)

  -- The matching thread has returned, and nothing is queued.
  abbrev HasEnded : Engine P → Type 0
  HasEnded e = (e.worker ≡ finished) × (e.requests.queue ≡ [])

  stop-ends_at :
      (d : Desk P) (q : List (Request P)) (w : Worker P)
      → IsTimely w true false
      → HasEnded (
          run less (stops ∷ closing_steps w q) (record {
            desk = d;
            requests = record { queue = q; is_shutdown = false };
            worker = w;
            started = true;
            stopped = false;
          }))
  unfolding run happen stop shutdown matching_step
  stop-ends_at d q unborn t = absurd (ground arith)
  stop-ends_at d q waiting t =
      let done = drain_at less d q true true in
      (ap (λ e. e.worker) done, ap (λ e. e.requests.queue) done)
  stop-ends_at d q (holding r) t =
      let done = drain_at less (process_request less d r) q true true in
      (ap (λ e. e.worker) done, ap (λ e. e.requests.queue) done)
  stop-ends_at d q finished t = absurd (ground arith)

  stop-ends :
      (e : Engine P)
      → e.started ≡ true
      → e.stopped ≡ false
      → IsSound e
      → HasEnded (run less (stops ∷ closing_steps e.worker e.requests.queue) e)
  stop-ends e started not_stopped s =
      let shape =
        stop-ends_at e.desk e.requests.queue e.worker (rw (started, not_stopped) at s.0) in
      let up : e.requests.is_shutdown ≡ false = s.1 ∙ not_stopped in
      subst
        (λ (e' : Engine P).
          HasEnded (run less (stops ∷ closing_steps e.worker e.requests.queue) e'))
        (λ i. record e {
          requests = record { queue = e.requests.queue; is_shutdown = sym up i };
          started = sym started i;
          stopped = sym not_stopped i;
        })
        shape

  -- If the requests that were pushed to an engine that is started and not stopped bring in
  -- distinct ids, add no order of quantity 0, and bring quantities whose sum is below 2^64, then
  -- after `stop` and as many steps of the matching thread as its queue needs the thread has
  -- returned, and the resting orders and the fulfilled promises are those of doing all the
  -- requests on the abstract exchange, in the order of the pushes and each at some value of the
  -- timestamp counter.
  pub run-answers :
      (first : ℕ) (xs : List (Event P))
      → let e = run less xs (new_engine first) in
        e.started ≡ true
        → e.stopped ≡ false
        → IsNumbered (pushed xs)
        → total_brought (pushed xs) < uint64_limit
        → let e' =
            run less (xs ++ stops ∷ closing_steps e.worker e.requests.queue) (new_engine first) in
          (e'.worker ≡ finished)
          × (served : List (Request P × ℕ)) × (ledger e'.desk
              ≡ transact_all less empty_ledger served)
          × (requests_of served ≡ pushed xs)
  run-answers first xs started not_stopped num small =
      let e = run less xs (new_engine first) in
      let last = stops ∷ closing_steps e.worker e.requests.queue in
      let all = run less (xs ++ last) (new_engine first) in
      let silent : pushed (xs ++ last) ≡ pushed xs =
        pushed-append_silent xs last (pushed-closing_steps e.worker e.requests.queue) in
      let ended : HasEnded all =
        rw (run-append xs last (new_engine first))
          (stop-ends e started not_stopped (run-IsSound less xs (new_engine first) (refl, refl))) in
      let (served, same, order) =
        run-refines less first (xs ++ last) (rw silent num) (rw silent small) in
      (
        ended.0,
        served,
        same,
        sym (append-nil (requests_of served))
            ∙ ap (◌++◌ (requests_of served)) (λ i. in_hand (sym ended.0 i) ++ sym ended.1 i)
            ∙ order
            ∙ silent,
      )
