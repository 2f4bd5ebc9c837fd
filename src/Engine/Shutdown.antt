-- ===== src/Engine/Shutdown.antt =====
-- The end of the matching thread of src/matching_engine.cpp: the requests that
-- are queued at a shutdown, and those pushed after the thread has returned.
use leviathan_matching_engin.Prelude.{
  ◌≡◌, refl, ap, sym, ◌∙◌, Bool, true, List, [], ◌∷◌, ◌++◌, arith, append_assoc, append-nil,
}
use leviathan_matching_engin.Price.{Comparator}
use leviathan_matching_engin.ThreadSafeQueue.{push, pop, shutdown}
use leviathan_matching_engin.Engine.{
  Request, Desk, waiting, finished, Engine, Event, starts, stops, draws, works, pushes, start, stop,
  enqueue, process_request, matching_step, happen, run,
}
use leviathan_matching_engin.Engine.History.{pushed, pushed-cons}

module _ {P : Type 0} where
  -- Two steps of the matching thread for each request, and one that returns.
  abbrev pub drain_steps : List (Request P) → List (Event P)
  drain_steps [] = works ∷ []
  drain_steps (r ∷ rs) = works ∷ works ∷ drain_steps rs

module _ {P : Type 0} (less : Comparator P) where
  -- The book and the promises after the requests in turn, with no other thread at work.
  abbrev pub serve_all : Desk P → List (Request P) → Desk P
  serve_all d [] = d
  serve_all d (r ∷ rs) = serve_all (process_request less d r) rs

  pub drain_at :
      (d : Desk P) (q : List (Request P)) (st sp : Bool)
      → run less (drain_steps q) (record {
        desk = d;
        requests = record { queue = q; is_shutdown = true };
        worker = waiting;
        started = st;
        stopped = sp;
      })
        ≡ record {
          desk = serve_all d q;
          requests = record { queue = []; is_shutdown = true };
          worker = finished;
          started = st;
          stopped = sp;
        }
  unfolding run happen matching_step pop
  drain_at d [] st sp = refl
  drain_at d (r ∷ rs) st sp = drain_at (process_request less d r) rs st sp

  -- After a shutdown the matching thread, waiting and left to work, processes every queued request
  -- in order and then returns.
  pub run-drains :
      (e : Engine P)
      → e.worker ≡ waiting
      → e.requests.is_shutdown ≡ true
      → run less (drain_steps e.requests.queue) e ≡ record e {
        desk = serve_all e.desk e.requests.queue;
        requests = record { queue = []; is_shutdown = true };
        worker = finished;
      }
  run-drains e w s =
      ap (run less (drain_steps e.requests.queue)) (λ i. record e {
        requests = record { queue = e.requests.queue; is_shutdown = s i };
        worker = w i;
      })
      ∙ drain_at e.desk e.requests.queue e.started e.stopped

  happen-finished :
      (x : Event P) (e : Engine P)
      → e.worker ≡ finished
      → e.started ≡ true
      → let e' = happen less x e in
        (e'.worker ≡ finished)
        × (e'.started ≡ true)
        × (e'.desk.book ≡ e.desk.book)
        × (e'.desk.fulfilled ≡ e.desk.fulfilled)
        × (e'.requests.queue ≡ e.requests.queue ++ pushed (x ∷ []))
  unfolding happen start stop shutdown enqueue push matching_step
  happen-finished starts e w st = ground (arith, append-nil e.requests.queue)
  happen-finished stops e w st = ground (arith, append-nil e.requests.queue)
  happen-finished draws e w st = ground (arith, append-nil e.requests.queue)
  happen-finished works e w st = ground (arith, append-nil e.requests.queue)
  happen-finished (pushes r) e w st = (w, st, refl, refl, refl)

  -- Once the matching thread has returned, the book and the promises stay as they are, and what is
  -- pushed stays in the queue.
  pub run-finished :
      (xs : List (Event P)) (e : Engine P)
      → e.worker ≡ finished
      → e.started ≡ true
      → let e' = run less xs e in
        (e'.worker ≡ finished)
        × (e'.desk.book ≡ e.desk.book)
        × (e'.desk.fulfilled ≡ e.desk.fulfilled)
        × (e'.requests.queue ≡ e.requests.queue ++ pushed xs)
  unfolding run
  run-finished [] e w st = (w, refl, refl, sym (append-nil e.requests.queue))
  run-finished (x ∷ xs) e w st =
      let (w', st', book, promises, queued) = happen-finished x e w st in
      let later = run-finished xs (happen less x e) w' st' in
      (
        later.0,
        later.1 ∙ book,
        later.2 ∙ promises,
        later.3
            ∙ ap (λ q. q ++ pushed xs) queued
            ∙ append_assoc e.requests.queue (pushed (x ∷ [])) (pushed xs)
            ∙ ap (◌++◌ e.requests.queue) (sym (pushed-cons x xs)),
      )
