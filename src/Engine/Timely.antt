-- ===== src/Engine/Timely.antt =====
-- When the matching thread of src/matching_engine.cpp lives, and when its queue is shut down.
use leviathan_matching_engin.Prelude.{◌≡◌, refl, sym, Bool, true, false, List, [], ◌∷◌, arith}
use leviathan_matching_engin.Price.{Comparator}
use leviathan_matching_engin.ThreadSafeQueue.{push, pop, shutdown}
use leviathan_matching_engin.Engine.{
  Request, Desk, Worker, unborn, waiting, holding, finished, Engine, Event, starts, stops, draws,
  works, pushes, start, stop, enqueue, matching_step, happen, run,
}

module _ {P : Type 0} where
  -- The matching thread is spawned by `start`, and does not return before `stop`.
  abbrev pub IsTimely : Worker P → Bool → Bool → Type 0
  IsTimely unborn started stopped = started ≡ false
  IsTimely waiting started stopped = Unit
  IsTimely (holding r) started stopped = Unit
  IsTimely finished started stopped = stopped ≡ true

  abbrev pub IsSound : Engine P → Type 0
  IsSound e = IsTimely e.worker e.started e.stopped × (e.requests.is_shutdown ≡ e.stopped)

module _ {P : Type 0} (less : Comparator P) where
  works-IsSound :
      (d : Desk P) (q : List (Request P)) (w : Worker P) (down started stopped : Bool)
      → IsTimely w started stopped
      → down ≡ stopped
      → IsSound (
          matching_step less (record {
            desk = d;
            requests = record { queue = q; is_shutdown = down };
            worker = w;
            started = started;
            stopped = stopped;
          }))
  unfolding matching_step pop
  works-IsSound d q unborn down started stopped t s = (t, s)
  works-IsSound d [] waiting true started stopped t s = (sym s, s)
  works-IsSound d [] waiting false started stopped t s = (t, s)
  works-IsSound d (r ∷ q) waiting down started stopped t s = (tt, s)
  works-IsSound d q (holding r) down started stopped t s = (tt, s)
  works-IsSound d q finished down started stopped t s = (t, s)

  stop-IsSound :
      (d : Desk P) (q : List (Request P)) (w : Worker P) (down started stopped : Bool)
      → IsTimely w started stopped
      → down ≡ stopped
      → IsSound (
          stop (record {
            desk = d;
            requests = record { queue = q; is_shutdown = down };
            worker = w;
            started = started;
            stopped = stopped;
          }))
  unfolding stop shutdown
  stop-IsSound d q w down false stopped t s = (t, s)
  stop-IsSound d q w down true true t s = (t, s)
  stop-IsSound d q unborn down true false t s = (t, refl)
  stop-IsSound d q waiting down true false t s = (t, refl)
  stop-IsSound d q (holding r) down true false t s = (t, refl)
  stop-IsSound d q finished down true false t s = (refl, refl)

  start-IsSound :
      (e : Engine P) (started : Bool) → e.started ≡ started → IsSound e → IsSound (start e)
  unfolding start
  start-IsSound e true h s = ground (arith, s)
  start-IsSound e false h s = ground (arith, s)

  happen-IsSound : (x : Event P) (e : Engine P) → IsSound e → IsSound (happen less x e)
  unfolding happen enqueue push
  happen-IsSound starts e s = start-IsSound e e.started refl s
  happen-IsSound stops e s =
      stop-IsSound e.desk e.requests.queue e.worker e.requests.is_shutdown e.started e.stopped s.0
        s.1
  happen-IsSound draws e s = s
  happen-IsSound works e s =
      works-IsSound e.desk e.requests.queue e.worker e.requests.is_shutdown e.started e.stopped s.0
        s.1
  happen-IsSound (pushes r) e s = s

  pub run-IsSound : (xs : List (Event P)) (e : Engine P) → IsSound e → IsSound (run less xs e)
  unfolding run
  run-IsSound [] e s = s
  run-IsSound (x ∷ xs) e s = run-IsSound xs (happen less x e) (happen-IsSound x e s)
