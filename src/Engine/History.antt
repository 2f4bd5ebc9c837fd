-- ===== src/Engine/History.antt =====
-- The interleavings of the threads of src/matching_engine.cpp, against requests served one by one.
use mathlib.Core.List.{map-append}
use leviathan_matching_engin.Prelude.{
  ℕ, ◌≡◌, refl, ap, sym, ◌∙◌, Bool, true, false, List, [], ◌∷◌, ◌++◌, arith, map, append_assoc,
  append-nil,
}
use leviathan_matching_engin.Price.{Comparator}
use leviathan_matching_engin.ThreadSafeQueue.{push, pop_front, pop, shutdown}
use leviathan_matching_engin.Engine.{
  Request, Desk, Worker, unborn, waiting, holding, finished, Engine, Event, starts, stops, draws,
  works, pushes, empty_desk, new_engine, start, stop, enqueue, take_popped, process_request, work,
  matching_step, happen, run,
}
use leviathan_matching_engin.Engine.Serving.{serve, serve-append}

module _ {P : Type 0} where
  -- The request that the matching thread has popped and not yet processed.
  abbrev pub in_hand : Worker P → List (Request P)
  in_hand (holding r) = r ∷ []
  in_hand _ = []

  -- What has been pushed in a run.
  abbrev pub pushed : List (Event P) → List (Request P)
  pushed [] = []
  pushed (pushes r ∷ xs) = r ∷ pushed xs
  pushed (starts ∷ xs) = pushed xs
  pushed (stops ∷ xs) = pushed xs
  pushed (draws ∷ xs) = pushed xs
  pushed (works ∷ xs) = pushed xs

  abbrev pub requests_of : List (Request P × ℕ) → List (Request P)
  requests_of served = map (λ (x : Request P × ℕ). x.0) served

  pub pushed-cons :
      (x : Event P) (xs : List (Event P)) → pushed (x ∷ xs) ≡ pushed (x ∷ []) ++ pushed xs
  pushed-cons starts xs = refl
  pushed-cons stops xs = refl
  pushed-cons draws xs = refl
  pushed-cons works xs = refl
  pushed-cons (pushes r) xs = refl

module _ {P : Type 0} (less : Comparator P) (first : ℕ) where
  -- The engine has served some of the requests `ps`, with the result of serving them in turn; one may be
  -- in hand, and the others stand in the queue, all in the order of `ps`.
  pub record IsLinear (ps : List (Request P)) (e : Engine P) (served : List (Request P × ℕ))
      : Type 0 where
    pub same_book : e.desk.book ≡ (serve less (empty_desk first) served).book
    pub same_promises : e.desk.fulfilled ≡ (serve less (empty_desk first) served).fulfilled
    pub in_order : requests_of served ++ (in_hand e.worker ++ e.requests.queue) ≡ ps
    pub not_started : e.started ≡ false → e.worker ≡ unborn

  abbrev pub Linear : List (Request P) → Engine P → Type 0
  Linear ps e = (served : List (Request P × ℕ)) × IsLinear ps e served

  start-Linear : (ps : List (Request P)) (e : Engine P) → Linear ps e → Linear ps (start e)
  unfolding start
  start-Linear ps e (served, l) = (
    served,
    record {
      same_book = ground (arith, l.same_book);
      same_promises = ground (arith, l.same_promises);
      in_order = ground (arith, l.in_order, l.not_started);
      not_started = λ h. ground (arith, l.not_started);
    },
  )

  stop-Linear : (ps : List (Request P)) (e : Engine P) → Linear ps e → Linear ps (stop e)
  unfolding stop shutdown
  stop-Linear ps e (served, l) = (
    served,
    record {
      same_book = ground (arith, l.same_book);
      same_promises = ground (arith, l.same_promises);
      in_order = ground (arith, l.in_order);
      not_started = λ h. ground (arith, l.not_started);
    },
  )

  enqueue-Linear :
      (ps : List (Request P)) (e : Engine P) (r : Request P)
      → Linear ps e
      → Linear (ps ++ r ∷ []) (enqueue r e)
  unfolding enqueue push
  enqueue-Linear ps e r (served, l) = (
    served,
    record {
      same_book = l.same_book;
      same_promises = l.same_promises;
      in_order =
          ap (λ z. requests_of served ++ z)
            (sym (append_assoc (in_hand e.worker) e.requests.queue (r ∷ [])))
          ∙ sym (append_assoc (requests_of served) (in_hand e.worker ++ e.requests.queue) (r ∷ []))
          ∙ ap (λ z. z ++ r ∷ []) l.in_order;
      not_started = l.not_started;
    },
  )

  -- A pop moves the oldest request from the queue into the hand of the matching thread.
  pop-Linear :
      (ps : List (Request P)) (e : Engine P) (q : List (Request P)) (s : Bool)
      → e.worker ≡ waiting
      → e.requests.queue ≡ q
      → Linear ps e
      → Linear ps (take_popped e (pop_front q s))
  pop-Linear ps e [] true w here (served, l) = (
    served,
    record {
      same_book = l.same_book;
      same_promises = l.same_promises;
      in_order = rw w at l.in_order;
      not_started = λ h. absurd (ground (arith, l.not_started h));
    },
  )
  pop-Linear ps e [] false w here l = l
  pop-Linear ps e (r ∷ rest) s w here (served, l) = (
    served,
    record {
      same_book = l.same_book;
      same_promises = l.same_promises;
      in_order = rw (w, here) at l.in_order;
      not_started = λ h. absurd (ground (arith, l.not_started h));
    },
  )

  -- The processing of the request in hand serves it, at the present value of the timestamp counter.
  process-Linear :
      (ps : List (Request P)) (e : Engine P) (r : Request P)
      → e.worker ≡ holding r
      → Linear ps e
      → Linear ps (record e { desk = process_request less e.desk r; worker = waiting })
  process-Linear ps e r w (served, l) = (
    served ++ (r, e.desk.counter) ∷ [],
    record {
      same_book = ap (λ d. d.book) desk_now;
      same_promises = ap (λ d. d.fulfilled) desk_now;
      in_order =
          ap (λ z. z ++ e.requests.queue)
            (map-append (λ (x : Request P × ℕ). x.0) served ((r, e.desk.counter) ∷ []))
          ∙ append_assoc (requests_of served) (r ∷ []) e.requests.queue
          ∙ (rw w at l.in_order);
      not_started = λ h. absurd (ground (arith, l.not_started h));
    },
  )
    where
      before : Desk P
      before = serve less (empty_desk first) served

      desk_now :
          process_request less e.desk r
          ≡ serve less (empty_desk first) (served ++ (r, e.desk.counter) ∷ [])
      desk_now =
          ap (λ d. process_request less d r)
            (λ i. record {
              book = l.same_book i;
              counter = e.desk.counter;
              fulfilled = l.same_promises i;
            })
          ∙ sym (serve-append less (empty_desk first) served ((r, e.desk.counter) ∷ []))

  matching_step-Linear :
      (ps : List (Request P)) (e : Engine P) → Linear ps e → Linear ps (matching_step less e)
  unfolding matching_step pop
  matching_step-Linear ps e l = at_worker e.worker refl
    where
      at_worker : (w : Worker P) → e.worker ≡ w → Linear ps (work less e w)
      at_worker unborn h = l
      at_worker waiting h = pop-Linear ps e e.requests.queue e.requests.is_shutdown h refl l
      at_worker (holding r) h = process-Linear ps e r h l
      at_worker finished h = l

  happen-Linear :
      (ps : List (Request P)) (x : Event P) (e : Engine P)
      → Linear ps e
      → Linear (ps ++ pushed (x ∷ [])) (happen less x e)
  unfolding happen
  happen-Linear ps starts e l = rw (append-nil ps) (start-Linear ps e l)
  happen-Linear ps stops e l = rw (append-nil ps) (stop-Linear ps e l)
  happen-Linear ps (pushes r) e l = enqueue-Linear ps e r l
  happen-Linear ps draws e (served, l) = rw (append-nil ps) (
    served,
    record {
      same_book = l.same_book;
      same_promises = l.same_promises;
      in_order = l.in_order;
      not_started = l.not_started;
    },
  )
  happen-Linear ps works e l = rw (append-nil ps) (matching_step-Linear ps e l)

  run-Linear_from :
      (ps : List (Request P)) (xs : List (Event P)) (e : Engine P)
      → Linear ps e
      → Linear (ps ++ pushed xs) (run less xs e)
  unfolding run
  run-Linear_from ps [] e l = rw (append-nil ps) l
  run-Linear_from ps (x ∷ xs) e l =
      rw (pushed-cons x xs, ← append_assoc ps (pushed (x ∷ [])) (pushed xs))
        (run-Linear_from (ps ++ pushed (x ∷ [])) xs (happen less x e) (happen-Linear ps x e l))

  pub run-Linear : (xs : List (Event P)) → Linear (pushed xs) (run less xs (new_engine first))
  run-Linear xs = run-Linear_from [] xs (new_engine first) (
    [],
    record { same_book = refl; same_promises = refl; in_order = refl; not_started = λ h. refl },
  )

  -- However the threads interleave, the book and the fulfilled promises are those of serving some
  -- requests one after another, and these, the one in hand and the queue are what was pushed, in
  -- the order of the pushes.
  pub run-serial :
      (xs : List (Event P))
      → let e = run less xs (new_engine first) in
        (served : List (Request P × ℕ)) × (e.desk.book
          ≡ (serve less (empty_desk first) served).book)
        × (e.desk.fulfilled ≡ (serve less (empty_desk first) served).fulfilled)
        × (requests_of served ++ (in_hand e.worker ++ e.requests.queue) ≡ pushed xs)
  run-serial xs =
      let (served, l) = run-Linear xs in (served, l.same_book, l.same_promises, l.in_order)
