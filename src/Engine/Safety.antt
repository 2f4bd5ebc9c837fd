-- ===== src/Engine/Safety.antt =====
-- What holds of the book and the promises in every state that the threads of src/matching_engine.cpp
-- can reach.
use leviathan_matching_engin.Prelude.{
  ℕ, ◌≡◌, refl, ap, sym, ◌∙◌, subst, List, [], ◌∷◌, ◌++◌, All, All-append_left, map, append_assoc,
}
use leviathan_matching_engin.Price.{Comparator}
use leviathan_matching_engin.Index
use leviathan_matching_engin.Book.Validity.{IsValid, empty_book-IsValid}
use leviathan_matching_engin.Exchange.{view}
use leviathan_matching_engin.Exchange.Apart.{IsUncrossed}
use leviathan_matching_engin.Engine.{Request, Response, Event, empty_desk, new_engine, run}
use leviathan_matching_engin.Engine.Serving.{
  IsNumbered, IsMatched, AreNew, tickets, all_tickets, serve-IsValid, serve-tickets,
}
use leviathan_matching_engin.Engine.History.{in_hand, pushed, requests_of, run-Linear}

module _ {P : Type 0} where
  pub IsNumbered-append_left : (xs ys : List (Request P)) → IsNumbered (xs ++ ys) → IsNumbered xs
  IsNumbered-append_left [] ys n = tt
  IsNumbered-append_left (x ∷ xs) ys n =
      (n.0, (λ i names. All-append_left _ xs ys (n.1 i names)), IsNumbered-append_left xs ys n.2)

  pub empty-AreNew : (counter : ℕ) (rs : List (Request P)) → AreNew (empty_desk counter) rs
  unfolding Index.lookup
  empty-AreNew counter [] = tt
  empty-AreNew counter (r ∷ rs) = ((λ i names. refl), empty-AreNew counter rs)

  all_tickets-append :
      (xs ys : List (Request P)) → all_tickets (xs ++ ys) ≡ all_tickets xs ++ all_tickets ys
  all_tickets-append [] ys = refl
  all_tickets-append (x ∷ xs) ys =
      ap (◌++◌ (tickets x)) (all_tickets-append xs ys)
      ∙ sym (append_assoc (tickets x) (all_tickets xs) (all_tickets ys))

module _ {P : Type 0} (less : Comparator P) (first : ℕ) (xs : List (Event P)) where
  -- If the requests that are pushed bring in distinct ids and add no order of quantity 0, the book
  -- is valid after any interleaving of the threads.
  pub run-IsValid : IsNumbered (pushed xs) → IsValid less (run less xs (new_engine first)).desk.book
  run-IsValid num =
      let (served, l) = run-Linear less first xs in
      let e = run less xs (new_engine first) in
      subst (IsValid less) (sym l.same_book)
        (serve-IsValid less (empty_desk first) served
          (IsNumbered-append_left (requests_of served) (in_hand e.worker ++ e.requests.queue)
            (rw l.in_order num))
          (empty-AreNew first (requests_of served)) (empty_book-IsValid less)).0

  -- If the requests that are pushed bring in distinct ids and no request is an `addOrderAsync`,
  -- every bid is below every ask after any interleaving of the threads.
  pub run-IsUncrossed :
      IsNumbered (pushed xs)
      → All IsMatched (pushed xs)
      → IsUncrossed less (view (run less xs (new_engine first)).desk.book)
  run-IsUncrossed num matched =
      let (served, l) = run-Linear less first xs in
      let e = run less xs (new_engine first) in
      subst (λ b. IsUncrossed less (view b)) (sym l.same_book)
        ((serve-IsValid less (empty_desk first) served
            (IsNumbered-append_left (requests_of served) (in_hand e.worker ++ e.requests.queue)
              (rw l.in_order num))
            (empty-AreNew first (requests_of served)) (empty_book-IsValid less)).1
          (All-append_left IsMatched (requests_of served) (in_hand e.worker ++ e.requests.queue)
            (rw l.in_order matched))
          tt)

  -- The promises fulfilled are, in order, those of the first requests that were pushed, and the
  -- open ones are those of the requests in hand or queued.
  pub run-tickets :
      let e = run less xs (new_engine first) in
      map (λ (x : ℕ × Response P). x.0) e.desk.fulfilled
        ++ all_tickets (in_hand e.worker ++ e.requests.queue)
      ≡ all_tickets (pushed xs)
  run-tickets =
      let (served, l) = run-Linear less first xs in
      let e = run less xs (new_engine first) in
      ap
        (λ fs.
          map (λ (x : ℕ × Response P). x.0) fs
          ++ all_tickets (in_hand e.worker ++ e.requests.queue))
        l.same_promises
      ∙ ap (λ ts. ts ++ all_tickets (in_hand e.worker ++ e.requests.queue))
          (serve-tickets less (empty_desk first) served)
      ∙ sym (all_tickets-append (requests_of served) (in_hand e.worker ++ e.requests.queue))
      ∙ ap all_tickets l.in_order
