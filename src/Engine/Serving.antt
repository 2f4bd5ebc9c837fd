-- ===== src/Engine/Serving.antt =====
-- The requests of src/matching_engine.cpp served one after another, with no threads or queue: the
-- sequential meaning of the engine, and what holds of it.
use mathlib.Core.List.{map-append}
use leviathan_matching_engin.Prelude.{
  ℕ, ◌<◌, ◌≡◌, refl, ap, sym, ◌∙◌, List, [], ◌∷◌, ◌++◌, map, All, append_assoc, append-nil,
}
use leviathan_matching_engin.Price.{Comparator}
use leviathan_matching_engin.Book.Validity.{IsValid}
use leviathan_matching_engin.Operations.Validity.{
  add_order-IsValid, submit_order-IsValid, cancel_order-IsValid,
}
use leviathan_matching_engin.Operations.Modify.{modify_order-IsValid}
use leviathan_matching_engin.Operations.Free.{
  IsFree, add_order-IsFree, cancel_order-IsFree, submit_order-IsFree, modify_order-IsFree,
}
use leviathan_matching_engin.Exchange.{view}
use leviathan_matching_engin.Exchange.Apart.{IsUncrossed}
use leviathan_matching_engin.Exchange.Uncrossed.{
  submit_order-IsUncrossed, cancel_order-IsUncrossed, modify_order-IsUncrossed,
}
use leviathan_matching_engin.Engine.{
  Request, add_request, cancel_request, submit_request, modify_request, best_bid_request,
  best_ask_request, total_order_count_request, Response, Desk, process_request,
}

module _ {P : Type 0} where
  -- The id under which a request may put an order into the book.
  abbrev pub Names : ℕ → Request P → Type 0
  Names i (add_request o) = i ≡ o.id
  Names i (submit_request o ticket) = i ≡ o.id
  Names i (cancel_request j ticket) = ⊥
  Names i (modify_request j p n ticket) = ⊥
  Names i (best_bid_request ticket) = ⊥
  Names i (best_ask_request ticket) = ⊥
  Names i (total_order_count_request ticket) = ⊥

  abbrev pub HasQuantity : Request P → Type 0
  HasQuantity (add_request o) = 0 < o.quantity
  HasQuantity _ = Unit

  -- No two requests bring in the same id, and no order is added with quantity 0.
  abbrev pub IsNumbered : List (Request P) → Type 0
  IsNumbered [] = Unit
  IsNumbered (r ∷ rs) =
      HasQuantity r
      × ((i : ℕ) → Names i r → All (λ (r' : Request P). ¬ Names i r') rs)
      × IsNumbered rs

  -- Anything but `addOrderAsync`, which rests an order without matching it.
  abbrev pub IsMatched : Request P → Type 0
  IsMatched (add_request o) = ⊥
  IsMatched _ = Unit

  abbrev pub tickets : Request P → List ℕ
  tickets (add_request o) = []
  tickets (cancel_request j ticket) = ticket ∷ []
  tickets (submit_request o ticket) = ticket ∷ []
  tickets (modify_request j p n ticket) = ticket ∷ []
  tickets (best_bid_request ticket) = ticket ∷ []
  tickets (best_ask_request ticket) = ticket ∷ []
  tickets (total_order_count_request ticket) = ticket ∷ []

  abbrev pub all_tickets : List (Request P) → List ℕ
  all_tickets [] = []
  all_tickets (r ∷ rs) = tickets r ++ all_tickets rs

  -- The ids that the requests bring in are those of no resting order.
  abbrev pub AreNew : Desk P → List (Request P) → Type 0
  AreNew d rs = All (λ (r : Request P). (i : ℕ) → Names i r → IsFree i d.book) rs

module _ {P : Type 0} (less : Comparator P) where
  -- The requests in turn, each with the value of the timestamp counter when it is served.
  abbrev pub serve : Desk P → List (Request P × ℕ) → Desk P
  serve d [] = d
  serve d ((r, counter) ∷ rest) =
      serve (process_request less (record d { counter = counter }) r) rest

  pub serve-append :
      (d : Desk P) (xs ys : List (Request P × ℕ)) → serve d (xs ++ ys) ≡ serve (serve d xs) ys
  serve-append d [] ys = refl
  serve-append d ((r, counter) ∷ xs) ys =
      serve-append (process_request less (record d { counter = counter }) r) xs ys

  pub process_request-IsValid :
      (d : Desk P) (r : Request P)
      → HasQuantity r
      → ((i : ℕ) → Names i r → IsFree i d.book)
      → IsValid less d.book
      → IsValid less (process_request less d r).book
  unfolding process_request
  process_request-IsValid d (add_request o) q new v =
      add_order-IsValid less d.book o q (new o.id refl) v
  process_request-IsValid d (cancel_request j ticket) q new v = cancel_order-IsValid less d.book j v
  process_request-IsValid d (submit_request o ticket) q new v =
      submit_order-IsValid less d.book o (λ _. new o.id refl) v
  process_request-IsValid d (modify_request j p n ticket) q new v =
      modify_order-IsValid less d.counter d.book j p n v
  process_request-IsValid d (best_bid_request ticket) q new v = v
  process_request-IsValid d (best_ask_request ticket) q new v = v
  process_request-IsValid d (total_order_count_request ticket) q new v = v

  process_request-IsFree :
      (d : Desk P) (r : Request P) (i : ℕ)
      → ¬ Names i r
      → IsValid less d.book
      → IsFree i d.book
      → IsFree i (process_request less d r).book
  unfolding process_request
  process_request-IsFree d (add_request o) i ne v h = add_order-IsFree less i d.book o ne h
  process_request-IsFree d (cancel_request j ticket) i ne v h =
      cancel_order-IsFree less i d.book j v h
  process_request-IsFree d (submit_request o ticket) i ne v h =
      submit_order-IsFree less i d.book o ne v h
  process_request-IsFree d (modify_request j p n ticket) i ne v h =
      modify_order-IsFree less i d.counter d.book j p n v h
  process_request-IsFree d (best_bid_request ticket) i ne v h = h
  process_request-IsFree d (best_ask_request ticket) i ne v h = h
  process_request-IsFree d (total_order_count_request ticket) i ne v h = h

  process_request-IsUncrossed :
      (d : Desk P) (r : Request P)
      → IsMatched r
      → IsValid less d.book
      → IsUncrossed less (view d.book)
      → IsUncrossed less (view (process_request less d r).book)
  unfolding process_request
  process_request-IsUncrossed d (add_request o) m v u = absurd m
  process_request-IsUncrossed d (cancel_request j ticket) m v u =
      cancel_order-IsUncrossed less d.book j v u
  process_request-IsUncrossed d (submit_request o ticket) m v u =
      submit_order-IsUncrossed less d.book o v u
  process_request-IsUncrossed d (modify_request j p n ticket) m v u =
      modify_order-IsUncrossed less d.counter d.book j p n v u
  process_request-IsUncrossed d (best_bid_request ticket) m v u = u
  process_request-IsUncrossed d (best_ask_request ticket) m v u = u
  process_request-IsUncrossed d (total_order_count_request ticket) m v u = u

  -- After a request the ids of the later ones are still new.
  pub process_request-AreNew :
      (d : Desk P) (r : Request P) (rs : List (Request P))
      → ((i : ℕ) → Names i r → All (λ (r' : Request P). ¬ Names i r') rs)
      → IsValid less d.book
      → AreNew d rs
      → AreNew (process_request less d r) rs
  process_request-AreNew d r [] apart v new = tt
  process_request-AreNew d r (s ∷ rs) apart v new = (
    λ i names. process_request-IsFree d r i (λ again. (apart i again).0 names) v (new.0 i names),
    process_request-AreNew d r rs (λ i names. (apart i names).1) v new.1,
  )

  -- Well-numbered requests keep the book's invariant, and without `addOrderAsync` they keep the sides
  -- apart.
  pub serve-IsValid :
      (d : Desk P) (rs : List (Request P × ℕ))
      → IsNumbered (map (λ (x : Request P × ℕ). x.0) rs)
      → AreNew d (map (λ (x : Request P × ℕ). x.0) rs)
      → IsValid less d.book
      → IsValid less (serve d rs).book
        × (All IsMatched (map (λ (x : Request P × ℕ). x.0) rs)
            → IsUncrossed less (view d.book)
            → IsUncrossed less (view (serve d rs).book))
  serve-IsValid d [] num new v = (v, λ m u. u)
  serve-IsValid d ((r, counter) ∷ rs) num new v =
      let d' : Desk P = record d { counter = counter } in
      let later =
        serve-IsValid (process_request less d' r) rs num.2
          (process_request-AreNew d' r (map (λ (x : Request P × ℕ). x.0) rs) num.1 v new.1)
          (process_request-IsValid d' r num.0 new.0 v) in
      (later.0, λ m u. later.1 m.1 (process_request-IsUncrossed d' r m.0 v u))

  process_request-tickets :
      (d : Desk P) (r : Request P)
      → map (λ (x : ℕ × Response P). x.0) (process_request less d r).fulfilled
        ≡ map (λ (x : ℕ × Response P). x.0) d.fulfilled ++ tickets r
  unfolding process_request
  process_request-tickets d (add_request o) = sym (append-nil _)
  process_request-tickets d (cancel_request j ticket) = map-append _ d.fulfilled _
  process_request-tickets d (submit_request o ticket) = map-append _ d.fulfilled _
  process_request-tickets d (modify_request j p n ticket) = map-append _ d.fulfilled _
  process_request-tickets d (best_bid_request ticket) = map-append _ d.fulfilled _
  process_request-tickets d (best_ask_request ticket) = map-append _ d.fulfilled _
  process_request-tickets d (total_order_count_request ticket) = map-append _ d.fulfilled _

  -- Serving fulfils the promise of each request, once, in the order of the requests.
  pub serve-tickets :
      (d : Desk P) (rs : List (Request P × ℕ))
      → map (λ (x : ℕ × Response P). x.0) (serve d rs).fulfilled
        ≡ map (λ (x : ℕ × Response P). x.0) d.fulfilled
          ++ all_tickets (map (λ (x : Request P × ℕ). x.0) rs)
  serve-tickets d [] = sym (append-nil _)
  serve-tickets d ((r, counter) ∷ rs) =
      serve-tickets (process_request less (record d { counter = counter }) r) rs
      ∙ ap (λ ts. ts ++ all_tickets (map (λ (x : Request P × ℕ). x.0) rs))
          (process_request-tickets (record d { counter = counter }) r)
      ∙ append_assoc _ (tickets r) _
