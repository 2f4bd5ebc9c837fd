-- ===== src/Exchange/Volume.antt =====
-- The volume of the book of src/order_book.cpp through `submitOrder`.
use mathlib.Core.Path.{subst₂}
use leviathan_matching_engin.Prelude.{
  ℕ, ◌+◌, ◌-◌, ◌≤◌, ◌≡◌, refl, ap, sym, true, not, ◌&&◌, List, [], ◌∷◌, ◌==◌, if◌then◌else◌, arith,
  Bool-cases, inl, inr,
}
use leviathan_matching_engin.Price.{Comparator}
use leviathan_matching_engin.Order.{Side, buy, sell, Order, Trade, opposite, is_limit}
use leviathan_matching_engin.Resting.{volume}
use leviathan_matching_engin.Book.{OrderBook, comparator}
use leviathan_matching_engin.Book.Validity.{IsValid}
use leviathan_matching_engin.Matching.Priority.{consume}
use leviathan_matching_engin.Matching.Fills.{traded, consume-quantity, consume-volume}
use leviathan_matching_engin.Operations.{submit_order, execute}
use leviathan_matching_engin.Operations.Submit.{submit_cases}
use leviathan_matching_engin.Exchange.{
  Exchange, view, queue, set_queue, place, add, acceptable, trade,
}
use leviathan_matching_engin.Exchange.Refinement.{execute-refines}

module _ {P : Type 0} where
  abbrev pub total_volume : Exchange P → ℕ
  total_volume e = volume e.bids + volume e.asks

  volume-place :
      (c : Comparator P) (o : Order P) (xs : List (Order P))
      → volume (place c o xs) ≡ o.quantity + volume xs
  volume-place c o [] = refl
  volume-place c o (x ∷ xs) = ground (arith, volume-place c o xs)

  queue-set_queue : (s : Side) (q : List (Order P)) (e : Exchange P) → queue s (set_queue s q e) ≡ q
  queue-set_queue buy q e = refl
  queue-set_queue sell q e = refl

  queue-set_opposite :
      (s : Side) (q : List (Order P)) (e : Exchange P)
      → queue s (set_queue (opposite s) q e) ≡ queue s e
  queue-set_opposite buy q e = refl
  queue-set_opposite sell q e = refl

  opposite-set_queue :
      (s : Side) (q : List (Order P)) (e : Exchange P)
      → queue (opposite s) (set_queue s q e) ≡ queue (opposite s) e
  opposite-set_queue buy q e = refl
  opposite-set_queue sell q e = refl

  pub total_volume-sides :
      (s : Side) (e : Exchange P)
      → volume (queue s e) + volume (queue (opposite s) e) ≡ total_volume e
  total_volume-sides buy e = omega arith
  total_volume-sides sell e = omega arith

  pub volume-set_queue :
      (s : Side) (q : List (Order P)) (e : Exchange P)
      → total_volume (set_queue s q e) + volume (queue s e) ≡ total_volume e + volume q
  volume-set_queue buy q e = omega arith
  volume-set_queue sell q e = omega arith

module _ {P : Type 0} (less : Comparator P) where
  pub volume-add :
      (o : Order P) (e : Exchange P) → total_volume (add less o e) ≡ o.quantity + total_volume e
  volume-add o e = omega (
    arith,
    volume-set_queue o.side (place (comparator less o.side) o (queue o.side e)) e,
    volume-place (comparator less o.side) o (queue o.side e),
  )

  -- What a submission of `t` does to the volume of the two sides: the other side loses what is
  -- traded, which is no more than was wanted, and its own side gains the rest of a LIMIT order.
  abbrev pub Balances : Order P → Exchange P → Exchange P → List (Trade P) → Type 0
  Balances t e e' fills =
      (volume (queue (opposite t.side) e') + traded fills ≡ volume (queue (opposite t.side) e))
      × (traded fills ≤ t.quantity)
      × (volume (queue t.side e')
          ≡ volume (queue t.side e) + (if is_limit t.type then t.quantity - traded fills else 0))

  pub trade-Balances :
      (t : Order P) (e : Exchange P) → Balances t e (trade less t e).0 (trade less t e).1
  trade-Balances t e =
      let os = queue (opposite t.side) e in
      let x = consume (acceptable less t) t os in
      let e' = set_queue (opposite t.side) x.remaining e in
      let rest : Order P = record t { quantity = x.left } in
      let c = comparator less t.side in
      let filled = consume-quantity (acceptable less t) t os in
      let out = consume-volume (acceptable less t) t os in
      let theirs = ap volume (queue-set_queue (opposite t.side) x.remaining e) in
      let ours = ap volume (queue-set_opposite t.side x.remaining e) in
      elim (Bool-cases (not (x.left == 0) && is_limit t.type)) [
        | inl rests ↦
            let lim : is_limit t.type ≡ true = ground arith in
            let kept = ap volume (opposite-set_queue t.side (place c rest (queue t.side e')) e') in
            let gained = ap volume (queue-set_queue t.side (place c rest (queue t.side e')) e') in
            rw (rests, lim)
              (
                omega (arith, out, theirs, kept),
                omega (arith, filled),
                omega (arith, filled, ours, gained, volume-place c rest (queue t.side e')),
              )
        | inr done ↦ rw done (elim (Bool-cases (is_limit t.type)) [
          | inl lim ↦
              let used : x.left ≡ 0 = ground arith in
              rw lim (
                omega (arith, out, theirs),
                omega (arith, filled),
                omega (arith, filled, ours, used),
              )
          | inr other ↦
              rw other (omega (arith, out, theirs), omega (arith, filled), omega (arith, ours))
        ])
      ]

  -- On a valid book `submitOrder` of any order takes just the traded quantity out of the volume of
  -- the other side, trades no more than the order's quantity, and adds to the volume of the
  -- order's own side what is left of a LIMIT order, and nothing for other orders.
  pub submit_order-volume :
      (b : OrderBook P) (t : Order P)
      → IsValid less b
      → Balances t (view b) (view (submit_order less b t).0) (submit_order less b t).1
  submit_order-volume b t v =
      submit_cases less t (λ r. Balances t (view b) (view r.0) r.1) b
        (λ e. unchanged (ground arith)) (λ dead. unchanged (ground arith)) (λ alive. executed)
    where
      unchanged : (if is_limit t.type then t.quantity else 0) ≡ 0 → Balances t (view b) (view b) []
      unchanged h = (omega arith, omega arith, ground arith)

      executed : Balances t (view b) (view (execute less b t).0) (execute less b t).1
      executed =
          subst₂ (Balances t (view b)) (sym (execute-refines less b t v).0)
            (sym (execute-refines less b t v).1) (trade-Balances t (view b))
