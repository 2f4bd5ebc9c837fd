-- ===== src/Replay/Comparison.antt =====
-- `compareTrades` of src/replay.cpp, against a comparison place by place.
use leviathan_matching_engin.Prelude.{
  ℕ, suc, ◌≡◌, refl, Bool, false, List, [], ◌∷◌, arith, length, ◌↔◌, Bool-cases, inl, inr,
}
use leviathan_matching_engin.Order.{Trade}
use leviathan_matching_engin.Replay.{differ, report, mismatches}

module _ {P : Type 0} (far : P → P → Bool) where
  -- The two sequences have one length, and the trades at each place are the same but for timestamps.
  abbrev pub Agree : List (Trade P) → List (Trade P) → Type 0
  Agree [] [] = Unit
  Agree [] (l ∷ logged) = ⊥
  Agree (r ∷ replayed) [] = ⊥
  Agree (r ∷ replayed) (l ∷ logged) =
      ((r.buy_order_id ≡ l.buy_order_id)
        × (r.sell_order_id ≡ l.sell_order_id)
        × (far r.price l.price ≡ false)
        × (r.quantity ≡ l.quantity))
      × Agree replayed logged

  pub length-report :
      (i : ℕ) (replayed logged : List (Trade P))
      → length (report far i replayed logged) ≡ mismatches far replayed logged
  unfolding report mismatches
  length-report i [] [] = refl
  length-report i [] (l ∷ logged) = omega (arith, length-report (suc i) [] logged)
  length-report i (r ∷ replayed) [] = omega (arith, length-report (suc i) replayed [])
  length-report i (r ∷ replayed) (l ∷ logged) =
      ground (arith, length-report (suc i) replayed logged)

  sound :
      (replayed logged : List (Trade P))
      → mismatches far replayed logged ≡ 0
      → Agree replayed logged
  unfolding mismatches
  sound [] [] h = tt
  sound [] (l ∷ logged) h = absurd (omega (arith, h))
  sound (r ∷ replayed) [] h = absurd (omega (arith, h))
  sound (r ∷ replayed) (l ∷ logged) h = elim (Bool-cases (differ far r l)) [
    | inl d ↦ absurd (ground (arith, h))
    | inr same ↦ (
      (ground arith, ground arith, ground arith, ground arith),
      sound replayed logged (ground arith),
    )
  ]

  complete :
      (replayed logged : List (Trade P))
      → Agree replayed logged
      → mismatches far replayed logged ≡ 0
  unfolding mismatches
  complete [] [] h = refl
  complete [] (l ∷ logged) h = absurd h
  complete (r ∷ replayed) [] h = absurd h
  complete (r ∷ replayed) (l ∷ logged) h = ground (arith, h.0, complete replayed logged h.1)

  -- `compareTrades` counts no mismatch exactly when the replayed and the logged trades are equally
  -- many and agree at each place in ids, quantity and, up to the test on prices, price; and its
  -- report has one entry for each mismatch.
  pub mismatches_lem :
      (replayed logged : List (Trade P))
      → ((mismatches far replayed logged ≡ 0) ↔ Agree replayed logged)
        × (length (report far 0 replayed logged) ≡ mismatches far replayed logged)
  mismatches_lem replayed logged =
      ((sound replayed logged, complete replayed logged), length-report 0 replayed logged)
