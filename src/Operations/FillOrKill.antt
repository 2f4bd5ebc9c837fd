-- ===== src/Operations/FillOrKill.antt =====
-- FOK orders in `submitOrder` of src/order_book.cpp, and the 64-bit sum of their preview.
use leviathan_matching_engin.Prelude.{
  ℕ, ◌+◌, ◌%◌, ◌≤◌, ◌<◌, ◌≡◌, refl, ap, true, false, not, ◌⊎◌, inl, inr, [], ◌∷◌, ◌==◌, leb,
  if◌then◌else◌, arith, Bool-cases, subst,
}
use leviathan_matching_engin.Price.{Comparator}
use leviathan_matching_engin.Order.{Order, opposite, is_market, is_fok, uint64_limit}
use leviathan_matching_engin.Levels.Ladder.{IsLadder}
use leviathan_matching_engin.Bounds.{FitsOrder, FitsLevels, FitsBook, side_map-Fits}
use leviathan_matching_engin.Levels.{can_fully_fill_from_map, preview_levels}
use leviathan_matching_engin.Book.{OrderBook, side_map, comparator}
use leviathan_matching_engin.Book.Validity.{IsValid, side-IsLadder}
use leviathan_matching_engin.Matching.Fills.{traded, eligible_volume}
use leviathan_matching_engin.Matching.Preview.{
  can_fully_fill_from_map_sound, can_fully_fill_from_map_lem,
}
use leviathan_matching_engin.Operations.{submit_order, can_fully_fill}
use leviathan_matching_engin.Operations.Submit.{
  acceptable, opposing, killed, submit_cases, execute-traded,
}

module _ {P : Type 0} (less : Comparator P) (t : Order P) (b : OrderBook P) (v : IsValid less b)
    (is : is_fok t.type ≡ true) where
  priced : is_market t.type ≡ false
  priced = ground arith

  preview_sound :
      killed less t b ≡ false → t.quantity ≤ eligible_volume (acceptable less t) (opposing less t b)
  unfolding can_fully_fill
  preview_sound h = rw priced (
      can_fully_fill_from_map_sound (comparator less (opposite t.side)) (opposite t.side) t.price
        t.quantity (side_map (opposite t.side) b) (side-IsLadder less (opposite t.side) v)
        (ground arith))

  -- On a valid book a FOK order is filled whole, or the book stays as it was and there are no
  -- trades.
  pub submit_order-fok :
      (submit_order less b t ≡ (b, [])) ⊎ (traded (submit_order less b t).1 ≡ t.quantity)
  submit_order-fok =
      submit_cases less t (λ r. (r ≡ (b, [])) ⊎ (traded r.1 ≡ t.quantity)) b (λ _. inl refl)
        (λ _. inl refl) λ alive. inr (omega (arith, execute-traded less t b v, preview_sound alive))

  preview-decides :
      0 < t.quantity
      → eligible_volume (acceptable less t) (opposing less t b) < uint64_limit
      → killed less t b
        ≡ not (leb t.quantity (eligible_volume (acceptable less t) (opposing less t b)))
  unfolding can_fully_fill
  preview-decides pos w =
      rw (is, priced)
        (ap not (
          can_fully_fill_from_map_lem (comparator less (opposite t.side)) (opposite t.side) t.price
            t.quantity (side_map (opposite t.side) b) (side-IsLadder less (opposite t.side) v) pos
            (rw priced at w)))

  -- On a valid book, while the volume at its price or better is below 2^64, a FOK order is filled
  -- whole if that volume is enough, and trades nothing otherwise.
  pub submit_order-fok_traded :
      eligible_volume (acceptable less t) (opposing less t b) < uint64_limit
      → traded (submit_order less b t).1 ≡ (
          if leb t.quantity (eligible_volume (acceptable less t) (opposing less t b))
          then t.quantity
          else 0)
  submit_order-fok_traded w =
      submit_cases less t
        (λ r. traded r.1 ≡ (
          if leb t.quantity (eligible_volume (acceptable less t) (opposing less t b))
          then t.quantity
          else 0))
        b (λ e. ground arith) dead
        (λ alive. ground (arith, execute-traded less t b v, preview_sound alive))
    where
      dead :
          killed less t b ≡ true
          → 0 ≡ (
              if leb t.quantity (eligible_volume (acceptable less t) (opposing less t b))
              then t.quantity
              else 0)
      dead h = elim (Bool-cases (t.quantity == 0)) [
        | inl e ↦ ground arith
        | inr e ↦ ground (arith, preview-decides (ground arith) w)
      ]

preview_overflow :
    {P : Type 0} (c : Comparator P) (p k : P) (n : ℕ) (x y : Order P)
    → c.lt p k ≡ false
    → x.quantity < n
    → n < uint64_limit
    → (x.quantity + y.quantity) % uint64_limit < n
    → can_fully_fill_from_map c ((k, x ∷ y ∷ []) ∷ []) p n ≡ false
unfolding can_fully_fill_from_map preview_levels
preview_overflow c p k n x y ok small fits wraps =
    let first : (0 + x.quantity) % uint64_limit ≡ x.quantity = omega arith in
    rw (ok, first) (ground arith)

-- On a valid book whose ids and quantities, and those of a FOK order, are below 2^64, where the
-- opposing side is one level at an acceptable price with two orders, the first smaller than the
-- FOK order and the two together 2^64 or more, the resting orders are enough to fill the FOK
-- order, and it is killed.
pub submit_order-fok_overflow :
    {P : Type 0} (less : Comparator P) (t x y : Order P) (k : P) (b : OrderBook P)
    → is_fok t.type ≡ true
    → IsValid less b
    → FitsBook b
    → FitsOrder t
    → side_map (opposite t.side) b ≡ (k, x ∷ y ∷ []) ∷ []
    → (comparator less (opposite t.side)).lt t.price k ≡ false
    → x.quantity < t.quantity
    → uint64_limit ≤ x.quantity + y.quantity
    → (t.quantity ≤ eligible_volume (acceptable less t) (opposing less t b))
      × (submit_order less b t ≡ (b, []))
unfolding can_fully_fill
submit_order-fok_overflow less t x y k b is v fits_book fits m ok small wraps =
    let theirs = comparator less (opposite t.side) in
    let bounded : FitsLevels ((k, x ∷ y ∷ []) ∷ []) =
      subst FitsLevels m (side_map-Fits (opposite t.side) b fits_book) in
    let level : IsLadder theirs (opposite t.side) ((k, x ∷ y ∷ []) ∷ []) =
      subst (IsLadder theirs (opposite t.side)) m (side-IsLadder less (opposite t.side) v) in
    let first : x.price ≡ k = level.1.0.1 in
    let second : y.price ≡ k = level.1.1.0.1 in
    let killed_by : can_fully_fill_from_map theirs ((k, x ∷ y ∷ []) ∷ []) t.price t.quantity
        ≡ false =
      preview_overflow theirs t.price k t.quantity x y ok small fits.1
        (omega (arith, bounded.0.1.0.1, wraps)) in
    let all_eligible : eligible_volume (acceptable less t) (x ∷ y ∷ [])
        ≡ x.quantity + (y.quantity + 0) =
      rw (first, second, ok) (ground arith) in
    (
      rw m (omega (arith, all_eligible, fits.1)),
      submit_cases less t (λ r. r ≡ (b, [])) b (λ _. refl) (λ _. refl)
          (λ alive. absurd (
            ground (
              arith,
              ap (λ lv. can_fully_fill_from_map theirs lv t.price t.quantity) m,
              killed_by,
            ))),
    )
