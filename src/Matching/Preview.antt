-- ===== src/Matching/Preview.antt =====
-- The preview of FOK orders, `canFullyFill_` of src/order_book.cpp, against the volume that it sums.
use native.Mathlib.Nat.{add_assoc}
use leviathan_matching_engin.Prelude.{
  ℕ, ◌+◌, ◌%◌, ◌≤◌, ◌<◌, ◌≡◌, refl, Bool, true, false, not, none, some, Option-cases, List, [], ◌∷◌,
  ◌++◌, leb, if◌then◌else◌, arith, All, Bool-cases, inl, inr, ap, ◌∙◌,
}
use leviathan_matching_engin.Price.{Comparator}
use leviathan_matching_engin.Order.{Side, Order, uint64_limit}
use leviathan_matching_engin.Resting.{volume}
use leviathan_matching_engin.Levels.{
  Levels, orders, preview_level, preview_levels, can_fully_fill_from_map,
}
use leviathan_matching_engin.Levels.Ladder.{Belongs, IsLadder}
use leviathan_matching_engin.Matching.Priority.{accepts}
use leviathan_matching_engin.Matching.Sorted.{IsSorted-IsMonotone, orders-IsSorted}
use leviathan_matching_engin.Matching.Fills.{IsMonotone, eligible_volume}

module _ {P : Type 0} (acceptable : P → Bool) where
  pub eligible_volume-append :
      (xs ys : List (Order P))
      → eligible_volume acceptable (xs ++ ys)
        ≡ eligible_volume acceptable xs + eligible_volume acceptable ys
  eligible_volume-append [] ys = omega arith
  eligible_volume-append (x ∷ xs) ys = omega (arith, eligible_volume-append xs ys)

  eligible_volume-level :
      (side : Side) (k : P) (q : List (Order P))
      → All (Belongs side k) q
      → acceptable k ≡ true
      → eligible_volume acceptable q ≡ volume q
  eligible_volume-level side k [] b h = refl
  eligible_volume-level side k (o ∷ q) b h =
      let here : acceptable o.price ≡ true = rw b.0.1 h in
      rw here (ap (λ (n : ℕ). o.quantity + n) (eligible_volume-level side k q b.1 h))

  IsMonotone-append_right :
      (xs ys : List (Order P)) → IsMonotone acceptable (xs ++ ys) → IsMonotone acceptable ys
  IsMonotone-append_right [] ys m = m
  IsMonotone-append_right (x ∷ xs) ys m = IsMonotone-append_right xs ys m.1

module _ {P : Type 0} where
  -- While the sum stays below 2^64, a level's loop computes it, or stops where it reaches `needed`.
  pub preview_level_lem :
      (needed available : ℕ) (q : List (Order P))
      → available < needed
      → available + volume q < uint64_limit
      → preview_level needed available q
        ≡ (if leb needed (available + volume q) then none else some (available + volume q))
  preview_level_lem needed available [] h w = ground arith
  preview_level_lem needed available (o ∷ q) h w =
      let sum : (available + o.quantity) % uint64_limit ≡ available + o.quantity = omega arith in
      rw sum (ground (arith, preview_level_lem needed (available + o.quantity) q))

  -- Wrapped or not, the sum never exceeds the volume.
  pub preview_level_sound :
      (needed available bound : ℕ) (q : List (Order P))
      → available ≤ bound
      → (preview_level needed available q ≡ none → needed ≤ bound + volume q)
        × ((a : ℕ) → preview_level needed available q ≡ some a → a ≤ bound + volume q)
  preview_level_sound needed available bound [] h = (λ e. cc, λ a e. ground arith)
  preview_level_sound needed available bound (o ∷ q) h =
      let wrapped : (available + o.quantity) % uint64_limit ≤ bound + o.quantity = omega arith in
      let rest =
        preview_level_sound needed ((available + o.quantity) % uint64_limit) (bound + o.quantity) q
          wrapped in
      elim (Bool-cases (leb needed ((available + o.quantity) % uint64_limit))) [
        | inl enough ↦ rw enough (λ e. omega_bound enough, λ a e. cc)
        | inr more ↦ rw more (λ e. omega (arith, rest.0 e), λ a e. omega (arith, rest.1 a e))
      ]
    where
      omega_bound :
          leb needed ((available + o.quantity) % uint64_limit) ≡ true
          → needed ≤ bound + (o.quantity + volume q)
      omega_bound e = ground (arith)

module _ {P : Type 0} (c : Comparator P) (side : Side) (own : P) where
  abbrev own_volume : Levels P → ℕ
  own_volume m = eligible_volume (accepts c false own) (orders m)

  abbrev crosses : P → Bool
  crosses k = not (c.lt own k)

  -- At a price that crosses, a level counts whole.
  own_volume-level :
      (k : P) (q : List (Order P)) (rest : Levels P)
      → All (Belongs side k) q
      → crosses k ≡ true
      → own_volume ((k, q) ∷ rest) ≡ volume q + own_volume rest
  own_volume-level k q rest b h = omega (
    arith,
    eligible_volume-append (accepts c false own) q (orders rest),
    eligible_volume-level (accepts c false own) side k q b h,
  )

  -- A level at a price that does not cross ends what is eligible.
  own_volume-stop :
      (k : P) (o : Order P) (q : List (Order P)) (rest : Levels P)
      → o.price ≡ k
      → IsMonotone (accepts c false own) (o ∷ q ++ orders rest)
      → crosses k ≡ false
      → own_volume ((k, o ∷ q) ∷ rest) ≡ 0
  own_volume-stop k o q rest p m h =
      let here : accepts c false own o.price ≡ false = rw p h in rw here (omega (arith, m.0 here))

  preview_levels_lem :
      (needed available : ℕ) (m : Levels P)
      → IsLadder c side m
      → IsMonotone (accepts c false own) (orders m)
      → available < needed
      → available + own_volume m < uint64_limit
      → preview_levels crosses needed available m ≡ leb needed (available + own_volume m)
  unfolding preview_levels
  preview_levels_lem needed available [] l mono h w = ground arith
  preview_levels_lem needed available ((k, []) ∷ rest) l mono h w = absurd (l.0 refl)
  preview_levels_lem needed available ((k, o ∷ q) ∷ rest) l mono h w =
      elim (Bool-cases (crosses k)) [
        | inl on ↦
            let level = own_volume-level k (o ∷ q) rest l.1 on in
            let stepped = preview_level_lem needed available (o ∷ q) h (omega (arith, level)) in
            let later =
              preview_levels_lem needed (available + volume (o ∷ q)) rest l.3
                (IsMonotone-append_right (accepts c false own) (o ∷ q) (orders rest) mono) in
            elim (Bool-cases (leb needed (available + volume (o ∷ q)))) [
              | inl enough ↦ rw (on, stepped, level, enough) (ground arith)
              | inr more ↦
                  rw (on, stepped, level, more)
                    (later (ground arith) (omega (arith, level))
                      ∙ ap (leb needed) (add_assoc available (volume (o ∷ q)) (own_volume rest)))
            ]
        | inr off ↦ rw (off, own_volume-stop k o q rest l.1.0.1 mono off) (ground arith)
      ]

  preview_levels_sound :
      (needed available bound : ℕ) (m : Levels P)
      → IsLadder c side m
      → available ≤ bound
      → preview_levels crosses needed available m ≡ true
      → needed ≤ bound + own_volume m
  unfolding preview_levels
  preview_levels_sound needed available bound [] l h e = cc
  preview_levels_sound needed available bound ((k, q) ∷ rest) l h e =
      elim (Bool-cases (crosses k)) [
        | inl on ↦
            let level = own_volume-level k q rest l.1 on in
            let sums = preview_level_sound needed available bound q h in
            elim (Option-cases (preview_level needed available q)) [
              | inl reached ↦ omega (arith, level, sums.0 reached)
              | inr (a, below) ↦
                  let later : preview_levels crosses needed a rest ≡ true = rw (on, below) at e in
                  omega (
                    arith,
                    level,
                    preview_levels_sound needed a (bound + volume q) rest l.3 (sums.1 a below)
                        later,
                  )
            ]
        | inr off ↦ ground arith
      ]

  -- The preview says yes only if the eligible volume is enough, whatever the 64-bit sum does.
  pub can_fully_fill_from_map_sound :
      (needed : ℕ) (m : Levels P)
      → IsLadder c side m
      → can_fully_fill_from_map c m own needed ≡ true
      → needed ≤ eligible_volume (accepts c false own) (orders m)
  unfolding can_fully_fill_from_map
  can_fully_fill_from_map_sound needed m l e =
      omega (arith, preview_levels_sound needed 0 0 m l (omega arith) e)

  -- While the eligible volume stays below 2^64, the preview decides whether it is enough.
  pub can_fully_fill_from_map_lem :
      (needed : ℕ) (m : Levels P)
      → IsLadder c side m
      → 0 < needed
      → eligible_volume (accepts c false own) (orders m) < uint64_limit
      → can_fully_fill_from_map c m own needed
        ≡ leb needed (eligible_volume (accepts c false own) (orders m))
  unfolding can_fully_fill_from_map
  can_fully_fill_from_map_lem needed m l pos w =
      preview_levels_lem needed 0 m l
        (IsSorted-IsMonotone c false own (orders m) (orders-IsSorted c side m l)) pos (omega arith)
      ∙ ap (leb needed) (omega arith)
