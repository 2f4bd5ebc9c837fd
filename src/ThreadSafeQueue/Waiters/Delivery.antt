-- ===== src/ThreadSafeQueue/Waiters/Delivery.antt =====
-- The steps on the condition variable of include/thread_safe_queue.hpp: which items are returned, and who sleeps.
use leviathan_matching_engin.Prelude.{
  ℕ, zero, suc, ◌<◌, ◌≡◌, refl, ap, sym, ◌∙◌, Bool, true, false, ◌⊎◌, inl, inr, List, [], ◌∷◌, ◌++◌,
  arith, length, length-append, append_assoc, append-nil,
}
use leviathan_matching_engin.ThreadSafeQueue.{push, pop, shutdown}
use leviathan_matching_engin.ThreadSafeQueue.Waiters.{
  Waiters, Action, pushes_item, notifies_one, shuts_down, notifies_all, calls_pop, tests, wakes,
  new_waiters, wake_one, notify_one, notify_all, leave, test_condition, act, act_all, pushed_items,
  IsHeard,
}

module _ {T : Type 0} where
  abbrev IsAttended : Waiters T → Type 0
  IsAttended w = 0 < w.asleep → IsHeard w

  wake_one-IsAttended :
      (n : ℕ) (w : Waiters T) → w.asleep ≡ n → IsAttended w → IsAttended (wake_one n w)
  wake_one-IsAttended zero w e h = h
  wake_one-IsAttended (suc n) w e h =
      λ pos. let (items, down) = h (omega arith) in (omega arith, down)

  notify_one-IsAttended :
      (due : ℕ) (w : Waiters T)
      → w.notify_one_due ≡ due
      → IsAttended w
      → IsAttended (notify_one due w)
  notify_one-IsAttended zero w e h = h
  notify_one-IsAttended (suc due) w e h = woken w.asleep refl
    where
      woken : (n : ℕ) → w.asleep ≡ n → IsAttended (wake_one n (record w { notify_one_due = due }))
      woken zero none_asleep = λ pos. absurd (omega arith)
      woken (suc n) some_asleep = λ pos. let (items, down) = h (omega arith) in (omega arith, down)

  notify_all-IsAttended : (due : ℕ) (w : Waiters T) → IsAttended w → IsAttended (notify_all due w)
  notify_all-IsAttended zero w h = h
  notify_all-IsAttended (suc due) w h = λ pos. absurd (omega arith)

  leave-IsAttended :
      (q : List T) (s : Bool) (n : ℕ) (w : Waiters T)
      → w.awake ≡ suc n
      → w.queue ≡ record { queue = q; is_shutdown = s }
      → IsAttended w
      → IsAttended (
          leave
            (pop (record { queue = q; is_shutdown = s }))
            (record w { awake = n; queue = record { queue = q; is_shutdown = s } }))
  unfolding pop
  leave-IsAttended [] true n w e same h =
      λ pos. let (items, down) = h pos in (omega arith, rw same at down)
  leave-IsAttended [] false n w e same h = λ pos. (omega arith, inl refl)
  leave-IsAttended (x ∷ q) s n w e same h = λ pos.
      let (items, down) = h pos in
      let length_of : length w.queue.queue ≡ suc (length q) = ap (λ r. length r.queue) same in
      (omega arith, rw same at down)

  test_condition-IsAttended :
      (n : ℕ) (w : Waiters T) → w.awake ≡ n → IsAttended w → IsAttended (test_condition n w)
  test_condition-IsAttended zero w e h = h
  test_condition-IsAttended (suc n) w e h =
      leave-IsAttended w.queue.queue w.queue.is_shutdown n w e refl h

  act-IsAttended : (x : Action T) (w : Waiters T) → IsAttended w → IsAttended (act x w)
  unfolding act push shutdown
  act-IsAttended (pushes_item x) w h = λ pos.
      let (items, down) = h pos in (omega (arith, length-append w.queue.queue (x ∷ [])), down)
  act-IsAttended notifies_one w h = notify_one-IsAttended w.notify_one_due w refl h
  act-IsAttended shuts_down w h = λ pos. ((h pos).0, inr (omega arith))
  act-IsAttended notifies_all w h = notify_all-IsAttended w.notify_all_due w h
  act-IsAttended calls_pop w h = λ pos. let (items, down) = h pos in (omega arith, down)
  act-IsAttended tests w h = test_condition-IsAttended w.awake w refl h
  act-IsAttended wakes w h = wake_one-IsAttended w.asleep w refl h

  act_all-IsAttended :
      (xs : List (Action T)) (w : Waiters T) → IsAttended w → IsAttended (act_all xs w)
  unfolding act_all
  act_all-IsAttended [] w h = h
  act_all-IsAttended (x ∷ xs) w h = act_all-IsAttended xs (act x w) (act-IsAttended x w h)

  leave-in_order :
      (p : List T) (q : List T) (s : Bool) (w : Waiters T)
      → w.queue ≡ record { queue = q; is_shutdown = s }
      → w.returned ++ w.queue.queue ≡ p
      → let w' = leave (pop (record { queue = q; is_shutdown = s })) w in
        w'.returned ++ w'.queue.queue ≡ p
  unfolding pop
  leave-in_order p [] true w same h = h
  leave-in_order p [] false w same h = h
  leave-in_order p (x ∷ q) s w same h =
      append_assoc w.returned (x ∷ []) q ∙ ap (◌++◌ w.returned) (sym (ap (λ r. r.queue) same)) ∙ h

  wake_one-in_order :
      (n : ℕ) (w : Waiters T)
      → (wake_one n w).returned ++ (wake_one n w).queue.queue ≡ w.returned ++ w.queue.queue
  wake_one-in_order zero w = refl
  wake_one-in_order (suc n) w = refl

  notify_one-in_order :
      (due : ℕ) (w : Waiters T)
      → (notify_one due w).returned ++ (notify_one due w).queue.queue ≡ w.returned ++ w.queue.queue
  notify_one-in_order zero w = refl
  notify_one-in_order (suc due) w = wake_one-in_order w.asleep (record w { notify_one_due = due })

  notify_all-in_order :
      (due : ℕ) (w : Waiters T)
      → (notify_all due w).returned ++ (notify_all due w).queue.queue ≡ w.returned ++ w.queue.queue
  notify_all-in_order zero w = refl
  notify_all-in_order (suc due) w = refl

  test_condition-in_order :
      (n : ℕ) (w : Waiters T)
      → (test_condition n w).returned ++ (test_condition n w).queue.queue
        ≡ w.returned ++ w.queue.queue
  test_condition-in_order zero w = refl
  test_condition-in_order (suc n) w =
      leave-in_order (w.returned ++ w.queue.queue) w.queue.queue w.queue.is_shutdown
        (record w { awake = n }) refl refl

  act-in_order :
      (x : Action T) (w : Waiters T)
      → (act x w).returned ++ (act x w).queue.queue
        ≡ (w.returned ++ w.queue.queue) ++ pushed_items (x ∷ [])
  unfolding act push shutdown
  act-in_order (pushes_item x) w = sym (append_assoc w.returned w.queue.queue (x ∷ []))
  act-in_order notifies_one w =
      notify_one-in_order w.notify_one_due w ∙ sym (append-nil (w.returned ++ w.queue.queue))
  act-in_order shuts_down w = sym (append-nil (w.returned ++ w.queue.queue))
  act-in_order notifies_all w =
      notify_all-in_order w.notify_all_due w ∙ sym (append-nil (w.returned ++ w.queue.queue))
  act-in_order calls_pop w = sym (append-nil (w.returned ++ w.queue.queue))
  act-in_order tests w =
      test_condition-in_order w.awake w ∙ sym (append-nil (w.returned ++ w.queue.queue))
  act-in_order wakes w =
      wake_one-in_order w.asleep w ∙ sym (append-nil (w.returned ++ w.queue.queue))

  pushed_items-cons :
      (x : Action T) (xs : List (Action T))
      → pushed_items (x ∷ []) ++ pushed_items xs ≡ pushed_items (x ∷ xs)
  pushed_items-cons (pushes_item x) xs = refl
  pushed_items-cons notifies_one xs = refl
  pushed_items-cons shuts_down xs = refl
  pushed_items-cons notifies_all xs = refl
  pushed_items-cons calls_pop xs = refl
  pushed_items-cons tests xs = refl
  pushed_items-cons wakes xs = refl

  act_all-in_order :
      (xs : List (Action T)) (w : Waiters T)
      → (act_all xs w).returned ++ (act_all xs w).queue.queue
        ≡ (w.returned ++ w.queue.queue) ++ pushed_items xs
  unfolding act_all
  act_all-in_order [] w = sym (append-nil (w.returned ++ w.queue.queue))
  act_all-in_order (x ∷ xs) w =
      act_all-in_order xs (act x w)
      ∙ ap (λ q. q ++ pushed_items xs) (act-in_order x w)
      ∙ append_assoc (w.returned ++ w.queue.queue) (pushed_items (x ∷ [])) (pushed_items xs)
      ∙ ap (◌++◌ (w.returned ++ w.queue.queue)) (pushed_items-cons x xs)

  -- However the steps of producers and consumers interleave, the items that `pop` returned and
  -- those still queued are what was pushed, in order; and either no consumer sleeps in `wait`, or
  -- each queued item has a consumer awake or a `notify_one` to come, and a shutdown has a
  -- `notify_all` to come.
  pub act_all-delivers :
      (xs : List (Action T))
      → let w = act_all xs new_waiters in
        (w.returned ++ w.queue.queue ≡ pushed_items xs) × ((w.asleep ≡ 0) ⊎ IsHeard w)
  act_all-delivers xs =
      (act_all-in_order xs new_waiters, heard (act_all xs new_waiters).asleep refl)
    where
      heard :
          (n : ℕ)
          → (act_all xs new_waiters).asleep ≡ n
          → ((act_all xs new_waiters).asleep ≡ 0) ⊎ IsHeard (act_all xs new_waiters)
      heard zero e = inl e
      heard (suc n) e =
          inr (act_all-IsAttended xs new_waiters (λ pos. absurd (omega arith)) (omega arith))
