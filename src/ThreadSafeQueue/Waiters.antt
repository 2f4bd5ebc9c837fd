-- ===== src/ThreadSafeQueue/Waiters.antt =====
-- The condition variable of include/thread_safe_queue.hpp, for any number of producers and consumers: the
-- steps of `push`, `pop` and `shutdown` between two acquisitions of the mutex. A notification is
-- sent after the mutex is released, and a consumer may wake without one.
pub mod Delivery
use leviathan_matching_engin.Prelude.{
  ℕ, zero, suc, ◌+◌, ◌≤◌, ◌<◌, ◌≡◌, refl, ap, sym, ◌∙◌, Bool, true, false, ◌⊎◌, inl, inr, List, [],
  ◌∷◌, ◌++◌, arith, length, length-append, append_assoc, append-nil,
}
use leviathan_matching_engin.ThreadSafeQueue.{
  ThreadSafeQueue, Popped, blocked, drained, item, empty_queue, push, pop, shutdown,
}

-- The queue, how many consumers sleep in `wait`, how many are about to take the mutex and test its
-- condition, the calls of `notify_one` and `notify_all` that are still to come, and the items that
-- `pop` has returned.
pub record Waiters (T : Type 0) : Type 0 where
  pub queue : ThreadSafeQueue T
  pub asleep : ℕ
  pub awake : ℕ
  pub notify_one_due : ℕ
  pub notify_all_due : ℕ
  pub returned : List T

-- A step of some thread.
pub data Action (T : Type 0) : Type 0 where
  pushes_item : T → Action T
  notifies_one shuts_down notifies_all calls_pop tests wakes : Action T

module _ {T : Type 0} where
  abbrev pub new_waiters : Waiters T
  new_waiters = record {
    queue = empty_queue;
    asleep = 0;
    awake = 0;
    notify_one_due = 0;
    notify_all_due = 0;
    returned = [];
  }

  -- One sleeping consumer wakes, if there is one.
  abbrev pub wake_one : ℕ → Waiters T → Waiters T
  wake_one zero w = w
  wake_one (suc n) w = record w { asleep = n; awake = suc w.awake }

  abbrev pub notify_one : ℕ → Waiters T → Waiters T
  notify_one zero w = w
  notify_one (suc due) w = wake_one w.asleep (record w { notify_one_due = due })

  abbrev pub notify_all : ℕ → Waiters T → Waiters T
  notify_all zero w = w
  notify_all (suc due) w = record w { notify_all_due = due; awake = w.awake + w.asleep; asleep = 0 }

  -- A consumer goes to sleep, returns nothing, or returns an item.
  abbrev pub leave : Popped T → Waiters T → Waiters T
  leave blocked w = record w { asleep = suc w.asleep }
  leave drained w = w
  leave (item x q) w = record w { queue = q; returned = w.returned ++ x ∷ [] }

  abbrev pub test_condition : ℕ → Waiters T → Waiters T
  test_condition zero w = w
  test_condition (suc n) w = leave (pop w.queue) (record w { awake = n })

  unfoldable pub act : Action T → Waiters T → Waiters T
  act (pushes_item x) w = record w { queue = push x w.queue; notify_one_due = suc w.notify_one_due }
  act notifies_one w = notify_one w.notify_one_due w
  act shuts_down w = record w { queue = shutdown w.queue; notify_all_due = suc w.notify_all_due }
  act notifies_all w = notify_all w.notify_all_due w
  act calls_pop w = record w { awake = suc w.awake }
  act tests w = test_condition w.awake w
  act wakes w = wake_one w.asleep w

  unfoldable pub act_all : List (Action T) → Waiters T → Waiters T
  act_all [] w = w
  act_all (x ∷ xs) w = act_all xs (act x w)

  abbrev pub pushed_items : List (Action T) → List T
  pushed_items [] = []
  pushed_items (pushes_item x ∷ xs) = x ∷ pushed_items xs
  pushed_items (notifies_one ∷ xs) = pushed_items xs
  pushed_items (shuts_down ∷ xs) = pushed_items xs
  pushed_items (notifies_all ∷ xs) = pushed_items xs
  pushed_items (calls_pop ∷ xs) = pushed_items xs
  pushed_items (tests ∷ xs) = pushed_items xs
  pushed_items (wakes ∷ xs) = pushed_items xs

  -- For each item there is a consumer awake or a notification to come, and for a shutdown a
  -- notification of all.
  abbrev pub IsHeard : Waiters T → Type 0
  IsHeard w =
      (length w.queue.queue ≤ w.notify_one_due + w.awake)
      × ((w.queue.is_shutdown ≡ false) ⊎ (0 < w.notify_all_due))
