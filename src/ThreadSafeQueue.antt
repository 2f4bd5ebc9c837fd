-- ===== src/ThreadSafeQueue.antt =====
-- The class `ThreadSafeQueue` of include/thread_safe_queue.hpp. Its mutex makes each operation one
-- step; the condition variable shows as the result `blocked` of a pop that has to wait.
pub mod Waiters
use leviathan_matching_engin.Prelude.{Bool, true, false, List, [], ◌∷◌, ◌++◌}

pub record ThreadSafeQueue (T : Type 0) : Type 0 where
  pub queue : List T
  pub is_shutdown : Bool

-- What a call of `pop` does: it waits, returns `std::nullopt`, or returns an item.
pub data Popped (T : Type 0) : Type 0 where
  blocked : Popped T
  drained : Popped T
  item : T → ThreadSafeQueue T → Popped T

module _ {T : Type 0} where
  abbrev pub empty_queue : ThreadSafeQueue T
  empty_queue = record { queue = []; is_shutdown = false }

  unfoldable pub push : T → ThreadSafeQueue T → ThreadSafeQueue T
  push x q = record q { queue = q.queue ++ x ∷ [] }

  unfoldable pub shutdown : ThreadSafeQueue T → ThreadSafeQueue T
  shutdown q = record q { is_shutdown = true }

  abbrev pub pop_front : List T → Bool → Popped T
  pop_front [] true = drained
  pop_front [] false = blocked
  pop_front (x ∷ rest) s = item x (record { queue = rest; is_shutdown = s })

  unfoldable pub pop : ThreadSafeQueue T → Popped T
  pop q = pop_front q.queue q.is_shutdown
