-- ===== src/Bounds/Calls.antt =====
-- Sequences of calls of the class `OrderBook`, src/order_book.cpp, with arguments within `uint64_t`.
use leviathan_matching_engin.Prelude.{ℕ, ◌<◌, List, [], ◌∷◌, All, All-append}
use leviathan_matching_engin.Price.{Comparator}
use leviathan_matching_engin.Order.{uint64_limit}
use leviathan_matching_engin.Book.{OrderBook}
use leviathan_matching_engin.Recording.Calls.{Call, adds, submits, cancels, modifies, call, calls}
use leviathan_matching_engin.Bounds.{FitsOrder, FitsTrade, FitsBook}
use leviathan_matching_engin.Bounds.Operations.{
  add_order-Fits, cancel_order-Fits, submit_order-Fits, modify_order-Fits,
}

module _ {P : Type 0} where
  -- The arguments of a call are those of a `uint64_t`.
  abbrev pub FitsCall : Call P → Type 0
  FitsCall (adds o) = FitsOrder o
  FitsCall (submits o) = FitsOrder o
  FitsCall (cancels i) = i < uint64_limit
  FitsCall (modifies i p n) = (i < uint64_limit) × (n < uint64_limit)

module _ {P : Type 0} (less : Comparator P) where
  call-Fits :
      (k : ℕ) (b : OrderBook P) (c : Call P)
      → FitsBook b
      → FitsCall c
      → FitsBook (call less k b c).0 × All FitsTrade (call less k b c).1
  call-Fits k b (adds o) hb hc = (add_order-Fits less b o hb hc, tt)
  call-Fits k b (cancels i) hb hc = (cancel_order-Fits less b i hb, tt)
  call-Fits k b (submits o) hb hc = submit_order-Fits less b o hb hc
  call-Fits k b (modifies i p n) hb hc = modify_order-Fits less k b i p n hb hc.0 hc.1

  -- If the ids and quantities of a book and of some calls are below 2^64, so are those of the book
  -- after the calls and of all trades.
  pub calls-Fits :
      (k : ℕ) (b : OrderBook P) (cs : List (Call P))
      → FitsBook b
      → All FitsCall cs
      → FitsBook (calls less k b cs).0 × All FitsTrade (calls less k b cs).1
  calls-Fits k b [] hb hc = (hb, tt)
  calls-Fits k b (c ∷ cs) hb hc =
      let (b', trades, k') = call less k b c in
      let (here, fills) = call-Fits k b c hb hc.0 in
      let (there, later) = calls-Fits k' b' cs here hc.1 in
      (there, All-append FitsTrade trades (calls less k' b' cs).1 fills later)
