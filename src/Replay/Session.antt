-- ===== src/Replay/Session.antt =====
-- The calls of src/recording_order_book.cpp, done again by src/replay.cpp with other timestamps.
use leviathan_matching_engin.Prelude.{
  ℕ, ◌≡◌, refl, ap, sym, ◌∙◌, Option, none, some, List, [], ◌∷◌, ◌++◌, map, append_assoc,
  append-nil,
}
use mathlib.Core.Option
use leviathan_matching_engin.Price.{Comparator}
use leviathan_matching_engin.Order.{
  Side, buy, sell, OrderType, limit, market, ioc, fok, Order, Trade, make_order,
}
use leviathan_matching_engin.Book.{OrderBook}
use leviathan_matching_engin.Operations.{modify_order}
use leviathan_matching_engin.Recording.{side_code, type_code}
use leviathan_matching_engin.Recording.Calls.{
  Call, adds, submits, cancels, modifies, trades_of, request, call, calls,
}
use leviathan_matching_engin.Untimed.{
  untimed_order, untimed_book, untimed_trades, untimed_trades-append,
}
use leviathan_matching_engin.Untimed.Operations.{
  add_order-same, cancel_order-same, submit_order-same,
}
use leviathan_matching_engin.Untimed.Modify.{modify_order-same}
use leviathan_matching_engin.Replay.{Replaying, side_of_int, type_of_int, append_result, perform}
use leviathan_matching_engin.Replay.Events.{perform_request, perform_requests}

side_of_int-side_code : (s : Side) → side_of_int (side_code s) ≡ s
side_of_int-side_code buy = refl
side_of_int-side_code sell = refl

type_of_int-type_code : (t : OrderType) → type_of_int (type_code t) ≡ t
type_of_int-type_code limit = refl
type_of_int-type_code market = refl
type_of_int-type_code ioc = refl
type_of_int-type_code fok = refl

module _ {P : Type 0} where
  -- An order that is made again from its line is the order, but for its timestamp.
  remade_order :
      (k : ℕ) (o : Order P)
      → untimed_order
          (make_order k o.id
            (side_of_int (side_code o.side))
            o.price
            o.quantity
            (type_of_int (type_code o.type))).0
        ≡ untimed_order o
  remade_order k o = λ i. record o {
    side = side_of_int-side_code o.side i;
    type = type_of_int-type_code o.type i;
    timestamp = 0;
  }

  -- A replay has reached the book and the trades, but for timestamps, with no warning.
  pub record Reaches (b : OrderBook P) (ts : List (Trade P)) (st : Replaying P) : Type 0 where
    pub book : untimed_book st.book ≡ untimed_book b
    pub trades : untimed_trades st.replayed_trades ≡ untimed_trades ts
    pub silent : st.warnings ≡ []

  untimed_trades-same :
      (xs ys zs ws : List (Trade P))
      → untimed_trades xs ≡ untimed_trades ys
      → untimed_trades zs ≡ untimed_trades ws
      → untimed_trades (xs ++ zs) ≡ untimed_trades (ys ++ ws)
  untimed_trades-same xs ys zs ws h k =
      untimed_trades-append xs zs ∙ (λ i. h i ++ k i) ∙ sym (untimed_trades-append ys ws)

  append_result-trades_of :
      (xs : List (Trade P)) (r : Option (List (Trade P))) → append_result xs r ≡ xs ++ trades_of r
  append_result-trades_of xs none = sym (append-nil xs)
  append_result-trades_of xs (some ts) = refl

  untimed_trades-trades_of :
      (r : Option (List (Trade P)))
      → untimed_trades (trades_of r) ≡ trades_of (Option.map untimed_trades r)
  untimed_trades-trades_of none = refl
  untimed_trades-trades_of (some ts) = refl

module _ {P : Type 0} (less : Comparator P) where
  replay_call :
      (k : ℕ) (b : OrderBook P) (ts : List (Trade P)) (st : Replaying P) (c : Call P)
      → Reaches b ts st
      → Reaches
          (call less k b c).0
          (ts ++ (call less k b c).1)
          (perform_request less (request (λ (p : P). p) c) st)
  unfolding perform
  replay_call k b ts st (adds o) h = record {
    book = add_order-same less st.book b _ o h.book (remade_order st.counter o);
    trades = h.trades ∙ ap untimed_trades (sym (append-nil ts));
    silent = h.silent;
  }
  replay_call k b ts st (cancels i) h = record {
    book = (cancel_order-same less st.book b i h.book).0;
    trades = h.trades ∙ ap untimed_trades (sym (append-nil ts));
    silent = h.silent;
  }
  replay_call k b ts st (submits o) h =
      let same = submit_order-same less st.book b _ o h.book (remade_order st.counter o) in
      record {
        book = λ i. (same i).0;
        trades = untimed_trades-same st.replayed_trades ts _ _ h.trades (λ i. (same i).1);
        silent = h.silent;
      }
  replay_call k b ts st (modifies i p n) h =
      let same = modify_order-same less st.counter k st.book b i p n h.book in
      let result = (modify_order less st.counter st.book i p n).1 in
      record {
        book = λ j. (same j).0;
        trades =
            ap untimed_trades (append_result-trades_of st.replayed_trades result)
            ∙ untimed_trades-same st.replayed_trades ts (trades_of result) _ h.trades (
                untimed_trades-trades_of result
                ∙ (λ j. trades_of (same j).1)
                ∙ sym (untimed_trades-trades_of (modify_order less k b i p n).1));
        silent = h.silent;
      }

  pub replay_calls :
      (k : ℕ) (b : OrderBook P) (ts : List (Trade P)) (st : Replaying P) (cs : List (Call P))
      → Reaches b ts st
      → Reaches
          (calls less k b cs).0
          (ts ++ (calls less k b cs).1)
          (perform_requests less (map (request (λ (p : P). p)) cs) st)
  replay_calls k b ts st [] h = rw (append-nil ts) h
  replay_calls k b ts st (c ∷ cs) h =
      let (b', trades, k') = call less k b c in
      rw (sym (append_assoc ts trades (calls less k' b' cs).1))
        (replay_calls k' b' (ts ++ trades) _ cs (replay_call k b ts st c h))
