-- ===== src/Log.antt =====
-- The lines of a log as text: what src/recording_order_book.cpp writes to its stream, in the format of
-- include/event_log.hpp, and what the extractions of src/replay.cpp take from a line. How the streams
-- print and read a `double` is a parameter.
pub mod Fields
use leviathan_matching_engin.Prelude.{
  ℕ, ◌≡◌, ◌≢◌, ◌<◌, Bool, false, Option, none, some, List, [], ◌∷◌, ◌++◌, All,
}
use leviathan_matching_engin.Order.{uint64_limit}
use leviathan_matching_engin.Recording.{
  LogEvent, add_event, cancel_event, modify_event, submit_event, trade_event, LogLine,
}
use leviathan_matching_engin.Text.{
  Text, Reader, ◌>>=◌, ◌>>◌, yield, codes, print_nat, extract_uint64, extract_int, extract_char,
}
use leviathan_matching_engin.Text.Decimal.{IsDelimited}

-- A `double` on the program's streams: `<<` in fixed notation with 6 digits, as `std::to_string` prints
-- too, and in the default notation; `>>`; and the test that two prices are more than 1e-9 apart.
pub record PriceFormat (P : Type 0) : Type 0 where
  pub print : P → Text
  pub show : P → Text
  pub extract : Reader P
  pub far : P → P → Bool

-- The prices are such that `>>` reads back what `<<` printed in fixed notation with 6 digits; they
-- print with no line break; and no price is apart from itself.
pub record IsFaithful {P : Type 0} (f : PriceFormat P) : Type 0 where
  pub extract_print :
      (p : P) (rest : Text) → IsDelimited rest → f.extract (f.print p ++ rest) ≡ some (p, rest)
  pub one_line : (p : P) → All (λ (c : ℕ). c ≢ b'\n') (f.print p)
  pub far_self : (p : P) → f.far p p ≡ false

module _ {P : Type 0} (f : PriceFormat P) where
  -- The fields of an ADD or a SUBMIT line.
  abbrev pub order_text : ℕ → ℕ → ℕ → P → ℕ → ℕ → Text
  order_text seq order_id side price quantity order_type =
      print_nat seq
      ++ (b','
          ∷ (print_nat order_id
              ++ (b','
                  ∷ (print_nat side
                      ++ (b','
                          ∷ (f.print price
                              ++ (b','
                                  ∷ (print_nat quantity ++ (b',' ∷ print_nat order_type)))))))))

  unfoldable pub event_text : ℕ → LogEvent P → Text
  event_text seq (add_event i s p n t) = codes "ADD," ++ order_text seq i s p n t
  event_text seq (cancel_event i) = codes "CANCEL," ++ (print_nat seq ++ (b',' ∷ print_nat i))
  event_text seq (modify_event i p n) =
      codes "MODIFY,"
      ++ (print_nat seq ++ (b',' ∷ (print_nat i ++ (b',' ∷ (f.print p ++ (b',' ∷ print_nat n))))))
  event_text seq (submit_event i s p n t) = codes "SUBMIT," ++ order_text seq i s p n t
  event_text seq (trade_event i j p n) =
      codes "TRADE,"
      ++ (print_nat seq
          ++ (b','
              ∷ (print_nat i
                  ++ (b',' ∷ (print_nat j ++ (b',' ∷ (f.print p ++ (b',' ∷ print_nat n))))))))

  -- What the stream holds after the lines.
  unfoldable pub log_text : List (LogLine P) → Text
  log_text [] = []
  log_text (l ∷ ls) = event_text l.seq l.event ++ (b'\n' ∷ log_text ls)

  -- The extractions from an ADD or a SUBMIT line behind its tag. Whatever character stands between two
  -- fields is taken for the comma.
  unfoldable pub order_fields : Reader (ℕ × ℕ × ℕ × P × ℕ × ℕ)
  order_fields = do
    seq ← extract_uint64
    extract_char
    order_id ← extract_uint64
    extract_char
    side ← extract_int
    extract_char
    price ← f.extract
    extract_char
    quantity ← extract_uint64
    extract_char
    order_type ← extract_int
    yield (seq, order_id, side, price, quantity, order_type)

  unfoldable pub cancel_fields : Reader (ℕ × ℕ)
  cancel_fields = do
    seq ← extract_uint64
    extract_char
    order_id ← extract_uint64
    yield (seq, order_id)

  unfoldable pub modify_fields : Reader (ℕ × ℕ × P × ℕ)
  modify_fields = do
    seq ← extract_uint64
    extract_char
    order_id ← extract_uint64
    extract_char
    new_price ← f.extract
    extract_char
    new_quantity ← extract_uint64
    yield (seq, order_id, new_price, new_quantity)

  unfoldable pub trade_fields : Reader (ℕ × ℕ × ℕ × P × ℕ)
  trade_fields = do
    seq ← extract_uint64
    extract_char
    buy_id ← extract_uint64
    extract_char
    sell_id ← extract_uint64
    extract_char
    price ← f.extract
    extract_char
    quantity ← extract_uint64
    yield (seq, buy_id, sell_id, price, quantity)
