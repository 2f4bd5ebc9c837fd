-- ===== src/Replay/Lines.antt =====
-- The lines of a log's text, as the loop of `replayFromStream` in src/replay.cpp sees them.
use leviathan_matching_engin.Prelude.{
  ℕ, zero, suc, ◌+◌, ◌%◌, ◌≡◌, ◌≢◌, refl, ap, ◌∙◌, true, List, [], ◌∷◌, ◌++◌, ◌==◌, arith, All,
  All-append, All-imp, map, Bool-cases, inl, inr,
}
use Prim.Native.Nat.{◌/◌}
use leviathan_matching_engin.Recording.{
  LogEvent, add_event, cancel_event, modify_event, submit_event, trade_event, LogLine,
}
use leviathan_matching_engin.Text.{Text, codes, is_digit, print_digits, print_nat, split_lines}
use leviathan_matching_engin.Log.{PriceFormat, IsFaithful, order_text, event_text, log_text}
use leviathan_matching_engin.Text.Decimal.{Opens, print_nat-Opens}
use leviathan_matching_engin.Replay.{strip_return}

abbrev pub Unbroken : Text → Type 0
Unbroken = All (λ (c : ℕ). c ≢ b'\n')

-- The last byte is there, and is a digit.
abbrev Closes : Text → Type 0
Closes [] = ⊥
Closes (c ∷ []) = is_digit c ≡ true
Closes (c ∷ d ∷ s) = Closes (d ∷ s)

split_line :
    (line rest : Text)
    → Unbroken line
    → split_lines (line ++ (b'\n' ∷ rest)) ≡ line ∷ split_lines rest
unfolding split_lines
split_line [] rest h = refl
split_line (c ∷ s) rest h = ground (arith, split_line s rest h.1)

strip_return-Closes : (s : Text) → Closes s → strip_return s ≡ s
strip_return-Closes [] h = refl
strip_return-Closes (c ∷ []) h = ground arith
strip_return-Closes (c ∷ d ∷ s) h = ap (◌∷◌ c) (strip_return-Closes (d ∷ s) h)

Closes-cons : (c : ℕ) (s : Text) → Closes s → Closes (c ∷ s)
Closes-cons c [] h = absurd h
Closes-cons c (d ∷ s) h = h

Closes-append : (s t : Text) → Closes t → Closes (s ++ t)
Closes-append [] t h = h
Closes-append (c ∷ s) t h = Closes-cons c (s ++ t) (Closes-append s t h)

abbrev Digits : Text → Type 0
Digits = All (λ (c : ℕ). is_digit c ≡ true)

Digits-print_digits : (fuel n : ℕ) (out : Text) → Digits out → Digits (print_digits fuel n out)
unfolding print_digits
Digits-print_digits zero n out h = h
Digits-print_digits (suc fuel) n out h = elim (Bool-cases (n == 0)) [
  | inl e ↦ rw e h
  | inr e ↦ rw e (Digits-print_digits fuel (n / 10) ((b'0' + n % 10) ∷ out) (ground arith, h))
]

Digits-print_nat : (n : ℕ) → Digits (print_nat n)
unfolding print_nat
Digits-print_nat n = elim (Bool-cases (n == 0)) [
  | inl e ↦ rw e (refl, tt)
  | inr e ↦ rw e (Digits-print_digits (suc n) n [] tt)
]

Closes-Digits : (s : Text) → Opens s → Digits s → Closes s
Closes-Digits [] o h = absurd o
Closes-Digits (c ∷ []) o h = h.0
Closes-Digits (c ∷ d ∷ s) o h = Closes-Digits (d ∷ s) h.1.0 h.1

Closes-print_nat : (n : ℕ) → Closes (print_nat n)
Closes-print_nat n = Closes-Digits (print_nat n) (print_nat-Opens n) (Digits-print_nat n)

pub Unbroken-print_nat : (n : ℕ) → Unbroken (print_nat n)
Unbroken-print_nat n =
    All-imp (λ (c : ℕ). is_digit c ≡ true) (λ (c : ℕ). c ≢ b'\n') (print_nat n)
      (λ c h. λ e. absurd (ground arith)) (Digits-print_nat n)

-- The text of one line: no line break in it, and a digit at its end.
record IsLine (s : Text) : Type 0 where
  unbroken : Unbroken s
  closed : Closes s

IsLine-append : (s : Text) {t : Text} → Unbroken s → IsLine t → IsLine (s ++ t)
IsLine-append s {t} h l = record {
  unbroken = All-append (λ (c : ℕ). c ≢ b'\n') s t h l.unbroken;
  closed = Closes-append s t l.closed;
}

IsLine-field : (s : Text) {t : Text} → Unbroken s → IsLine t → IsLine (s ++ (b',' ∷ t))
IsLine-field s {t} h l =
    IsLine-append s h
      (record { unbroken = (omega arith, l.unbroken); closed = Closes-cons b',' t l.closed })

IsLine-number : (n : ℕ) {t : Text} → IsLine t → IsLine (print_nat n ++ (b',' ∷ t))
IsLine-number n l = IsLine-field (print_nat n) (Unbroken-print_nat n) l

IsLine-last : (n : ℕ) → IsLine (print_nat n)
IsLine-last n = record { unbroken = Unbroken-print_nat n; closed = Closes-print_nat n }

module _ {P : Type 0} (f : PriceFormat P) (faithful : IsFaithful f) where
  IsLine-price : (p : P) {t : Text} → IsLine t → IsLine (f.print p ++ (b',' ∷ t))
  IsLine-price p l = IsLine-field (f.print p) (faithful.one_line p) l

  order_text-IsLine : (seq i s : ℕ) (p : P) (n t : ℕ) → IsLine (order_text f seq i s p n t)
  order_text-IsLine seq i s p n t =
      IsLine-number seq
        (IsLine-number i (IsLine-number s (IsLine-price p (IsLine-number n (IsLine-last t)))))

  event_text-IsLine : (seq : ℕ) (e : LogEvent P) → IsLine (event_text f seq e)
  unfolding event_text
  event_text-IsLine seq (add_event i s p n t) =
      IsLine-append (codes "ADD,") (omega arith) (order_text-IsLine seq i s p n t)
  event_text-IsLine seq (cancel_event i) =
      IsLine-append (codes "CANCEL,") (omega arith) (IsLine-number seq (IsLine-last i))
  event_text-IsLine seq (modify_event i p n) =
      IsLine-append (codes "MODIFY,") (omega arith)
        (IsLine-number seq (IsLine-number i (IsLine-price p (IsLine-last n))))
  event_text-IsLine seq (submit_event i s p n t) =
      IsLine-append (codes "SUBMIT,") (omega arith) (order_text-IsLine seq i s p n t)
  event_text-IsLine seq (trade_event i j p n) =
      IsLine-append (codes "TRADE,") (omega arith)
        (IsLine-number seq (IsLine-number i (IsLine-number j (IsLine-price p (IsLine-last n)))))

  pub strip_return-event_text :
      (seq : ℕ) (e : LogEvent P) → strip_return (event_text f seq e) ≡ event_text f seq e
  strip_return-event_text seq e = strip_return-Closes _ (event_text-IsLine seq e).closed

  pub split_lines-log_text :
      (ls : List (LogLine P))
      → split_lines (log_text f ls) ≡ map (λ (l : LogLine P). event_text f l.seq l.event) ls
  unfolding log_text split_lines
  split_lines-log_text [] = refl
  split_lines-log_text (l ∷ ls) =
      split_line (event_text f l.seq l.event) (log_text f ls)
        (event_text-IsLine l.seq l.event).unbroken
      ∙ ap (◌∷◌ (event_text f l.seq l.event)) (split_lines-log_text ls)
