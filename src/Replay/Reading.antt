-- ===== src/Replay/Reading.antt =====
-- The two halves of `replayFromStream` of src/replay.cpp apart: what the lines say, and the operations done
-- one after another.
use leviathan_matching_engin.Prelude.{
  ℕ, ◌≡◌, refl, ap, sym, ◌∙◌, Bool-cases, inl, inr, Option, none, some, List, [], ◌∷◌, ◌++◌,
  append-nil, append_assoc, if◌then◌else◌,
}
use mathlib.Core.Option
use leviathan_matching_engin.Price.{Comparator}
use leviathan_matching_engin.Recording.{
  LogEvent, add_event, cancel_event, modify_event, submit_event, trade_event,
}
use leviathan_matching_engin.Text.{Text, codes, same_text, take_until, split_lines}
use leviathan_matching_engin.Log.{
  PriceFormat, order_fields, cancel_fields, modify_fields, trade_fields,
}
use leviathan_matching_engin.Replay.{
  Replaying, new_replaying, perform, perform_read, parse_tagged, parse_line, strip_return,
  replay_lines, compare_trades, replay_from_stream,
}

-- What a line says: nothing, something malformed, with the warning for it, or an operation.
pub data Reading (P : Type 0) : Type 0 where
  ignored : Reading P
  malformed : Text → Reading P
  says : LogEvent P → Reading P

-- A tag with the reader of the fields behind it.
abbrev Entry : Type 0 → Type 0
Entry P = Text × (Text → Option (LogEvent P))

module _ {P : Type 0} (f : PriceFormat P) where
  abbrev entries : List (Entry P)
  entries =
      (
        codes "ADD",
        λ s. Option.map (λ x. add_event x.0.1 x.0.2 x.0.3 x.0.4 x.0.5) (order_fields f s),
      )
      ∷ (codes "CANCEL", λ s. Option.map (λ x. cancel_event x.0.1) (cancel_fields f s))
      ∷ (
        codes "SUBMIT",
        λ s. Option.map (λ x. submit_event x.0.1 x.0.2 x.0.3 x.0.4 x.0.5) (order_fields f s),
      )
      ∷ (codes "MODIFY", λ s. Option.map (λ x. modify_event x.0.1 x.0.2 x.0.3) (modify_fields f s))
      ∷ (
        codes "TRADE",
        λ s. Option.map (λ x. trade_event x.0.1 x.0.2 x.0.3 x.0.4) (trade_fields f s),
      )
      ∷ []

  abbrev reading_of : Text → Text → Option (LogEvent P) → Reading P
  reading_of tag line none =
      malformed (codes "[WARN] Malformed " ++ (tag ++ (codes " line, skipping: " ++ line)))
  reading_of tag line (some e) = says e

  -- The reading by the first entry with the tag.
  abbrev look_up : Text → Text → Text → List (Entry P) → Reading P
  look_up tag rest line [] = ignored
  look_up tag rest line ((t, fields) ∷ more) =
      if same_text tag t then reading_of tag line (fields rest) else look_up tag rest line more

  abbrev pub reading : Text → Reading P
  reading [] = ignored
  reading (c ∷ s) = let (tag, rest) = take_until b',' (c ∷ s) in look_up tag rest (c ∷ s) entries

  abbrev event_onto : Reading P → List (LogEvent P) → List (LogEvent P)
  event_onto ignored es = es
  event_onto (malformed w) es = es
  event_onto (says e) es = e ∷ es

  abbrev warning_onto : Reading P → List Text → List Text
  warning_onto ignored ws = ws
  warning_onto (malformed w) ws = w ∷ ws
  warning_onto (says e) ws = ws

  -- The operations of some lines, and the warnings for them.
  abbrev pub events_of : List Text → List (LogEvent P)
  events_of [] = []
  events_of (line ∷ lines) = event_onto (reading (strip_return line)) (events_of lines)

  abbrev pub warnings_of : List Text → List Text
  warnings_of [] = []
  warnings_of (line ∷ lines) = warning_onto (reading (strip_return line)) (warnings_of lines)

module _ {P : Type 0} (less : Comparator P) where
  abbrev pub perform_all : List (LogEvent P) → Replaying P → Replaying P
  perform_all [] st = st
  perform_all (e ∷ es) st = perform_all es (perform less e st)

  abbrev follow : Reading P → Replaying P → Replaying P
  follow ignored st = st
  follow (malformed w) st = record st { warnings = st.warnings ++ w ∷ [] }
  follow (says e) st = perform less e st

  perform-warnings :
      (e : LogEvent P) (st : Replaying P) (ws : List Text)
      → perform less e (record st { warnings = ws }) ≡ record (perform less e st) { warnings = ws }
  unfolding perform
  perform-warnings (add_event i s p n t) st ws = refl
  perform-warnings (cancel_event i) st ws = refl
  perform-warnings (submit_event i s p n t) st ws = refl
  perform-warnings (modify_event i p n) st ws = refl
  perform-warnings (trade_event i j p n) st ws = refl

  perform-silent : (e : LogEvent P) (st : Replaying P) → (perform less e st).warnings ≡ st.warnings
  unfolding perform
  perform-silent (add_event i s p n t) st = refl
  perform-silent (cancel_event i) st = refl
  perform-silent (submit_event i s p n t) st = refl
  perform-silent (modify_event i p n) st = refl
  perform-silent (trade_event i j p n) st = refl

  perform_all-warnings :
      (es : List (LogEvent P)) (st : Replaying P) (ws : List Text)
      → perform_all es (record st { warnings = ws }) ≡ record (perform_all es st) { warnings = ws }
  perform_all-warnings [] st ws = refl
  perform_all-warnings (e ∷ es) st ws =
      ap (perform_all es) (perform-warnings e st ws)
      ∙ perform_all-warnings es (perform less e st) ws

module _ {P : Type 0} (less : Comparator P) (f : PriceFormat P) where
  perform_read-follow :
      (tag line : Text) (st : Replaying P) (e : Option (LogEvent P))
      → perform_read less tag line st e ≡ follow less (reading_of f tag line e) st
  unfolding perform_read
  perform_read-follow tag line st none = refl
  perform_read-follow tag line st (some e) = refl

  -- The tests of a tag one after another.
  abbrev dispatch : Text → Text → Text → Replaying P → List (Entry P) → Replaying P
  dispatch tag rest line st [] = st
  dispatch tag rest line st ((t, fields) ∷ more) =
      if same_text tag t
      then perform_read less tag line st (fields rest)
      else dispatch tag rest line st more

  dispatch-follow :
      (tag rest line : Text) (st : Replaying P) (table : List (Entry P))
      → dispatch tag rest line st table ≡ follow less (look_up f tag rest line table) st
  dispatch-follow tag rest line st [] = refl
  dispatch-follow tag rest line st ((t, fields) ∷ more) = elim (Bool-cases (same_text tag t)) [
    | inl known ↦ rw known (perform_read-follow tag line st (fields rest))
    | inr other ↦ rw other (dispatch-follow tag rest line st more)
  ]

  parse_line-follow :
      (line : Text) (st : Replaying P) → parse_line less f line st ≡ follow less (reading f line) st
  unfolding parse_line parse_tagged
  parse_line-follow [] st = refl
  parse_line-follow (c ∷ s) st =
      let (tag, rest) = take_until b',' (c ∷ s) in dispatch-follow tag rest (c ∷ s) st (entries f)

  follow-split :
      (r : Reading P) (es : List (LogEvent P)) (ws : List Text) (st : Replaying P)
      → record (perform_all less es (follow less r st)) {
        warnings = (follow less r st).warnings ++ ws;
      }
        ≡ record (perform_all less (event_onto f r es) st) {
          warnings = st.warnings ++ warning_onto f r ws;
        }
  follow-split ignored es ws st = refl
  follow-split (malformed w) es ws st =
      ap (λ (x : Replaying P). record x { warnings = (st.warnings ++ w ∷ []) ++ ws })
        (perform_all-warnings less es st (st.warnings ++ w ∷ []))
      ∙ ap (λ l. record (perform_all less es st) { warnings = l })
          (append_assoc st.warnings (w ∷ []) ws)
  follow-split (says e) es ws st =
      ap (λ l. record (perform_all less es (perform less e st)) { warnings = l ++ ws })
        (perform-silent less e st)

  replay_lines-reads :
      (lines : List Text) (st : Replaying P)
      → replay_lines less f lines st ≡ record (perform_all less (events_of f lines) st) {
        warnings = st.warnings ++ warnings_of f lines;
      }
  unfolding replay_lines
  replay_lines-reads [] st = ap (λ ws. record st { warnings = ws }) (sym (append-nil st.warnings))
  replay_lines-reads (line ∷ lines) st =
      let r = reading f (strip_return line) in
      ap (replay_lines less f lines) (parse_line-follow (strip_return line) st)
      ∙ replay_lines-reads lines (follow less r st)
      ∙ follow-split r (events_of f lines) (warnings_of f lines) st

  -- On any text at all `replayFromStream` does, one after another on a new book, just the
  -- operations of the lines with a known tag and fields that can be read, compares their trades,
  -- and writes just the warnings for the lines with a known tag and fields that cannot be read, in
  -- order; empty lines and unknown tags do nothing.
  pub replay_from_stream-reads :
      (counter : ℕ) (input : Text)
      → let lines = split_lines input in
        replay_from_stream less f counter input ≡ (
          compare_trades less f (perform_all less (events_of f lines) (new_replaying counter)),
          warnings_of f lines,
        )
  unfolding replay_from_stream
  replay_from_stream-reads counter input =
      ap (λ (st : Replaying P). (compare_trades less f st, st.warnings))
        (replay_lines-reads (split_lines input) (new_replaying counter))
