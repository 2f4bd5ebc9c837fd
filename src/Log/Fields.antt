-- ===== src/Log/Fields.antt =====
-- The fields of a log line that src/recording_order_book.cpp wrote, as src/replay.cpp reads them back.
use leviathan_matching_engin.Prelude.{ℕ, ◌≡◌, ◌<◌, refl, ◌∙◌, some, [], ◌∷◌, ◌++◌, append-nil}
use leviathan_matching_engin.Order.{uint64_limit}
use leviathan_matching_engin.Text.{
  Text, Reader, ◌>>=◌, ◌>>◌, print_nat, skip_space, extract_uint64, extract_int, extract_char,
}
use leviathan_matching_engin.Text.Decimal.{extract_uint64-print_nat, extract_int-print_nat}
use leviathan_matching_engin.Log.{
  PriceFormat, IsFaithful, order_text, order_fields, cancel_fields, modify_fields, trade_fields,
}

module _ {A B : Type 0} where
  pub bind_some :
      (m : Reader A) (k : A → Reader B) (s rest : Text) (a : A)
      → m s ≡ some (a, rest)
      → (m >>= k) s ≡ k a rest
  bind_some m k s rest a e = rw (e, ◌>>=◌) refl

module _ {B : Type 0} where
  extract_comma : (k : Reader B) (s : Text) → (extract_char >> k) (b',' ∷ s) ≡ k s
  unfolding extract_char skip_space
  extract_comma k s = refl

  uint64_field :
      (k : ℕ → Reader B) (n : ℕ) (rest : Text)
      → n < uint64_limit
      → (extract_uint64 >>= λ x. extract_char >> k x) (print_nat n ++ (b',' ∷ rest)) ≡ k n rest
  uint64_field k n rest fits =
      bind_some extract_uint64 (λ x. extract_char >> k x) _ (b',' ∷ rest) n
        (extract_uint64-print_nat n (b',' ∷ rest) fits refl)
      ∙ extract_comma (k n) rest

  int_field :
      (k : ℕ → Reader B) (n : ℕ) (rest : Text)
      → n < 256
      → (extract_int >>= λ x. extract_char >> k x) (print_nat n ++ (b',' ∷ rest)) ≡ k n rest
  int_field k n rest fits =
      bind_some extract_int (λ x. extract_char >> k x) _ (b',' ∷ rest) n
        (extract_int-print_nat n (b',' ∷ rest) fits refl)
      ∙ extract_comma (k n) rest

  last_uint64 :
      (k : ℕ → Reader B) (n : ℕ) → n < uint64_limit → (extract_uint64 >>= k) (print_nat n) ≡ k n []
  last_uint64 k n fits =
      bind_some extract_uint64 k _ [] n
        (rw (append-nil (print_nat n)) at (extract_uint64-print_nat n [] fits tt))

  last_int : (k : ℕ → Reader B) (n : ℕ) → n < 256 → (extract_int >>= k) (print_nat n) ≡ k n []
  last_int k n fits =
      bind_some extract_int k _ [] n
        (rw (append-nil (print_nat n)) at (extract_int-print_nat n [] fits tt))

module _ {P B : Type 0} (f : PriceFormat P) (faithful : IsFaithful f) where
  price_field :
      (k : P → Reader B) (p : P) (rest : Text)
      → (f.extract >>= λ x. extract_char >> k x) (f.print p ++ (b',' ∷ rest)) ≡ k p rest
  price_field k p rest =
      bind_some f.extract (λ x. extract_char >> k x) _ (b',' ∷ rest) p
        (faithful.extract_print p (b',' ∷ rest) refl)
      ∙ extract_comma (k p) rest

module _ {P : Type 0} (f : PriceFormat P) (faithful : IsFaithful f) where
  pub order_fields-order_text :
      (seq i side : ℕ) (p : P) (n type : ℕ)
      → seq < uint64_limit
      → i < uint64_limit
      → side < 256
      → n < uint64_limit
      → type < 256
      → order_fields f (order_text f seq i side p n type) ≡ some ((seq, i, side, p, n, type), [])
  unfolding order_fields
  order_fields-order_text seq i side p n type hs hi hside hn ht =
      uint64_field _ seq _ hs
      ∙ uint64_field _ i _ hi
      ∙ int_field _ side _ hside
      ∙ price_field f faithful _ p _
      ∙ uint64_field _ n _ hn
      ∙ last_int _ type ht

  pub cancel_fields_lem :
      (seq i : ℕ)
      → seq < uint64_limit
      → i < uint64_limit
      → cancel_fields f (print_nat seq ++ (b',' ∷ print_nat i)) ≡ some ((seq, i), [])
  unfolding cancel_fields
  cancel_fields_lem seq i hs hi = uint64_field _ seq _ hs ∙ last_uint64 _ i hi

  pub modify_fields_lem :
      (seq i : ℕ) (p : P) (n : ℕ)
      → seq < uint64_limit
      → i < uint64_limit
      → n < uint64_limit
      → modify_fields f
          (print_nat seq ++ (b',' ∷ (print_nat i ++ (b',' ∷ (f.print p ++ (b',' ∷ print_nat n))))))
        ≡ some ((seq, i, p, n), [])
  unfolding modify_fields
  modify_fields_lem seq i p n hs hi hn =
      uint64_field _ seq _ hs
      ∙ uint64_field _ i _ hi
      ∙ price_field f faithful _ p _
      ∙ last_uint64 _ n hn

  pub trade_fields_lem :
      (seq i j : ℕ) (p : P) (n : ℕ)
      → seq < uint64_limit
      → i < uint64_limit
      → j < uint64_limit
      → n < uint64_limit
      → trade_fields f (
          print_nat seq
          ++ (b','
              ∷ (print_nat i
                  ++ (b',' ∷ (print_nat j ++ (b',' ∷ (f.print p ++ (b',' ∷ print_nat n))))))))
        ≡ some ((seq, i, j, p, n), [])
  unfolding trade_fields
  trade_fields_lem seq i j p n hs hi hj hn =
      uint64_field _ seq _ hs
      ∙ uint64_field _ i _ hi
      ∙ uint64_field _ j _ hj
      ∙ price_field f faithful _ p _
      ∙ last_uint64 _ n hn
