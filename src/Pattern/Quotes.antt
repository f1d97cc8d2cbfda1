-- ===== src/Pattern/Quotes.antt =====
-- The quoting that find_char_unquote of make-4.4/src/read.c takes away.
use gmake.Pattern.{Unquoted, backslashes, before, unquote_from, find_char_unquote}
use gmake.Prelude.{
  ℕ, zero, suc, ◌+◌, ◌*◌, ◌/◌, ◌%◌, ◌≡◌, ◌≢◌, refl, ◌∙◌, ap, sym, true, false, ◌∷◌, [], ◌++◌, none,
  some, Bytes, ◌==◌, ==_refl, arith, inl, inr, Bool-cases, append_assoc, append-nil, if◌then◌else◌,
}

-- A text with `stop` quoted: the backslashes in front of each are doubled, and one more added; those
-- in front of the end become `last` of them.
module _ (stop : ℕ) (last : ℕ → ℕ) where
  unfoldable pub quote_from : ℕ → Bytes → Bytes
  quote_from n [] = backslashes (last n)
  quote_from n (c ∷ s) =
      let another = quote_from 0 s in
      let more = quote_from (suc n) s in
      if c == stop
      then backslashes (suc (n * 2)) ++ c ∷ another
      else if c == b'\\'
      then more
      else backslashes n ++ c ∷ another

unquote_once :
    (stop n : ℕ) (s : Bytes)
    → stop ≢ b'\\'
    → unquote_from stop n (b'\\' ∷ s) ≡ unquote_from stop (suc n) s
unfolding unquote_from
unquote_once stop n s h = ground arith

unquote_odd :
    (stop k : ℕ) (s : Bytes)
    → (k % 2 == 0) ≡ false
    → unquote_from stop k (stop ∷ s)
      ≡ before (backslashes (k / 2) ++ stop ∷ []) (unquote_from stop 0 s)
unfolding unquote_from
unquote_odd stop k s h = rw (==_refl stop, h) refl

unquote_even :
    (stop k : ℕ) (s : Bytes)
    → (k % 2 == 0) ≡ true
    → unquote_from stop k (stop ∷ s) ≡ (backslashes (k / 2), some s)
unfolding unquote_from
unquote_even stop k s h = rw (==_refl stop, h) refl

half_odd : (n : ℕ) → suc (n * 2) / 2 ≡ n
half_odd n = omega arith

odd : (n : ℕ) → (suc (n * 2) % 2 == 0) ≡ false
odd n = ground arith

half_even : (n : ℕ) → (n * 2) / 2 ≡ n
half_even n = omega arith

even : (n : ℕ) → (n * 2 % 2 == 0) ≡ true
even n = ground arith

unquote_other :
    (stop n c : ℕ) (s : Bytes)
    → (c == stop) ≡ false
    → (c == b'\\') ≡ false
    → unquote_from stop n (c ∷ s) ≡ before (backslashes n ++ c ∷ []) (unquote_from stop 0 s)
unfolding unquote_from
unquote_other stop n c s h k = rw (h, k) refl

-- the scan counts the backslashes that it meets
unquote-backslashes :
    (stop n m : ℕ) (s : Bytes)
    → stop ≢ b'\\'
    → unquote_from stop n (backslashes m ++ s) ≡ unquote_from stop (m + n) s
unfolding backslashes
unquote-backslashes stop n zero s h = ap (λ k. unquote_from stop k s) (omega arith)
unquote-backslashes stop n (suc m) s h =
    unquote_once stop n (backslashes m ++ s) h
    ∙ unquote-backslashes stop (suc n) m s h
    ∙ ap (λ k. unquote_from stop k s) (omega arith)

before-before : (s t : Bytes) (u : Unquoted) → before s (before t u) ≡ before (s ++ t) u
before-before s t (v, r) = ap (λ w. (w, r)) (sym (append_assoc s t v))

byte_eq : (a b : ℕ) → (a == b) ≡ true → a ≡ b
byte_eq a b h = ground arith

read_stop :
    (stop n c : ℕ) (q rest : Bytes)
    → stop ≢ b'\\'
    → c ≡ stop
    → unquote_from stop 0 ((backslashes (suc (n * 2)) ++ c ∷ q) ++ rest)
      ≡ before (backslashes n ++ c ∷ []) (unquote_from stop 0 (q ++ rest))
read_stop stop n c q rest h e =
    ap (unquote_from stop 0) (
      ap (λ d. (backslashes (suc (n * 2)) ++ d ∷ q) ++ rest) e
      ∙ append_assoc (backslashes (suc (n * 2))) (stop ∷ q) rest)
    ∙ unquote-backslashes stop 0 (suc (n * 2)) (stop ∷ (q ++ rest)) h
    ∙ ap (λ k. unquote_from stop k (stop ∷ (q ++ rest))) (omega arith)
    ∙ unquote_odd stop (suc (n * 2)) (q ++ rest) (odd n)
    ∙ ap (λ k. before (backslashes k ++ stop ∷ []) (unquote_from stop 0 (q ++ rest))) (half_odd n)
    ∙ ap (λ d. before (backslashes n ++ d ∷ []) (unquote_from stop 0 (q ++ rest))) (sym e)

read_other :
    (stop n c : ℕ) (q rest : Bytes)
    → stop ≢ b'\\'
    → (c == stop) ≡ false
    → (c == b'\\') ≡ false
    → unquote_from stop 0 ((backslashes n ++ c ∷ q) ++ rest)
      ≡ before (backslashes n ++ c ∷ []) (unquote_from stop 0 (q ++ rest))
read_other stop n c q rest h e d =
    ap (unquote_from stop 0) (append_assoc (backslashes n) (c ∷ q) rest)
    ∙ unquote-backslashes stop 0 n (c ∷ (q ++ rest)) h
    ∙ ap (λ k. unquote_from stop k (c ∷ (q ++ rest))) (omega arith)
    ∙ unquote_other stop n c (q ++ rest) e d

backslashes_snoc : (n : ℕ) (s : Bytes) → backslashes (suc n) ++ s ≡ backslashes n ++ b'\\' ∷ s
unfolding backslashes
backslashes_snoc zero s = refl
backslashes_snoc (suc n) s = ap (λ t. b'\\' ∷ t) (backslashes_snoc n s)

module _ (stop : ℕ) (other : stop ≢ b'\\') (last : ℕ → ℕ) (rest : Bytes) (found : Unquoted) where
  onto :
      (n c : ℕ) (s : Bytes)
      → before (backslashes n ++ c ∷ []) (before (backslashes 0 ++ s) found)
        ≡ before (backslashes n ++ c ∷ s) found
  unfolding backslashes
  onto n c s =
      before-before (backslashes n ++ c ∷ []) s found
      ∙ ap (λ t. before t found) (append_assoc (backslashes n) (c ∷ []) s)

  -- With a way to read what stands behind the text, the quoted text is read as the text.
  unquote-quote :
      ((n : ℕ) → unquote_from stop (last n) rest ≡ before (backslashes n) found)
      → (n : ℕ) (s : Bytes)
      → unquote_from stop 0 (quote_from stop last n s ++ rest) ≡ before (backslashes n ++ s) found
  unfolding quote_from
  unquote-quote ends n [] =
      unquote-backslashes stop 0 (last n) rest other
      ∙ ap (λ k. unquote_from stop k rest) (omega arith)
      ∙ ends n
      ∙ ap (λ t. before t found) (sym (append-nil (backslashes n)))
  unquote-quote ends n (c ∷ s) =
      let ih = unquote-quote ends 0 s in
      elim (Bool-cases (c == stop)) [
        | inl e ↦ rw e (
            read_stop stop n c (quote_from stop last 0 s) rest other (ground arith)
            ∙ ap (before (backslashes n ++ c ∷ [])) ih
            ∙ onto n c s)
        | inr e ↦ elim (Bool-cases (c == b'\\')) [
          | inl d ↦
              rw (e, d)
                (unquote-quote ends (suc n) s
                  ∙ ap (λ t. before t found)
                      (backslashes_snoc n s
                        ∙ ap (λ x. backslashes n ++ x ∷ s) (sym (byte_eq c b'\\' d))))
          | inr d ↦
              rw (e, d)
                (read_other stop n c (quote_from stop last 0 s) rest other e d
                  ∙ ap (before (backslashes n ++ c ∷ [])) ih
                  ∙ onto n c s)
        ]
      ]

-- If `stop` is no backslash: a text that is quoted has no unquoted `stop`, and is read back; one that is quoted to its last
-- backslash, with `stop` and another text behind it, is read back, `stop` is found behind it, and
-- what is behind that is left alone.
pub find_char_unquote-quote :
    (stop : ℕ) (s rest : Bytes)
    → stop ≢ b'\\'
    → (find_char_unquote (quote_from stop (λ n. n) 0 s) stop ≡ (s, none))
      × (find_char_unquote (quote_from stop (λ n. n * 2) 0 s ++ stop ∷ rest) stop ≡ (s, some rest))
unfolding find_char_unquote backslashes unquote_from
find_char_unquote-quote stop s rest h = (
  ap (unquote_from stop 0) (sym (append-nil (quote_from stop (λ n. n) 0 s)))
      ∙ unquote-quote stop h (λ n. n) [] ([], none)
          (λ n. ap (λ t. (t, none)) (sym (append-nil (backslashes n)))) 0 s
      ∙ ap (λ t. (t, none)) (append-nil s),
  unquote-quote stop h (λ n. n * 2) (stop ∷ rest) ([], some rest)
        (λ n.
          unquote_even stop (n * 2) rest (even n)
          ∙ ap (λ k. (backslashes k, some rest)) (half_even n)
          ∙ ap (λ t. (t, some rest)) (sym (append-nil (backslashes n))))
        0 s
      ∙ ap (λ t. (t, some rest)) (append-nil s),
)
