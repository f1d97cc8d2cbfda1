-- ===== src/Numbered.antt =====
-- make-4.4/src/function.c: parse_numeric and func_word. `strtoll` of the C library, base 10, is a
-- parameter.
use gmake.Logic.{strip_whitespace}
use gmake.Prelude.{
  ℕ, zero, suc, ◌-◌, ◌≡◌, refl, ◌∙◌, ap, sym, Bool, false, ◌||◌, List, [], ◌∷◌, ◌++◌, Option, none,
  some, Bytes, ltb, ◌==◌, if◌then◌else◌, length, get_elem?, arith,
}
use gmake.Text.{next_token, tokens}
use gmake.Text.Output.{variable_buffer_output}
use gmake.Words.{func_firstword}
use gmake.Words.Single.{ends_words}

-- a long long
pub data ℤ : Type 0 where
  pos : ℕ → ℤ
  negsuc : ℕ → ℤ

-- what `strtoll (beg, &endp, 10)` returns and sets; `endp` is the rest of the text
pub record Strtoll : Type 0 where
  pub number : ℤ
  pub endp : Bytes
  pub erange : Bool

pub data NumericError : Type 0 where
  empty_value out_of_range not_numeric not_positive : NumericError

pub data Numeric : Type 0 where
  fatal : NumericError → Numeric
  number : ℤ → Numeric

pub data Word : Type 0 where
  fatal : NumericError → Word
  buffer : Bytes → Word

module _ (strtoll : Bytes → Strtoll) where
  -- behind the test for an empty value; `stripped` is the text from `beg` to `end`
  unfoldable pub numeric_from : Bytes → Bytes → Numeric
  numeric_from beg stripped =
      let r = strtoll beg in
      if r.erange
      then fatal out_of_range
      else if length r.endp == length beg || ltb (length beg - length stripped) (length r.endp)
      then fatal not_numeric
      else number r.number

  unfoldable pub parse_numeric : Bytes → Numeric
  unfolding numeric_from
  parse_numeric s = elim (strip_whitespace s) [
    | [] ↦ fatal empty_value
    | c ∷ stripped ↦ numeric_from (next_token s) (c ∷ stripped)
  ]

  -- `while ((p = find_next_token (&end_p, 0)) != 0) if (--i == 0) break;`, with i at least 1
  unfoldable pub counted_word : ℕ → List Bytes → Option Bytes
  counted_word i [] = none
  counted_word i (p ∷ words) =
      let rest = counted_word (i - 1) words in if i - 1 == 0 then some p else rest

  unfoldable pub word_numbered : Bytes → Bytes → Numeric → Word
  unfolding counted_word
  word_numbered o words (fatal e) = fatal e
  word_numbered o words (number (negsuc n)) = fatal not_positive
  word_numbered o words (number (pos zero)) = fatal not_positive
  word_numbered o words (number (pos (suc n))) = elim (counted_word (suc n) (tokens words)) [
    | none ↦ buffer o
    | some p ↦ buffer (variable_buffer_output o p)
  ]

  unfoldable pub func_word : Bytes → Bytes → Bytes → Word
  unfolding parse_numeric word_numbered
  func_word o numeral words = word_numbered o words (parse_numeric numeral)

  counted_word-get_elem? :
      (n : ℕ) (words : List Bytes) → counted_word (suc n) words ≡ get_elem? words n
  unfolding counted_word
  counted_word-get_elem? n [] = refl
  counted_word-get_elem? zero (w ∷ words) = refl
  counted_word-get_elem? (suc n) (w ∷ words) =
      let less : suc (suc n) - 1 ≡ suc n = omega arith in
      let not_zero : (suc n == 0) ≡ false = ground arith in
      rw (less, not_zero) (counted_word-get_elem? n words)

  numbered-none :
      (o words : Bytes) (n : ℕ)
      → get_elem? (tokens words) n ≡ none
      → word_numbered o words (number (pos (suc n))) ≡ buffer o
  unfolding word_numbered
  numbered-none o words n h =
      let found = counted_word-get_elem? n (tokens words) ∙ h in rw (found, word_numbered) refl

  numbered-some :
      (o words w : Bytes) (n : ℕ)
      → get_elem? (tokens words) n ≡ some w
      → word_numbered o words (number (pos (suc n))) ≡ buffer (o ++ w)
  unfolding word_numbered
  numbered-some o words w n h =
      let found = counted_word-get_elem? n (tokens words) ∙ h in rw (found, word_numbered) refl

  numbered-first :
      (o words : Bytes) (ws : List Bytes)
      → tokens words ≡ ws
      → word_numbered o words (number (pos 1)) ≡ buffer (func_firstword o words)
  numbered-first o words [] e =
      numbered-none o words 0 (ap (λ t. get_elem? t 0) e)
      ∙ ap buffer (sym ((ends_words o words).2 e).0)
  numbered-first o words (w ∷ ws) e =
      numbered-some o words w 0 (ap (λ t. get_elem? t 0) e)
      ∙ ap buffer (sym ((ends_words o words).0 w ws e))

  -- The n-th word, from 1, is put out where there is one, and nothing where there is none; the first
  -- is what firstword puts out. A number below 1 ends make.
  pub func_word-nth :
      (o numeral words : Bytes) (n : ℕ)
      → (parse_numeric numeral ≡ number (pos (suc n))
          → (get_elem? (tokens words) n ≡ none → func_word o numeral words ≡ buffer o)
            × ((w : Bytes)
                → get_elem? (tokens words) n ≡ some w
                → func_word o numeral words ≡ buffer (o ++ w)))
        × (parse_numeric numeral ≡ number (pos 1)
            → func_word o numeral words ≡ buffer (func_firstword o words))
        × (parse_numeric numeral ≡ number (pos 0) → func_word o numeral words ≡ fatal not_positive)
        × (parse_numeric numeral ≡ number (negsuc n)
            → func_word o numeral words ≡ fatal not_positive)
  unfolding func_word word_numbered
  func_word-nth o numeral words n = (
    λ e. (
      λ h. ap (word_numbered o words) e ∙ numbered-none o words n h,
      λ w h. ap (word_numbered o words) e ∙ numbered-some o words w n h,
    ),
    λ e. ap (word_numbered o words) e ∙ numbered-first o words (tokens words) refl,
    λ e. ap (word_numbered o words) e,
    λ e. ap (word_numbered o words) e,
  )
