-- ===== src/Pattern.antt =====
-- make-4.4/src/read.c (find_char_unquote, find_percent) and make-4.4/src/function.c (pattern_matches,
-- subst_expand, patsubst_expand_pat, patsubst_expand): patterns with a `%`, and substitution. A
-- pattern that `find_percent` has been through is the text in front of the `%`, and the text behind
-- it if there is one.
pub mod Quotes
pub mod Match
pub mod Subst
pub mod Parts
pub mod Words
use gmake.Prelude.{
  ℕ, zero, suc, ◌+◌, ◌-◌, ◌/◌, ◌%◌, Bool, true, false, not, ◌||◌, ◌&&◌, List, [], ◌∷◌, ◌++◌, Option,
  none, some, Bytes, ltb, leb, ◌==◌, ◌=?◌, if◌then◌else◌, length, get_or, take, drop,
}
use gmake.Text.{is_space, next_token, end_of_token}
use gmake.Text.Output.{Output, start, variable_buffer_output, finish, for_tokens}
use gmake.Words.{strstr}

-- what is left of the text in front of the place found, or of all of it, and the text behind the
-- place
abbrev pub Unquoted : Type 0
Unquoted = Bytes × Option Bytes

unfoldable pub backslashes : ℕ → Bytes
backslashes zero = []
backslashes (suc n) = b'\\' ∷ backslashes n

abbrev pub before : Bytes → Unquoted → Unquoted
before s (t, rest) = (s ++ t, rest)

-- the scan, `n` backslashes behind the last other byte: in front of `stop`, half of them go, and
-- an odd one quotes it
unfoldable pub unquote_from : ℕ → ℕ → Bytes → Unquoted
unfolding backslashes
unquote_from stop n [] = (backslashes n, none)
unquote_from stop n (c ∷ s) =
    let another = unquote_from stop 0 s in
    let more = unquote_from stop (suc n) s in
    if c == stop
    then (if n % 2 == 0
        then (backslashes (n / 2), some s)
        else before (backslashes (n / 2) ++ c ∷ []) another)
    else if c == b'\\'
    then more
    else before (backslashes n ++ c ∷ []) another

unfoldable pub find_char_unquote : Bytes → ℕ → Unquoted
unfolding unquote_from
find_char_unquote string stop = unquote_from stop 0 string

unfoldable pub find_percent : Bytes → Unquoted
unfolding find_char_unquote
find_percent pattern = find_char_unquote pattern b'%'

-- `strneq (a, b, n)`
abbrev pub strneq : Bytes → Bytes → ℕ → Bool
strneq a b n = take n a =? take n b

-- the test with a `%` behind `prefix` and in front of `suffix`
unfoldable pub percent_matches : Bytes → Bytes → Bytes → Bool
percent_matches prefix suffix str =
    if ltb (length str) (length prefix + length suffix) || not (strneq prefix str (length prefix))
    then false
    else suffix =? drop (length str - length suffix) str

unfoldable pub unquoted_matches : Unquoted → Bytes → Bool
unfolding percent_matches
unquoted_matches (whole, none) str = whole =? str
unquoted_matches (prefix, some suffix) str = percent_matches prefix suffix str

-- with `percent` null
unfoldable pub pattern_matches : Bytes → Bytes → Bool
unfolding find_percent unquoted_matches
pattern_matches pattern str = unquoted_matches (find_percent pattern) str

-- the place of the next occurrence
occurrence : Bool → Bytes → Bytes → Option Bytes
occurrence by_word subst t =
    if by_word && length subst == 0 then some (end_of_token (next_token t)) else strstr t subst

-- by words, a place that is no whole word is struck out; `seen` is the text in front of it
struck_out : Bool → Bytes → Bytes → Bool
struck_out by_word seen after =
    by_word
    && ((ltb 0 (length seen) && not (is_space (get_or seen (length seen - 1) 0)))
        || not (length after == 0 || is_space (get_or after 0 0)))

module _ (subst replace : Bytes) (by_word : Bool) where
  -- the `do` loop, `seen` in front of `t`
  unfoldable pub subst_rounds : ℕ → Bytes → Bytes → Bytes → Bytes
  unfolding occurrence struck_out
  subst_rounds zero seen t o = o
  subst_rounds (suc fuel) seen t o = elim (occurrence by_word subst t) [
    | none ↦ variable_buffer_output o t
    | some p ↦
        let skipped = take (length t - length p) t in
        let after = drop (length subst) p in
        let text = if struck_out by_word (seen ++ skipped) after then subst else replace in
        let out = variable_buffer_output (variable_buffer_output o skipped) text in
        elim after [ [] ↦ out | c ∷ s ↦ subst_rounds fuel ((seen ++ skipped) ++ subst) (c ∷ s) out ]
  ]

  -- A round uses up a byte of the text, or is the last.
  unfoldable pub subst_expand : Bytes → Bytes → Bytes
  unfolding subst_rounds
  subst_expand o text =
      let rounds = subst_rounds (suc (length text)) [] text o in
      if length subst == 0 && not by_word
      then variable_buffer_output (variable_buffer_output o text) replace
      else rounds

module _ (prefix suffix : Bytes) where
  -- `*t != *pattern`, the last byte, and the bytes between
  unfoldable pub prefix_fails : Bytes → Bool
  prefix_fails t =
      let n = length prefix in
      ltb 0 n
      && (not (get_or t 0 0 == get_or prefix 0 0)
          || not (get_or t (n - 1) 0 == get_or prefix (n - 1) 0)
          || not (strneq (drop 1 t) (drop 1 prefix) (n - 1)))

  -- the last byte, the first, and the bytes but the last
  unfoldable pub suffix_fails : Bytes → Bool
  suffix_fails t =
      let n = length suffix in
      let len = length t in
      ltb 0 n
      && (not (get_or t (len - 1) 0 == get_or suffix (n - 1) 0)
          || not (get_or t (len - n) 0 == get_or suffix 0 0)
          || not (strneq (drop (len - n) t) suffix (n - 1)))

  -- `fail`
  unfoldable pub fails : Bytes → Bool
  unfolding prefix_fails suffix_fails
  fails t = ltb (length t) (length prefix + length suffix) || prefix_fails t || suffix_fails t

  -- the part of the word that stands for the `%`
  abbrev pub stem : Bytes → Bytes
  stem t = take (length t - (length prefix + length suffix)) (drop (length prefix) t)

  -- the text put out for a word that matches, and the test for a blank behind it
  unfoldable pub replacement : Unquoted → Bytes → Bytes → Bytes
  replacement (whole, none) t o = variable_buffer_output o whole
  replacement (lead, some tail) t o =
      variable_buffer_output (variable_buffer_output (variable_buffer_output o lead) (stem t)) tail

  unfoldable pub spaces : Unquoted → Bytes → Bool
  spaces (whole, none) t = ltb 0 (length whole)
  spaces (lead, some tail) t = ltb 0 (length lead) || ltb 0 (length t + length tail)

  unfoldable pub patsubst_round : Unquoted → Output → Bytes → Output
  unfolding fails replacement spaces
  patsubst_round replace o t =
      let fail = fails t in
      let text =
        if fail then variable_buffer_output o.buffer t else replacement replace t o.buffer in
      if fail || spaces replace t
      then record { buffer = variable_buffer_output text (b' ' ∷ []); doneany = true }
      else record o { buffer = text }

-- the replacement as `replace` and `replace_percent` stand, the `%` included
abbrev pub whole_text : Unquoted → Bytes
whole_text (whole, none) = whole
whole_text (lead, some tail) = lead ++ b'%' ∷ tail

unfoldable pub patsubst_expand_pat : Bytes → Bytes → Unquoted → Unquoted → Bytes
unfolding subst_expand patsubst_round finish
patsubst_expand_pat o text (pattern, none) replace =
    subst_expand pattern (whole_text replace) true o text
patsubst_expand_pat o text (prefix, some suffix) replace =
    finish (for_tokens text (patsubst_round prefix suffix replace) (start o))

unfoldable pub patsubst_expand : Bytes → Bytes → Bytes → Bytes → Bytes
unfolding patsubst_expand_pat find_percent
patsubst_expand o text pattern replace =
    patsubst_expand_pat o text (find_percent pattern) (find_percent replace)
