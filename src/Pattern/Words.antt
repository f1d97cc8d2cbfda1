-- ===== src/Pattern/Words.antt =====
-- What patsubst_expand_pat of make-4.4/src/function.c makes of the words of a text.
use gmake.Pattern.{
  Unquoted, percent_matches, fails, stem, replacement, spaces, patsubst_round, patsubst_expand_pat,
}
use gmake.Pattern.Parts.{percent_part, percent_part-stem}
use gmake.Pattern.Subst.{fails-matches}
use gmake.Prelude.{
  ℕ, zero, suc, ◌+◌, ◌-◌, ◌≡◌, refl, ◌∙◌, ap, sym, Bool, true, false, ◌||◌, List, [], ◌∷◌, ◌++◌,
  append_assoc, append-nil, Option, none, some, Bytes, ltb, arith, inl, inr, Bool-cases,
  Option-cases, length, take, drop, if◌then◌else◌, All,
}
use gmake.Text.{tokens}
use gmake.Text.Output.{Output, put, finish-foldl}
use gmake.Text.Tokens.{IsWord, tokens-IsWord, join}
use mathlib.Core.List.{filter_map}

-- the replacement of a stem: no word at all for an empty text with no `%`
abbrev pub filled_in : Unquoted → Bytes → Option Bytes
filled_in ([], none) s = none
filled_in (c ∷ whole, none) s = some (c ∷ whole)
filled_in (lead, some tail) s = some (lead ++ s ++ tail)

-- a word that matches is replaced, another one is kept
abbrev by_stem : Bytes → Bytes → Unquoted → Bytes → Option Bytes
by_stem prefix suffix replace w =
    if percent_matches prefix suffix w then filled_in replace (stem prefix suffix w) else some w

abbrev pub or_kept : Unquoted → Bytes → Option Bytes → Option Bytes
or_kept replace w none = some w
or_kept replace w (some s) = filled_in replace s

-- the same by the part of the word between the text in front of the `%` and the text behind it
abbrev pub substituted : Bytes → Bytes → Unquoted → Bytes → Option Bytes
substituted prefix suffix replace w = or_kept replace w (percent_part prefix suffix w)

or_kept-if :
    (replace : Unquoted) (w s : Bytes) (b : Bool)
    → or_kept replace w (if b then some s else none) ≡ (if b then filled_in replace s else some w)
or_kept-if replace w s true = refl
or_kept-if replace w s false = refl

by_stem-substituted :
    (prefix suffix : Bytes) (replace : Unquoted) (w : Bytes)
    → by_stem prefix suffix replace w ≡ substituted prefix suffix replace w
by_stem-substituted prefix suffix replace w = sym (
    ap (or_kept replace w) (percent_part-stem prefix suffix w)
    ∙ or_kept-if replace w (stem prefix suffix w) (percent_matches prefix suffix w))

empty_take : (n : ℕ) → take {A = ℕ} n [] ≡ []
empty_take zero = refl
empty_take (suc n) = refl

empty_drop : (n : ℕ) → drop {A = ℕ} n [] ≡ []
empty_drop zero = refl
empty_drop (suc n) = refl

empty_stem : (prefix suffix : Bytes) → stem prefix suffix [] ≡ []
empty_stem prefix suffix =
    ap (take (0 - (length prefix + length suffix))) (empty_drop (length prefix)) ∙ empty_take _

module _ (prefix suffix : Bytes) where
  -- a round, the blank left out for a word that is empty with all of its replacement
  piece : Unquoted → Bytes → Option Bytes
  piece (whole, none) w =
      if fails prefix suffix w then some w else if ltb 0 (length whole) then some whole else none
  piece (lead, some tail) w =
      if fails prefix suffix w
      then some w
      else if ltb 0 (length lead) || ltb 0 (length w + length tail)
      then some (lead ++ stem prefix suffix w ++ tail)
      else none

  round-put_whole :
      (whole : Bytes) (o : Output) (w : Bytes)
      → patsubst_round prefix suffix (whole, none) o w ≡ put o (piece (whole, none) w)
  unfolding patsubst_round replacement spaces piece
  round-put_whole [] o w = elim (Bool-cases (fails prefix suffix w)) [
    | inl e ↦ rw e refl
    | inr e ↦ rw e (ap (λ t. record { buffer = t; doneany = o.doneany }) (append-nil o.buffer))
  ]
  round-put_whole (c ∷ whole) o w =
      let filled : ltb 0 (suc (length whole)) ≡ true = ground arith in
      elim (Bool-cases (fails prefix suffix w)) [ inl e ↦ rw e refl | inr e ↦ rw (e, filled) refl ]

  nothing_out :
      (o lead w tail : Bytes)
      → length lead + (length w + length tail) ≡ 0
      → ((o ++ lead) ++ stem prefix suffix w) ++ tail ≡ o
  nothing_out o [] [] [] h =
      append-nil _
      ∙ ap (λ t. (o ++ []) ++ t) (empty_stem prefix suffix)
      ∙ append-nil _
      ∙ append-nil o
  nothing_out o (c ∷ lead) w tail h = absurd (omega arith)
  nothing_out o [] (c ∷ w) tail h = absurd (omega arith)
  nothing_out o [] [] (c ∷ tail) h = absurd (omega arith)

  round-put :
      (replace : Unquoted) (o : Output) (w : Bytes)
      → patsubst_round prefix suffix replace o w ≡ put o (piece replace w)
  unfolding patsubst_round replacement spaces piece
  round-put (whole, none) o w = round-put_whole whole o w
  round-put (lead, some tail) o w = elim (Bool-cases (fails prefix suffix w)) [
    | inl e ↦ rw e refl
    | inr e ↦ elim (Bool-cases (ltb 0 (length lead) || ltb 0 (length w + length tail))) [
      | inl d ↦
          rw (e, d)
            (ap (λ t. record { buffer = t ++ b' ' ∷ []; doneany = true }) (simp append_assoc))
      | inr d ↦
          rw (e, d)
            (ap (λ t. record { buffer = t; doneany = o.doneany })
              (nothing_out o.buffer lead w tail (ground arith)))
    ]
  ]

  piece-by_stem :
      (replace : Unquoted) (w : Bytes)
      → IsWord w
      → piece replace w ≡ by_stem prefix suffix replace w
  unfolding piece
  piece-by_stem ([], none) w h = rw (fails-matches prefix suffix w) (ground arith)
  piece-by_stem (c ∷ whole, none) w h = rw (fails-matches prefix suffix w) (ground arith)
  piece-by_stem (lead, some tail) [] h = absurd (h.filled refl)
  piece-by_stem (lead, some tail) (c ∷ w) h =
      let some_blank : ltb 0 (length lead) || ltb 0 (suc (length w) + length tail) ≡ true =
        ground arith in
      rw (fails-matches prefix suffix (c ∷ w), some_blank) (ground arith)

filter_map-same :
    (f g : Bytes → Option Bytes) (ws : List Bytes)
    → All IsWord ws
    → ((w : Bytes) → IsWord w → f w ≡ g w)
    → filter_map f ws ≡ filter_map g ws
unfolding filter_map
filter_map-same f g [] _ h = refl
filter_map-same f g (w ∷ ws) (hw, hs) h =
    let same = h w hw in
    let rest = filter_map-same f g ws hs h in
    elim (Option-cases (g w)) [
      | inl e ↦ rw (same, e, filter_map) rest
      | inr (x, e) ↦ rw (same, e, filter_map) (ap (λ t. x ∷ t) rest)
    ]

-- The words that begin with the text in front of the `%` of a pattern and end, behind that, with the text
-- behind it are replaced one by one: the part of the word between the two takes the place of the `%` of the
-- replacement. The others are kept, and the words are put out with one blank between neighbours. A word whose
-- replacement has no `%` and is empty is dropped with its blank; one whose replacement has a `%` keeps its blank when
-- it comes out empty.
pub patsubst_expand_pat-words :
    (o text prefix suffix : Bytes) (replace : Unquoted)
    → patsubst_expand_pat o text (prefix, some suffix) replace
      ≡ o ++ join (filter_map (substituted prefix suffix replace) (tokens text))
unfolding patsubst_expand_pat
patsubst_expand_pat-words o text prefix suffix replace =
    finish-foldl (piece prefix suffix replace) (patsubst_round prefix suffix replace)
      (round-put prefix suffix replace) (tokens text) o
    ∙ ap (λ ws. o ++ join ws)
        (filter_map-same _ _ (tokens text) (tokens-IsWord text) (λ w word.
          piece-by_stem prefix suffix replace w word ∙ by_stem-substituted prefix suffix replace w))
