-- ===== src/Pattern/Parts.antt =====
-- The text that stands for the `%` of a pattern: the word without the text in front of the `%` and the text behind it.
use gmake.Hash.Rounds.{some_inj}
use gmake.Pattern.{percent_matches, stem}
use gmake.Pattern.Match.{Matches, percent_matches_sound, percent_matches_complete}
use gmake.Prelude.{
  ℕ, ◌+◌, ◌-◌, ◌<◌, ◌≡◌, refl, ◌∙◌, ap, sym, inl, inr, true, false, [], ◌∷◌, ◌++◌, append_assoc,
  Option, none, some, Bytes, ◌==◌, ◌=?◌, =?_refl, =?_sound, if◌then◌else◌, arith, length,
  length-append, take, drop, take-append_self, drop-append_self, Bool-cases, Option-cases,
}

-- what is behind a prefix, if the text begins with it
unfoldable pub strip_prefix : Bytes → Bytes → Option Bytes
strip_prefix [] t = some t
strip_prefix (c ∷ prefix) [] = none
strip_prefix (c ∷ prefix) (d ∷ t) =
    let rest = strip_prefix prefix t in if c == d then rest else none

abbrev pub in_front : ℕ → Option Bytes → Option Bytes
in_front c none = none
in_front c (some s) = some (c ∷ s)

-- what is in front of a suffix, if the text ends with it
unfoldable pub cut_suffix : Bytes → Bytes → Option Bytes
cut_suffix suffix [] = if suffix =? [] then some [] else none
cut_suffix suffix (c ∷ t) =
    let rest = cut_suffix suffix t in if suffix =? (c ∷ t) then some [] else in_front c rest

abbrev pub cut_rest : Bytes → Option Bytes → Option Bytes
cut_rest suffix none = none
cut_rest suffix (some t) = cut_suffix suffix t

abbrev pub percent_part : Bytes → Bytes → Bytes → Option Bytes
percent_part prefix suffix w = cut_rest suffix (strip_prefix prefix w)

strip_prefix-append : (prefix t : Bytes) → strip_prefix prefix (prefix ++ t) ≡ some t
unfolding strip_prefix
strip_prefix-append [] t = refl
strip_prefix-append (c ∷ prefix) t =
    let equal : (c == c) ≡ true = ground arith in
    rw (equal, strip_prefix) (strip_prefix-append prefix t)

strip_prefix-some : (prefix w t : Bytes) → strip_prefix prefix w ≡ some t → w ≡ prefix ++ t
unfolding strip_prefix
strip_prefix-some [] w t e = some_inj e
strip_prefix-some (c ∷ prefix) [] t e = cc
strip_prefix-some (c ∷ prefix) (d ∷ w) t e = elim (Bool-cases (c == d)) [
  | inl g ↦
      let equal : d ≡ c = ground arith in
      let rest = strip_prefix-some prefix w t (rw g at e) in
      ap (λ x. x ∷ w) equal ∙ ap (λ r. c ∷ r) rest
  | inr g ↦ let lost = rw g at e in cc
]

longer_other : (x y : Bytes) → length x < length y → (x =? y) ≡ false
longer_other x y low = elim (Bool-cases (x =? y)) [
  | inl e ↦ let size = ap length (=?_sound x y e) in absurd (omega arith)
  | inr e ↦ e
]

cut_suffix-append : (s suffix : Bytes) → cut_suffix suffix (s ++ suffix) ≡ some s
unfolding cut_suffix
cut_suffix-append [] [] = refl
cut_suffix-append [] (c ∷ suffix) = rw (=?_refl (c ∷ suffix), cut_suffix) refl
cut_suffix-append (c ∷ s) suffix =
    let size = length-append s suffix in
    let other = longer_other suffix (c ∷ (s ++ suffix)) (omega arith) in
    rw (other, cut_suffix) (ap (in_front c) (cut_suffix-append s suffix))

cut_suffix-some : (suffix t s : Bytes) → cut_suffix suffix t ≡ some s → t ≡ s ++ suffix
unfolding cut_suffix
cut_suffix-some suffix [] s e = elim (Bool-cases (suffix =? [])) [
  | inl g ↦ let none_left = some_inj (rw g at e) in rw (← none_left) (sym (=?_sound suffix [] g))
  | inr g ↦ let lost = rw g at e in cc
]
cut_suffix-some suffix (c ∷ t) s e = elim (Bool-cases (suffix =? (c ∷ t))) [
  | inl g ↦
      let none_left = some_inj (rw g at e) in rw (← none_left) (sym (=?_sound suffix (c ∷ t) g))
  | inr g ↦ elim (Option-cases (cut_suffix suffix t)) [
    | inl d ↦ let lost = rw (g, d) at e in cc
    | inr (r, d) ↦
        let found = some_inj (rw (g, d) at e) in
        rw (← found) (ap (λ x. c ∷ x) (cut_suffix-some suffix t r d))
  ]
]

part_back :
    (prefix suffix w s : Bytes)
    → percent_part prefix suffix w ≡ some s
    → w ≡ (prefix ++ s) ++ suffix
part_back prefix suffix w s e = elim (Option-cases (strip_prefix prefix w)) [
  | inl d ↦ let lost = rw d at e in cc
  | inr (t, d) ↦
      strip_prefix-some prefix w t d
      ∙ ap (λ r. prefix ++ r) (cut_suffix-some suffix t s (rw d at e))
      ∙ sym (append_assoc prefix s suffix)
]

part_there :
    (prefix s suffix : Bytes) → percent_part prefix suffix ((prefix ++ s) ++ suffix) ≡ some s
part_there prefix s suffix =
    ap (percent_part prefix suffix) (append_assoc prefix s suffix)
    ∙ ap (cut_rest suffix) (strip_prefix-append prefix (s ++ suffix))
    ∙ cut_suffix-append s suffix

stem-middle : (prefix s suffix : Bytes) → stem prefix suffix ((prefix ++ s) ++ suffix) ≡ s
stem-middle prefix s suffix =
    let size : length ((prefix ++ s) ++ suffix) - (length prefix + length suffix) ≡ length s =
      omega (arith, length-append (prefix ++ s) suffix, length-append prefix s) in
    ap (λ n. take n (drop (length prefix) ((prefix ++ s) ++ suffix))) size
    ∙ ap (λ t. take (length s) (drop (length prefix) t)) (append_assoc prefix s suffix)
    ∙ ap (take (length s)) (drop-append_self prefix (s ++ suffix))
    ∙ take-append_self s suffix

-- the code's test and the part that it copies
pub percent_part-stem :
    (prefix suffix w : Bytes)
    → percent_part prefix suffix w
      ≡ (if percent_matches prefix suffix w then some (stem prefix suffix w) else none)
unfolding Matches
percent_part-stem prefix suffix w = elim (Bool-cases (percent_matches prefix suffix w)) [
  | inl e ↦
      let (s, whole) = percent_matches_sound prefix suffix w e in
      rw e rw whole (part_there prefix s suffix ∙ ap some (sym (stem-middle prefix s suffix)))
  | inr e ↦ elim (Option-cases (percent_part prefix suffix w)) [
    | inl d ↦ rw e d
    | inr (s, d) ↦
        let whole = part_back prefix suffix w s d in
        let matched =
          ap (percent_matches prefix suffix) whole ∙ percent_matches_complete prefix s suffix in
        (let lost : true ≡ false = sym matched ∙ e in cc)
  ]
]
