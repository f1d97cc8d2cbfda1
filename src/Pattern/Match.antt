-- ===== src/Pattern/Match.antt =====
-- pattern_matches of make-4.4/src/function.c: what a pattern matches.
use gmake.Pattern.{
  Unquoted, percent_matches, unquoted_matches, find_percent, pattern_matches, strneq,
}
use gmake.Prelude.{
  ℕ, zero, suc, ◌+◌, ◌-◌, ◌≤◌, ◌≡◌, ◌↔◌, refl, ◌∙◌, ap, sym, true, false, not, ◌||◌, [], ◌∷◌, ◌++◌,
  none, some, Bytes, ltb, ◌=?◌, =?_sound, =?_refl, arith, inl, inr, Bool-cases, length, take, drop,
  length-append, take-append_self, drop-append_self, take-append-drop, append_assoc,
}

-- the texts that a pattern stands for
unfoldable pub Matches : Unquoted → Bytes → Type 0
Matches (whole, none) str = whole ≡ str
Matches (prefix, some suffix) str = (stem : Bytes) × (str ≡ (prefix ++ stem) ++ suffix)

pub take-length : (s : Bytes) → take (length s) s ≡ s
take-length [] = refl
take-length (c ∷ s) = ap (λ t. c ∷ t) (take-length s)

pub take-take : (m k : ℕ) (s : Bytes) → m ≤ k → take m (take k s) ≡ take m s
take-take zero k s h = refl
take-take (suc m) zero s h = absurd (omega arith)
take-take (suc m) (suc k) [] h = refl
take-take (suc m) (suc k) (c ∷ s) h = ap (λ t. c ∷ t) (take-take m k s (omega arith))

split_three :
    (prefix suffix str : Bytes)
    → length prefix + length suffix ≤ length str
    → take (length prefix) str ≡ prefix
    → drop (length str - length suffix) str ≡ suffix
    → Matches (prefix, some suffix) str
unfolding Matches
split_three prefix suffix str len p q =
    let n = length str - length suffix in
    (
      drop (length prefix) (take n str),
      sym (take-append-drop n str)
          ∙ ap (λ t. take n str ++ t) q
          ∙ ap (λ t. t ++ suffix)
              (sym (take-append-drop (length prefix) (take n str))
                ∙ ap (λ t. t ++ drop (length prefix) (take n str))
                    (take-take (length prefix) n str (omega arith) ∙ p)),
    )

pub percent_matches_sound :
    (prefix suffix str : Bytes)
    → percent_matches prefix suffix str ≡ true
    → Matches (prefix, some suffix) str
unfolding percent_matches
percent_matches_sound prefix suffix str h =
    elim (Bool-cases (
      ltb (length str) (length prefix + length suffix)
      || not (strneq prefix str (length prefix)))) [
        | inl e ↦ absurd (ground arith)
        | inr e ↦
            split_three prefix suffix str (ground arith)
              (sym (=?_sound _ _ (ground arith)) ∙ take-length prefix)
              (sym (=?_sound _ _ (ground arith)))
      ]

pub same : {x y : Bytes} → x ≡ y → (x =? y) ≡ true
same {x} e = ap (λ t. x =? t) (sym e) ∙ =?_refl x

pub percent_matches_complete :
    (prefix stem suffix : Bytes) → percent_matches prefix suffix ((prefix ++ stem) ++ suffix) ≡ true
unfolding percent_matches
percent_matches_complete prefix stem suffix =
    let str = (prefix ++ stem) ++ suffix in
    let long : ltb (length str) (length prefix + length suffix) ≡ false =
      ground (arith, length-append (prefix ++ stem) suffix, length-append prefix stem) in
    let front : take (length prefix) prefix =? take (length prefix) str ≡ true = same (
      take-length prefix
      ∙ sym (
          ap (take (length prefix)) (append_assoc prefix stem suffix)
          ∙ take-append_self prefix (stem ++ suffix))) in
    let back : suffix =? drop (length str - length suffix) str ≡ true = same (
      sym (
        ap (λ k. drop k str) (omega (arith, length-append (prefix ++ stem) suffix))
        ∙ drop-append_self (prefix ++ stem) suffix)) in
    rw (long, front, back) refl

unquoted_matches-Matches :
    (p : Unquoted) (str : Bytes) → (unquoted_matches p str ≡ true) ↔ Matches p str
unfolding unquoted_matches Matches
unquoted_matches-Matches (whole, none) str = (=?_sound whole str, same)
unquoted_matches-Matches (prefix, some suffix) str = (
  percent_matches_sound prefix suffix str,
  λ m. ap (percent_matches prefix suffix) (m.1) ∙ percent_matches_complete prefix (m.0) suffix,
)

-- A pattern matches the texts that it stands for and no other: with an unquoted `%`, the texts with
-- any stem, empty too, in its place; with none, the text itself.
pub pattern_matches-Matches :
    (pattern str : Bytes)
    → (pattern_matches pattern str ≡ true) ↔ Matches (find_percent pattern) str
unfolding pattern_matches
pattern_matches-Matches pattern str = unquoted_matches-Matches (find_percent pattern) str
