-- ===== src/Commands/Flags.antt =====
-- The flags of a line in make-4.4/src/commands.c, by the bytes in front of it.
use gmake.Commands.{
  LineFlags, Commands, no_flags, flagged, is_prefix, prefix_flags, is_found, line_flags,
  any_flagged, with_lines,
}
use gmake.Prelude.{
  ℕ, ◌≡◌, refl, ◌∙◌, ap, sym, inl, inr, Bool, true, false, ◌||◌, List, [], ◌∷◌, ◌++◌, map, Bytes,
  ◌==◌, arith, codes, one, ltb, count, All, Bool-cases,
}
use gmake.Text.{is_blank}
use gmake.Words.{strstr}

-- whether a byte is among those of a text
unfoldable pub among : ℕ → Bytes → Bool
among c [] = false
among c (x ∷ s) = x == c || among c s

-- a space, a TAB, a -, an @ or a +
abbrev pub marks : Bytes
marks = 32 ∷ 9 ∷ b'-' ∷ b'@' ∷ b'+' ∷ []

-- a text that does not begin with one
abbrev pub Bare : Bytes → Type 0
Bare [] = Unit
Bare (c ∷ line) = among c marks ≡ false

is_prefix-among : (c : ℕ) → is_prefix c ≡ among c marks
unfolding is_prefix is_blank among
is_prefix-among c = ground arith

-- the flags that are there, and those of a prefix
abbrev with_prefix : LineFlags → Bytes → LineFlags
with_prefix flags prefix = record {
  recurse = flags.recurse || among b'+' prefix;
  silent = flags.silent || among b'@' prefix;
  noerror = flags.noerror || among b'-' prefix;
}

or_false : (b : Bool) → (b || false) ≡ b
or_false true = refl
or_false false = refl

or_true : (b : Bool) → (b || true) ≡ true
or_true true = refl
or_true false = refl

with_prefix-nil : (flags : LineFlags) → with_prefix flags [] ≡ flags
unfolding among
with_prefix-nil flags =
    rw (or_false flags.recurse, or_false flags.silent, or_false flags.noerror) refl

with_prefix-cons :
    (flags : LineFlags) (c : ℕ) (prefix : Bytes)
    → with_prefix (flagged flags c) prefix ≡ with_prefix flags (c ∷ prefix)
unfolding flagged among
with_prefix-cons flags c prefix = elim (Bool-cases (c == b'+')) [
  | inl e ↦
      let not_at : (c == b'@') ≡ false = ground arith in
      let not_minus : (c == b'-') ≡ false = ground arith in
      rw (e, not_at, not_minus, flagged, among) rw (or_true flags.recurse) refl
  | inr e ↦ elim (Bool-cases (c == b'@')) [
    | inl d ↦
        let not_minus : (c == b'-') ≡ false = ground arith in
        rw (e, d, not_minus, flagged, among) rw (or_true flags.silent) refl
    | inr d ↦ elim (Bool-cases (c == b'-')) [
      | inl g ↦ rw (e, d, g, flagged, among) rw (or_true flags.noerror) refl
      | inr g ↦ rw (e, d, g, flagged, among) refl
    ]
  ]
]

prefix_flags-with_prefix :
    (flags : LineFlags) (prefix line : Bytes)
    → All (λ c. among c marks ≡ true) prefix
    → Bare line
    → prefix_flags flags (prefix ++ line) ≡ (with_prefix flags prefix, line)
unfolding prefix_flags
prefix_flags-with_prefix flags [] [] all bare = ap (λ f. (f, [])) (sym (with_prefix-nil flags))
prefix_flags-with_prefix flags [] (c ∷ line) all bare =
    rw (is_prefix-among c, prefix_flags) rw (bare, prefix_flags)
      (ap (λ f. (f, c ∷ line)) (sym (with_prefix-nil flags)))
prefix_flags-with_prefix flags (c ∷ prefix) line (e, all) bare =
    rw (is_prefix-among c, prefix_flags) rw (e, prefix_flags)
      (prefix_flags-with_prefix (flagged flags c) prefix line all bare
        ∙ ap (λ f. (f, line)) (with_prefix-cons flags c prefix))

any_flagged-count :
    (lines : List Bytes)
    → any_flagged (map line_flags lines) ≡ ltb 0 (count (λ l. (line_flags l).recurse) lines)
unfolding any_flagged count one
any_flagged-count [] = refl
any_flagged-count (l ∷ lines) = elim (Bool-cases (line_flags l).recurse) [
  | inl e ↦ rw (e, any_flagged, count) (ground arith)
  | inr e ↦ rw (e, any_flagged, count) (any_flagged-count lines ∙ ap (ltb 0) (omega arith))
]

-- The flags of a line made of blanks and of the bytes -, @ and +, and of a text that begins with none of these:
-- silent where there is an @ in front of the text, noerror where there is a -, and recurse where there is a +, or
-- $(MAKE) or ${MAKE} stands in the text. A recipe is recursive where one of its
-- lines is.
pub line_flags-prefix :
    (cmds : Commands) (prefix line : Bytes) (lines : List Bytes)
    → All (λ c. among c marks ≡ true) prefix
    → Bare line
    → (line_flags (prefix ++ line) ≡ record {
      recurse =
          among b'+' prefix
          || (is_found (strstr line (codes "$(MAKE)")) || is_found (strstr line (codes "${MAKE}")));
      silent = among b'@' prefix;
      noerror = among b'-' prefix;
    })
      × ((with_lines cmds lines).any_recurse ≡ ltb 0 (count (λ l. (line_flags l).recurse) lines))
unfolding line_flags with_lines
line_flags-prefix cmds prefix line lines all bare =
    let parts = prefix_flags-with_prefix no_flags prefix line all bare in
    (rw parts refl, any_flagged-count lines)
