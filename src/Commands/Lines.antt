-- ===== src/Commands/Lines.antt =====
-- The lines of a recipe, by a scan that goes forward.
use gmake.Commands.{
  Chopping, too_many, chopped, Commands, fatal, chops, flipped, continues, find_end, with_line,
  chop_from, with_lines, after_loop, chop_commands,
}
use gmake.Condition.{advance}
use gmake.Prelude.{
  ℕ, zero, suc, ◌+◌, ◌≤◌, ◌<◌, ◌≡◌, refl, ◌∙◌, ap, sym, inl, inr, Bool, true, false, not, ◌&&◌,
  List, [], ◌∷◌, ◌++◌, none, Bytes, leb, ◌==◌, if◌then◌else◌, arith, length, Bool-cases,
}

abbrev pub prepend : ℕ → List Bytes → List Bytes
prepend c [] = (c ∷ []) ∷ []
prepend c (line ∷ lines) = (c ∷ line) ∷ lines

-- The lines of a text: a newline ends one, unless a backslash in front of it quotes it, and a backslash quotes the
-- byte behind it unless it is quoted itself.
unfoldable pub cut : Bool → Bytes → List Bytes
cut quoted [] = []
cut quoted (c ∷ s) =
    let next = cut false s in
    let more = cut (c == b'\\' && not quoted) s in
    if c == 10 && not quoted then [] ∷ next else prepend c more

-- the text that the lines were cut from
unfoldable pub with_newlines : List Bytes → Bytes
with_newlines [] = []
with_newlines (line ∷ lines) = line ++ (10 ∷ with_newlines lines)

-- the outcome of the loop, with the number of lines so far
abbrev pub limited : ℕ → List Bytes → Chopping
limited nlines lines = if leb (nlines + length lines) 65535 then chopped lines else too_many

not-not : (b : Bool) → not (not b) ≡ b
not-not true = refl
not-not false = refl

flipped-not : (b : Bool) (back : Bytes) → flipped (not b) back ≡ not (flipped b back)
unfolding flipped
flipped-not b [] = refl
flipped-not b (c ∷ back) = elim (Bool-cases (c == b'\\')) [
  | inl e ↦ rw (e, flipped) (flipped-not (not b) back)
  | inr e ↦ rw (e, flipped) refl
]

-- the scan back from a newline and the scan forward agree
continues-cons :
    (c : ℕ) (back : Bytes) → continues (c ∷ back) ≡ (c == b'\\' && not (continues back))
unfolding continues flipped
continues-cons c back = elim (Bool-cases (c == b'\\')) [
  | inl e ↦ rw (e, continues) (turned back)
  | inr e ↦ rw (e, continues) refl
]
  where
    turned : (back : Bytes) → flipped true back ≡ not (continues back)
    turned [] = refl
    turned (d ∷ back) = elim (Bool-cases (d == b'\\')) [
      | inl e ↦ rw (e, continues, flipped) (flipped-not true back)
      | inr e ↦ rw (e, continues, flipped) refl
    ]

prepend-cut :
    (c : ℕ) (back s : Bytes)
    → prepend c (cut (continues back) s)
      ≡ (c ∷ (find_end back s).0) ∷ cut false (advance (find_end back s).1)
unfolding cut find_end advance
prepend-cut c back [] = refl
prepend-cut c back (d ∷ s) = elim (Bool-cases (d == 10 && not (continues back))) [
  | inl e ↦ rw (e, cut, find_end) refl
  | inr e ↦
      let ih = prepend-cut d (d ∷ back) s in
      let same = continues-cons d back in
      rw (e, cut, find_end) (ap (prepend c) (ap (λ b. prepend d (cut b s)) (sym same) ∙ ih))
]

length-find_end : (back s : Bytes) → length (find_end back s).1 ≤ length s
unfolding find_end
length-find_end back [] = omega arith
length-find_end back (c ∷ s) = elim (Bool-cases (c == 10 && not (continues back))) [
  | inl e ↦ rw (e, find_end) (omega arith)
  | inr e ↦ rw (e, find_end) (omega (arith, length-find_end (c ∷ back) s))
]

cut-find_end :
    (c : ℕ) (s : Bytes)
    → cut false (c ∷ s) ≡ (find_end [] (c ∷ s)).0 ∷ cut false (advance (find_end [] (c ∷ s)).1)
unfolding cut find_end advance
cut-find_end c s = elim (Bool-cases (c == 10)) [
  | inl e ↦ rw (e, cut, find_end) (unfold continues in refl)
  | inr e ↦
      let first : continues [] ≡ false = unfold continues in refl in
      rw (e, cut, find_end)
        (ap (λ b. prepend c (cut b s))
            (sym (continues-cons c [] ∙ ap (λ b. c == b'\\' && not b) first))
          ∙ prepend-cut c (c ∷ []) s)
]

length-rest : (c : ℕ) (s : Bytes) → length (advance (find_end [] (c ∷ s)).1) ≤ length s
unfolding find_end advance
length-rest c s = elim (Bool-cases (c == 10 && not (continues []))) [
  | inl e ↦ rw (e, find_end) (omega arith)
  | inr e ↦
      rw (e, find_end) (shorter (find_end (c ∷ []) s).1 (length s) (length-find_end (c ∷ []) s))
]
  where
    shorter : (r : Bytes) (n : ℕ) → length r ≤ n → length (advance r) ≤ n
    shorter [] n b = omega arith
    shorter (c ∷ r) n b = omega arith

limited-cons :
    (n : ℕ) (line : Bytes) (more : List Bytes)
    → n < 65535
    → with_line line (limited (n + 1) more) ≡ limited n (line ∷ more)
limited-cons n line more b = elim (Bool-cases (leb (n + 1 + length more) 65535)) [
  | inl e ↦ let same : leb (n + suc (length more)) 65535 ≡ true = ground arith in rw (e, same) refl
  | inr e ↦ let same : leb (n + suc (length more)) 65535 ≡ false = ground arith in rw (e, same) refl
]

chop_from-limited :
    (fuel n : ℕ) (p : Bytes)
    → length p < fuel
    → n ≤ 65535
    → chop_from fuel n p ≡ limited n (cut false p)
unfolding chop_from
chop_from-limited zero n p b low = absurd (omega arith)
chop_from-limited (suc fuel) n [] b low =
    let fits : leb (n + 0) 65535 ≡ true = ground arith in unfold cut in rw fits refl
chop_from-limited (suc fuel) n (c ∷ s) b low = elim (Bool-cases (n == 65535)) [
  | inl e ↦
      let over : leb (n + suc (length (cut false (advance (find_end [] (c ∷ s)).1)))) 65535
          ≡ false =
        ground arith in
      rw (e, chop_from) (sym (ap (limited n) (cut-find_end c s) ∙ rw over refl))
  | inr e ↦
      let rest = advance (find_end [] (c ∷ s)).1 in
      let less = length-rest c s in
      let more = chop_from-limited fuel (n + 1) rest (omega arith) (ground arith) in
      rw (e, chop_from)
        (ap (with_line (find_end [] (c ∷ s)).0) more
          ∙ limited-cons n (find_end [] (c ∷ s)).0 (cut false rest) (ground arith)
          ∙ sym (ap (limited n) (cut-find_end c s)))
]

after_loop-limited :
    (cmds : Commands) (lines : List Bytes)
    → after_loop cmds (limited 0 lines)
      ≡ (if leb (length lines) 65535 then chops (with_lines cmds lines) else fatal)
unfolding with_lines
after_loop-limited cmds lines = elim (Bool-cases (leb (length lines) 65535)) [
  | inl e ↦ let same : leb (0 + length lines) 65535 ≡ true = ground arith in rw (e, same) refl
  | inr e ↦ let same : leb (0 + length lines) 65535 ≡ false = ground arith in rw (e, same) refl
]

-- Of a recipe that is not chopped yet, each line for a shell of its own, the lines are those that a scan forward cuts
-- it up into, in which a backslash quotes the byte behind it unless it is quoted itself, and a newline ends a line unless
-- it is quoted; but where these are more than 65535, fatal is called. The loop over the recipe ends.
pub chop_commands-cut :
    (cmds : Commands)
    → cmds.command_lines ≡ none
    → chop_commands false cmds ≡ (
        if leb (length (cut false cmds.commands)) 65535
        then chops (with_lines cmds (cut false cmds.commands))
        else fatal)
unfolding chop_commands
chop_commands-cut cmds absent =
    rw (absent, chop_commands)
      (ap (after_loop cmds) (
          chop_from-limited (suc (length cmds.commands)) 0 cmds.commands (omega arith)
            (omega arith))
        ∙ after_loop-limited cmds (cut false cmds.commands))
