-- ===== src/Commands/Joined.antt =====
-- The lines that chop_commands of make-4.4/src/commands.c makes, put together again.
use gmake.Commands.{Commands, chops, with_lines, chop_commands}
use gmake.Commands.Lines.{prepend, cut, with_newlines, chop_commands-cut}
use gmake.Prelude.{
  ℕ, ◌≤◌, ◌≡◌, refl, ◌∙◌, ap, sym, ◌⊎◌, inl, inr, Bool, true, false, not, ◌&&◌, List, [], ◌∷◌, ◌++◌,
  none, Bytes, leb, ◌==◌, arith, length, All, Bool-cases,
}

-- cut up again, a line gives no more than one line
abbrev pub IsLine : Bool → Bytes → Type 0
IsLine quoted line = length (cut quoted line) ≤ 1

-- the first line goes on behind a quoted or an unquoted byte
abbrev AreLines : Bool → List Bytes → Type 0
AreLines quoted [] = Unit
AreLines quoted (line ∷ lines) = IsLine quoted line × All (IsLine false) lines

length-prepend : (c : ℕ) (lines : List Bytes) → length lines ≤ 1 → length (prepend c lines) ≤ 1
length-prepend c [] b = omega arith
length-prepend c (line ∷ lines) b = omega arith

prepend-AreLines :
    (c : ℕ) (quoted : Bool) (lines : List Bytes)
    → (c == 10 && not quoted) ≡ false
    → AreLines (c == b'\\' && not quoted) lines
    → AreLines quoted (prepend c lines)
unfolding cut
prepend-AreLines c quoted [] e are = (rw (e, cut) (omega arith), tt)
prepend-AreLines c quoted (line ∷ lines) e (first, rest) =
    (rw (e, cut) (length-prepend c _ first), rest)

AreLines-All : (lines : List Bytes) → AreLines false lines → All (IsLine false) lines
AreLines-All [] are = tt
AreLines-All (line ∷ lines) are = are

cut-AreLines : (quoted : Bool) (t : Bytes) → AreLines quoted (cut quoted t)
unfolding cut
cut-AreLines quoted [] = tt
cut-AreLines quoted (c ∷ s) = elim (Bool-cases (c == 10 && not quoted)) [
  | inl e ↦ rw (e, cut) (omega arith, AreLines-All (cut false s) (cut-AreLines false s))
  | inr e ↦ rw (e, cut) (prepend-AreLines c quoted _ e (cut-AreLines (c == b'\\' && not quoted) s))
]

-- the text itself, or the text with the newline that its last line lacks
abbrev Joins : Bytes → Bytes → Type 0
Joins joined t = (joined ≡ t) ⊎ (joined ≡ t ++ (10 ∷ []))

Joins-cons : (c : ℕ) (joined t : Bytes) → Joins joined t → Joins (c ∷ joined) (c ∷ t)
Joins-cons c joined t (inl e) = inl (ap (λ r. c ∷ r) e)
Joins-cons c joined t (inr e) = inr (ap (λ r. c ∷ r) e)

prepend-Joins :
    (c : ℕ) (lines : List Bytes) (t : Bytes)
    → (lines ≡ [] → t ≡ [])
    → Joins (with_newlines lines) t
    → Joins (with_newlines (prepend c lines)) (c ∷ t)
unfolding with_newlines
prepend-Joins c [] t gone joins = inr (ap (λ r. c ∷ r ++ (10 ∷ [])) (sym (gone refl)))
prepend-Joins c (line ∷ lines) t gone joins = Joins-cons c _ t joins

cut-nil : (quoted : Bool) (t : Bytes) → cut quoted t ≡ [] → t ≡ []
unfolding cut
cut-nil quoted [] e = refl
cut-nil quoted (c ∷ s) e = elim (Bool-cases (c == 10 && not quoted)) [
  | inl d ↦ let lost = rw d at e in cc
  | inr d ↦ absurd (not_nil c _ (rw d at e))
]
  where
    not_nil : (c : ℕ) (lines : List Bytes) → prepend c lines ≡ [] → ⊥
    not_nil c [] e = cc
    not_nil c (line ∷ lines) e = cc

cut-Joins : (quoted : Bool) (t : Bytes) → Joins (with_newlines (cut quoted t)) t
unfolding cut with_newlines
cut-Joins quoted [] = inl refl
cut-Joins quoted (c ∷ s) = elim (Bool-cases (c == 10 && not quoted)) [
  | inl e ↦
      let newline : 10 ≡ c = ground arith in
      rw (e, cut) rw (← newline) (Joins-cons 10 _ s (cut-Joins false s))
  | inr e ↦
      rw (e, cut)
        (prepend-Joins c _ s (cut-nil (c == b'\\' && not quoted) s)
          (cut-Joins (c == b'\\' && not quoted) s))
]

-- Of a recipe that is not chopped yet, each line for a shell of its own, with no more than 65535 lines: chop_commands
-- makes lines that give back the recipe when a newline is put behind each, or the recipe and the newline that its last
-- line lacks; and none of the lines holds the end of another.
pub chop_commands-joined :
    (cmds : Commands)
    → cmds.command_lines ≡ none
    → length (cut false cmds.commands) ≤ 65535
    → (lines : List Bytes) × (chop_commands false cmds ≡ chops (with_lines cmds lines))
      × ((with_newlines lines ≡ cmds.commands) ⊎ (with_newlines lines ≡ cmds.commands ++ (10 ∷ [])))
      × All (IsLine false) lines
chop_commands-joined cmds absent few =
    let fits : leb (length (cut false cmds.commands)) 65535 ≡ true = ground arith in
    (
      cut false cmds.commands,
      chop_commands-cut cmds absent ∙ rw fits refl,
      cut-Joins false cmds.commands,
      AreLines-All _ (cut-AreLines false cmds.commands),
    )
