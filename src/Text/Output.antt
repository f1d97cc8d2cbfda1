-- ===== src/Text/Output.antt =====
-- make-4.4/src/expand.c (variable_buffer_output) and the loop that make-4.4/src/function.c writes
-- in each of its list functions: words go out with a blank behind each, and the last blank is taken
-- back. The variable buffer is the list of the bytes in front of the pointer `o`.
use mathlib.Core.List.{foldl, filter_map}
use gmake.Prelude.{
  ℕ, ◌≡◌, refl, ◌∙◌, ap, sym, Bool, true, false, List, [], ◌∷◌, ◌++◌, append_assoc, append-nil,
  Option, none, some, Bytes, if◌then◌else◌, inl, inr, Option-cases,
}
use gmake.Text.{tokens}
use gmake.Text.Tokens.{join}

-- `o`, with the local variable `doneany`
pub record Output : Type 0 where
  pub buffer : Bytes
  pub doneany : Bool

abbrev pub start : Bytes → Output
start o = record { buffer = o; doneany = false }

-- `o = variable_buffer_output (o, s, n)`, and `doneany = 1`
abbrev pub variable_buffer_output : Bytes → Bytes → Bytes
variable_buffer_output o s = o ++ s

-- `--o`
unfoldable pub kill_last : Bytes → Bytes
kill_last [] = []
kill_last (c ∷ []) = []
kill_last (c ∷ d ∷ s) = c ∷ kill_last (d ∷ s)

-- `if (doneany) --o; return o;`
unfoldable pub finish : Output → Bytes
unfolding kill_last
finish o = if o.doneany then kill_last o.buffer else o.buffer

-- the `while` loop over the words of a text
abbrev pub for_tokens : Bytes → (Output → Bytes → Output) → Output → Output
for_tokens s body o = foldl body o (tokens s)

kill_last-concat : (s : Bytes) (d : ℕ) → kill_last (s ++ d ∷ []) ≡ s
unfolding kill_last
kill_last-concat [] d = refl
kill_last-concat (c ∷ []) d = refl
kill_last-concat (c ∷ e ∷ s) d = ap (λ t. c ∷ t) (kill_last-concat (e ∷ s) d)

-- what a round leaves: nothing new, or a piece of text and a blank
abbrev pub put : Output → Option Bytes → Output
put o none = o
put o (some w) = record { buffer = (o.buffer ++ w) ++ b' ' ∷ []; doneany = true }

-- each piece with a blank behind it
spaced : List Bytes → Bytes
spaced [] = []
spaced (w ∷ ws) = w ++ b' ' ∷ spaced ws

spaced-join : (w : Bytes) (ws : List Bytes) → spaced (w ∷ ws) ≡ join (w ∷ ws) ++ b' ' ∷ []
unfolding spaced join
spaced-join w [] = refl
spaced-join w (v ∷ ws) = rw (spaced-join v ws) (sym (append_assoc w _ _))

spaced_once :
    (o w : Bytes) (ws : List Bytes) → ((o ++ w) ++ b' ' ∷ []) ++ spaced ws ≡ o ++ spaced (w ∷ ws)
unfolding spaced
spaced_once o w ws = simp append_assoc

finish-spaced :
    (o w : Bytes) (ws : List Bytes)
    → finish (record { buffer = o ++ spaced (w ∷ ws); doneany = true }) ≡ o ++ join (w ∷ ws)
unfolding finish
finish-spaced o w ws =
    ap kill_last (ap (λ t. o ++ t) (spaced-join w ws) ∙ sym (append_assoc o _ _))
    ∙ kill_last-concat (o ++ join (w ∷ ws)) b' '

module _ (g : Bytes → Option Bytes) (body : Output → Bytes → Output) where
  -- a loop that has put something out
  foldl-done :
      ((o : Output) (w : Bytes) → body o w ≡ put o (g w))
      → (ws : List Bytes) (o : Bytes)
      → foldl body (record { buffer = o; doneany = true }) ws
        ≡ record { buffer = o ++ spaced (filter_map g ws); doneany = true }
  unfolding spaced filter_map
  foldl-done each [] o = ap (λ t. record { buffer = t; doneany = true }) (sym (append-nil o))
  foldl-done each (w ∷ ws) o = elim (Option-cases (g w)) [
    | inl e ↦ rw (each, e, filter_map) (foldl-done each ws o)
    | inr (x, e) ↦
        rw (each, e, filter_map) (foldl-done each ws ((o ++ x) ++ b' ' ∷ []) ∙ simp append_assoc)
  ]

  -- A loop whose rounds put out a piece and a blank, or nothing, appends the pieces with one blank
  -- between neighbours.
  pub finish-foldl :
      ((o : Output) (w : Bytes) → body o w ≡ put o (g w))
      → (ws : List Bytes) (o : Bytes)
      → finish (foldl body (start o) ws) ≡ o ++ join (filter_map g ws)
  unfolding filter_map
  finish-foldl each [] o = unfold finish join in sym (append-nil o)
  finish-foldl each (w ∷ ws) o = elim (Option-cases (g w)) [
    | inl e ↦ rw (each, e, filter_map) (finish-foldl each ws o)
    | inr (x, e) ↦
        rw (each, e, filter_map)
          (ap finish (foldl-done each ws ((o ++ x) ++ b' ' ∷ []))
            ∙ ap (λ t. finish (record { buffer = t; doneany = true }))
                (spaced_once o x (filter_map g ws))
            ∙ finish-spaced o x (filter_map g ws))
  ]
