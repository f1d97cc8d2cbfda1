-- ===== src/Conditional/Else.antt =====
-- An `else` of make-4.4/src/read.c, conditional_line, with or without a conditional behind it.
use gmake.Condition.{Opening, at, test_condition}
use gmake.Conditional.{
  Conditionals, Directive, opening, c_else, c_endif, ignore, second_else, returns, any_ignoring,
  done, flip, push, store, open_line, raise, merge, else_if, else_at, else_word, directive,
  bool_to_int,
}
use gmake.Conditional.Branches.{
  Inside, Inside-frames, merged, flipped, flipped-Inside, opened_state, raised-frames,
}
use gmake.Conditional.Chain.{
  View, ends, view, settle, frame, done-view, push-if_cmds, push-frames, push_seen, same_search,
}
use gmake.Conditional.Frames.{Frame, below, frames, blocked, below-set_seen, get_or-set_self}
use gmake.Prelude.{
  ℕ, suc, ◌≡◌, ap, ◌∙◌, Bool, true, false, not, List, ◌∷◌, Option, none, some, Bytes, arith, length,
  get_or, set, drop, ◌==◌, Bool-cases, inl, inr, if◌then◌else◌,
}
use gmake.Text.{next_token}
use native.Mathlib.Numerals.{add-one}

merge-done :
    (o : ℕ) (t : Conditionals) (n : ℕ) → view (merge o (done t n)) ≡ settle (frames (raise o t)) n
unfolding done merge
merge-done o t n = elim (Bool-cases (any_ignoring t.if_cmds t.ignoring)) [
  | inl e ↦ rw e (done-view (raise o t) n)
  | inr e ↦ rw e (done-view (raise o t) n)
]

-- The stack behind an `else` with text: `stale` is what the array holds one level above the innermost
-- one, `f` is the innermost level behind the `switch`.
abbrev pub behind_else :
    ℕ → Frame → List Frame → (Opening → Option (Bool × Bool)) → Option Directive → View
behind_else stale f fs test none = settle (f ∷ fs) 1
behind_else stale f fs test (some c_else) = settle (f ∷ fs) 1
behind_else stale f fs test (some c_endif) = settle (f ∷ fs) 1
behind_else stale f fs test (some (opening d)) =
    if blocked (f ∷ fs) then settle (merged f 1 ∷ fs) 0 else elim (test d) [
      | none ↦ settle (frame stale 0 ∷ f ∷ fs) 1
      | some (ignored, extra) ↦ settle (merged f (bool_to_int ignored) ∷ fs) (bool_to_int extra)
    ]

module _ (garbage : ℕ → ℕ) (expand : Bytes → Bytes) (lookup_variable : Bytes → Option Bytes) where
  module _ {s : Conditionals} {o : ℕ} {f : Frame} {fs : List Frame} (i : Inside s o f fs) where
    -- the value that is found at a new level
    abbrev pub stale : ℕ
    stale = get_or (push garbage s).ignoring s.if_cmds 0

    leaked-frames : frames (push garbage s) ≡ frame stale 0 ∷ f ∷ fs
    unfolding frames
    leaked-frames =
        rw (push-if_cmds garbage i.valid, add-one)
          (unfold below in
            rw (push_seen garbage i.valid, push-frames garbage i.valid)
              (ap (λ t. frame (get_or (push garbage s).ignoring s.if_cmds 0) 0 ∷ t)
                (Inside-frames i)))

    search : any_ignoring s.if_cmds (push garbage s).ignoring ≡ blocked (f ∷ fs)
    search = same_search garbage i.valid ∙ ap blocked (Inside-frames i)

    blocked-open :
        (d : Opening) (line : Bytes)
        → blocked (f ∷ fs) ≡ true
        → open_line garbage expand lookup_variable d s line
          ≡ returns ignore (opened_state garbage i 1) 0
    unfolding open_line opened_state
    blocked-open d line b = rw (search, b)

    tested-open :
        (d : Opening) (line : Bytes)
        → blocked (f ∷ fs) ≡ false
        → open_line garbage expand lookup_variable d s line
          ≡ store (push garbage s) s.if_cmds (test_condition expand lookup_variable d line)
    unfolding open_line
    tested-open d line b = rw (search, b)

    merge-store :
        (t : Option (Bool × Bool))
        → view (merge o (store (push garbage s) s.if_cmds t)) ≡ elim t [
          | none ↦ settle (frame stale 0 ∷ f ∷ fs) 1
          | some (ignored, extra) ↦ settle (merged f (bool_to_int ignored) ∷ fs) (bool_to_int extra)
        ]
    unfolding store
    merge-store none =
        unfold merge in done-view (push garbage s) 1 ∙ ap (λ l. settle l 1) leaked-frames
    merge-store (some (ignored, extra)) =
        let x = bool_to_int ignored in
        unfold opened_state in
        merge-done o (opened_state garbage i x) (bool_to_int extra)
        ∙ ap (λ l. settle l (bool_to_int extra)) (raised-frames garbage i x)

    merge_ignored :
        view (merge o (returns ignore (opened_state garbage i 1) 0)) ≡ settle (merged f 1 ∷ fs) 0
    unfolding merge
    merge_ignored =
        done-view (raise o (opened_state garbage i 1)) 0
        ∙ ap (λ l. settle l 0) (raised-frames garbage i 1)

    opening-view :
        (d : Opening) (line : Bytes)
        → view (merge o (open_line garbage expand lookup_variable d s line))
          ≡ behind_else stale f fs
              (λ e. test_condition expand lookup_variable e line)
              (some (opening d))
    opening-view d line = elim (Bool-cases (blocked (f ∷ fs))) [
      | inl b ↦ ap (λ r. view (merge o r)) (blocked-open d line b) ∙ rw b merge_ignored
      | inr b ↦
          ap (λ r. view (merge o r)) (tested-open d line b)
          ∙ rw b (merge-store (test_condition expand lookup_variable d line))
    ]

    else_if-view :
        (line : Bytes) (d : Option Directive)
        → view (else_if garbage expand lookup_variable o s line d)
          ≡ behind_else stale f fs
              (λ e.
                test_condition expand lookup_variable e
                  (next_token (drop (length (else_word line)) line)))
              d
    unfolding else_if
    else_if-view line none = unfold merge in done-view s 1 ∙ ap (λ l. settle l 1) (Inside-frames i)
    else_if-view line (some c_else) = done-view s 1 ∙ ap (λ l. settle l 1) (Inside-frames i)
    else_if-view line (some c_endif) = done-view s 1 ∙ ap (λ l. settle l 1) (Inside-frames i)
    else_if-view line (some (opening d)) = opening-view d _

  module _ {s : Conditionals} {o : ℕ} {f : Frame} {fs : List Frame} (i : Inside s o f fs) where
    plain-frames :
        frames (record (flipped s o) { seen_else = set s.seen_else o 1 })
        ≡ frame (flip f.ignoring) 1 ∷ fs
    unfolding flipped frames
    plain-frames =
        let g = flipped-Inside i in
        rw i.depth (
          unfold below in
          rw (
            g.top.0,
            get_or-set_self s.seen_else o 1
                (omega (arith, i.valid.seen_else, i.valid.within, i.depth)),
            below-set_seen o (set s.ignoring o (flip (get_or s.ignoring o 0))) s.seen_else o 1
                (omega arith),
            g.rest,
          ))

    -- In a state with an open conditional an `else` does this to the stack of levels: it ends make if
    -- the level has seen an `else`; else it turns the level, and text behind the `else` does what
    -- `behind_else` says.
    pub else_at-view :
        (line : Bytes)
        → view (else_at garbage expand lookup_variable s line (suc o)) ≡ (
            if not (f.seen_else == 0)
            then ends second_else
            else if at line == 0
            then settle (frame (flip f.ignoring) 1 ∷ fs) 0
            else behind_else
                (stale (flipped-Inside i))
                (record f { ignoring = flip f.ignoring })
                fs
                (λ e.
                  test_condition expand lookup_variable e
                    (next_token (drop (length (else_word line)) line)))
                (directive (else_word line)))
    unfolding else_at flipped
    else_at-view line = rw i.top.1 (elim (Bool-cases (f.seen_else == 0)) [
      | inr seen ↦ rw seen
      | inl unseen ↦ elim (Bool-cases (at line == 0)) [
        | inl plain ↦ rw (unseen, plain) (done-view _ 0 ∙ ap (λ l. settle l 0) plain-frames)
        | inr more ↦
            rw (unseen, more) (else_if-view (flipped-Inside i) line (directive (else_word line)))
      ]
    ])
