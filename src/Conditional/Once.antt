-- ===== src/Conditional/Once.antt =====
-- The branches of one conditional in make-4.4/src/read.c: at most one of them is interpreted.
use gmake.Conditional.{
  Conditionals, Directive, opening, c_else, c_endif, ignore, flip, else_at, else_word, directive,
}
use gmake.Conditional.Branches.{Inside, flipped-Inside}
use gmake.Conditional.Chain.{View, shown, view, settle, frame}
use gmake.Conditional.Else.{behind_else, else_at-view, stale}
use gmake.Conditional.Frames.{Frame, blocked}
use gmake.Condition.{Opening, at, test_condition}
use gmake.Text.{next_token}
use gmake.Prelude.{
  ℕ, suc, ◌≡◌, ◌∙◌, Bool, false, not, List, ◌∷◌, Option, none, some, Bytes, arith, ltb, length,
  drop, ◌==◌, Bool-cases, inl, inr,
}

-- a level whose branch has been interpreted stays at 2
flip_spent : (i : ℕ) → (i == 1) ≡ false → (flip i == 0) ≡ false
unfolding flip
flip_spent i h = ground arith

flip_spent_top : (i : ℕ) → (i == 1) ≡ false → ltb (flip i) 2 ≡ false
unfolding flip
flip_spent_top i h = ground arith

-- the text is ignored, and the innermost level is at `i`
abbrev pub StaysIgnored : ℕ → List Frame → View → Type 0
StaysIgnored i fs r =
    (seen : ℕ) × (complaints : ℕ) × (r ≡ shown ignore (frame i seen ∷ fs) complaints)

settle_spent :
    (i seen n : ℕ) (fs : List Frame)
    → (i == 0) ≡ false
    → settle (frame i seen ∷ fs) n ≡ shown ignore (frame i seen ∷ fs) n
unfolding blocked
settle_spent i seen n fs h = rw h

behind_else_spent :
    (g i seen : ℕ) (fs : List Frame) (test : Opening → Option (Bool × Bool)) (d : Option Directive)
    → (i == 0) ≡ false
    → ltb i 2 ≡ false
    → StaysIgnored i fs (behind_else g (frame i seen) fs test d)
behind_else_spent g i seen fs test none h k = (seen, 1, settle_spent i seen 1 fs h)
behind_else_spent g i seen fs test (some c_else) h k = (seen, 1, settle_spent i seen 1 fs h)
behind_else_spent g i seen fs test (some c_endif) h k = (seen, 1, settle_spent i seen 1 fs h)
behind_else_spent g i seen fs test (some (opening d)) h k =
    (seen, 0, unfold blocked in rw (h, k) (rw h))

behind_else_unread :
    (g : ℕ) (fs : List Frame) (test : Opening → Option (Bool × Bool)) (d : Opening)
    → blocked fs ≡ false
    → test d ≡ none
    → behind_else g (frame 0 0) fs test (some (opening d)) ≡ settle (frame g 0 ∷ frame 0 0 ∷ fs) 1
behind_else_unread g fs test d clear unread =
    let b : blocked (frame 0 0 ∷ fs) ≡ false = unfold blocked in clear in rw (b, unread)

module _ (garbage : ℕ → ℕ) (expand : Bytes → Bytes) (lookup_variable : Bytes → Option Bytes) where
  -- If a branch of the innermost conditional has been interpreted (its level is at 0, or at 2 behind
  -- a later `else`) and no plain `else` has been seen, then whatever stands on the line of an `else`,
  -- the text behind the line is ignored, and the level is at 2 or more, where it stays.
  pub else_at_spent :
      {s : Conditionals} {o : ℕ} {f : Frame} {fs : List Frame}
      → Inside s o f fs
      → f.seen_else ≡ 0
      → (f.ignoring == 1) ≡ false
      → (line : Bytes)
      → StaysIgnored
          (flip f.ignoring)
          fs
          (view (else_at garbage expand lookup_variable s line (suc o)))
        × (ltb (flip f.ignoring) 2 ≡ false)
  else_at_spent {s} {o} {f} {fs} i unseen taken line =
      let spent = flip_spent f.ignoring taken in
      let top = flip_spent_top f.ignoring taken in
      let first : not (f.seen_else == 0) ≡ false = ground arith in
      let e = else_at-view garbage expand lookup_variable i line in
      elim (Bool-cases (at line == 0)) [
        | inl plain ↦
            ((1, 0, e ∙ rw (first, plain) (settle_spent (flip f.ignoring) 1 0 fs spent)), top)
        | inr more ↦
            let (seen, complaints, b) =
              behind_else_spent (stale garbage expand lookup_variable (flipped-Inside i))
                (flip f.ignoring) f.seen_else fs
                (λ d.
                  test_condition expand lookup_variable d
                    (next_token (drop (length (else_word line)) line)))
                (directive (else_word line)) spent top in
            ((seen, complaints, e ∙ rw (first, more) b), top)
      ]

  -- An `else` with a conditional behind it whose condition make cannot read, where the text up to it
  -- was ignored only for the innermost level: make complains and goes on, and one level more is open
  -- than before the line.
  pub else_at_leaks :
      {s : Conditionals} {o : ℕ} {f : Frame} {fs : List Frame}
      → Inside s o f fs
      → f.seen_else ≡ 0
      → f.ignoring ≡ 1
      → blocked fs ≡ false
      → (line : Bytes) (d : Opening) → (at line == 0) ≡ false
      → directive (else_word line) ≡ some (opening d)
      → test_condition expand lookup_variable d (next_token (drop (length (else_word line)) line))
        ≡ none
      → (g : ℕ) × (view (else_at garbage expand lookup_variable s line (suc o))
          ≡ settle (frame g 0 ∷ frame 0 0 ∷ fs) 1)
  else_at_leaks {f} {fs} i unseen waiting clear line d more word unread =
      let e = else_at-view garbage expand lookup_variable i line in
      let g = stale garbage expand lookup_variable (flipped-Inside i) in
      let test = λ (k : Opening).
        test_condition expand lookup_variable k
          (next_token (drop (length (else_word line)) line)) in
      (
        g,
        e
            ∙ rw (unseen, waiting, more, word)
                (unfold flip in behind_else_unread g fs test d clear unread),
      )
