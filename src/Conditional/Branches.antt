-- ===== src/Conditional/Branches.antt =====
-- `else` and `endif` of make-4.4/src/read.c, conditional_line, on the stack of levels: of the
-- branches of one conditional at most one is interpreted.
use gmake.Condition.{at}
use gmake.Conditional.{Conditionals, extraneous_endif, endif_at, endif_line, flip, push, raise}
use gmake.Conditional.Chain.{
  ends, view, settle, frame, done-view, push-if_cmds, push-frames, push_room,
}
use gmake.Conditional.Frames.{
  Frame, below, frames, get_or-set_self, get_or-set_ne, below-set_ignoring,
}
use gmake.Conditional.Safety.{IsValid, set_ignoring-IsValid}
use gmake.Prelude.{
  ℕ, zero, suc, ◌+◌, ◌<◌, ◌≡◌, refl, ap, ◌∙◌, sym, List, [], ◌∷◌, Bytes, arith, length, length-set,
  get_or, set, ltb, ◌==◌, Bool-cases, inl, inr, if◌then◌else◌,
}

endif_at-view :
    (s : Conditionals) (depth n : ℕ)
    → view (endif_at s depth n) ≡ elim (below depth s.ignoring s.seen_else) [
      | [] ↦ ends extraneous_endif
      | f ∷ fs ↦ settle fs n
    ]
unfolding endif_at below
endif_at-view s zero n = refl
endif_at-view s (suc depth) n =
    let t : Conditionals = record s { if_cmds = depth } in unfold frames in done-view t n

-- An `endif` without an open conditional ends make; any other takes the innermost level off the
-- stack. Text behind it gets a complaint.
pub endif_line-view :
    (s : Conditionals) (line : Bytes)
    → view (endif_line s line) ≡ elim (frames s) [
      | [] ↦ ends extraneous_endif
      | f ∷ fs ↦ settle fs (if at line == 0 then 0 else 1)
    ]
unfolding endif_line frames
endif_line-view s line = endif_at-view s s.if_cmds _

-- a state with an open conditional, and its innermost level
pub record Inside (s : Conditionals) (o : ℕ) (f : Frame) (fs : List Frame) : Type 0 where
  pub valid : IsValid s
  pub depth : s.if_cmds ≡ suc o
  pub top : (get_or s.ignoring o 0 ≡ f.ignoring) × (get_or s.seen_else o 0 ≡ f.seen_else)
  pub rest : below o s.ignoring s.seen_else ≡ fs

pub Inside-frames :
    {s : Conditionals} {o : ℕ} {f : Frame} {fs : List Frame} → Inside s o f fs → frames s ≡ f ∷ fs
unfolding frames
Inside-frames {s} {o} i = rw i.depth (unfold below in rw (i.top.0, i.top.1, i.rest))

-- What is left of a level and the value at the one above it, when the upper is taken down.
abbrev pub merged : Frame → ℕ → Frame
merged f x = if ltb f.ignoring 2 then record f { ignoring = x } else f

-- the state behind the `switch`
unfoldable pub flipped : Conditionals → ℕ → Conditionals
flipped s o = record s { ignoring = set s.ignoring o (flip (get_or s.ignoring o 0)) }

pub flipped-Inside :
    {s : Conditionals} {o : ℕ} {f : Frame} {fs : List Frame}
    → Inside s o f fs
    → Inside (flipped s o) o (record f { ignoring = flip f.ignoring }) fs
unfolding flipped
flipped-Inside {s} {o} {f} i = record {
  valid = set_ignoring-IsValid o _ i.valid;
  depth = i.depth;
  top = (
    get_or-set_self s.ignoring o _ (omega (arith, i.valid.ignoring, i.valid.within, i.depth))
        ∙ ap flip i.top.0,
    i.top.1,
  );
  rest = below-set_ignoring o s.ignoring s.seen_else o _ (omega arith) ∙ i.rest;
}

pub below-suc :
    (o : ℕ) (ig se : List ℕ) {f : Frame} {fs : List Frame}
    → below (suc o) ig se ≡ f ∷ fs
    → (frame (get_or ig o 0) (get_or se o 0) ≡ f) × (below o ig se ≡ fs)
unfolding below
below-suc o ig se h = (cc, cc)

module _ (garbage : ℕ → ℕ) {s : Conditionals} {o : ℕ} {f : Frame} {fs : List Frame}
    (i : Inside s o f fs) where
  -- the state that an opening line behind an `else` leaves, and `merge` takes down
  unfoldable pub opened_state : ℕ → Conditionals
  opened_state x = record (push garbage s) { ignoring = set (push garbage s).ignoring s.if_cmds x }

  pub pushed-below : below (suc o) (push garbage s).ignoring (push garbage s).seen_else ≡ f ∷ fs
  pushed-below =
      ap (λ n. below n (push garbage s).ignoring (push garbage s).seen_else) (sym i.depth)
      ∙ push-frames garbage i.valid
      ∙ Inside-frames i

  pushed_top :
      frame (get_or (push garbage s).ignoring o 0) (get_or (push garbage s).seen_else o 0) ≡ f
  pushed_top = (below-suc o _ _ pushed-below).0

  pushed_rest : below o (push garbage s).ignoring (push garbage s).seen_else ≡ fs
  pushed_rest = (below-suc o _ _ pushed-below).1

  opened_top : (x : ℕ) → get_or (opened_state x).ignoring o 0 ≡ f.ignoring
  unfolding opened_state
  opened_top x =
      get_or-set_ne (push garbage s).ignoring s.if_cmds o x (omega (arith, i.depth))
      ∙ ap (λ g. g.ignoring) pushed_top

  opened_new : (x : ℕ) → get_or (opened_state x).ignoring (o + 1) 0 ≡ x
  unfolding opened_state
  opened_new x =
      ap (λ n. get_or (set (push garbage s).ignoring s.if_cmds x) n 0)
        (let e : o + 1 ≡ s.if_cmds = omega (arith, i.depth) in e)
      ∙ get_or-set_self (push garbage s).ignoring s.if_cmds x (push_room garbage i.valid)

  opened_below : (x : ℕ) → below o (opened_state x).ignoring (opened_state x).seen_else ≡ fs
  unfolding opened_state
  opened_below x =
      below-set_ignoring o (push garbage s).ignoring (push garbage s).seen_else s.if_cmds x
        (omega (arith, i.depth))
      ∙ pushed_rest

  opened_seen : (x : ℕ) → get_or (opened_state x).seen_else o 0 ≡ f.seen_else
  unfolding opened_state
  opened_seen x = ap (λ g. g.seen_else) pushed_top

  pub opened_count : (x : ℕ) → (raise o (opened_state x)).if_cmds ≡ suc o
  unfolding opened_state raise
  opened_count x = omega (arith, push-if_cmds garbage i.valid, i.depth)

  opened_room : (x : ℕ) → o < length (opened_state x).ignoring
  unfolding opened_state
  opened_room x =
      omega (
        arith,
        length-set (push garbage s).ignoring s.if_cmds x,
        push_room garbage i.valid,
        i.depth,
      )

  pub raised-frames : (x : ℕ) → frames (raise o (opened_state x)) ≡ merged f x ∷ fs
  unfolding frames
  raised-frames x =
      let t = opened_state x in
      rw (opened_count x) (
        unfold raise below in
        rw (opened_top x, opened_new x, opened_seen x)
          (elim (Bool-cases (ltb f.ignoring 2)) [
            | inl e ↦ rw (
              e,
              get_or-set_self t.ignoring o x (opened_room x),
              below-set_ignoring o t.ignoring t.seen_else o x (omega arith),
              opened_below x,
            )
            | inr e ↦ rw (e, opened_top x, opened_below x)
          ]))
