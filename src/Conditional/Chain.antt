-- ===== src/Conditional/Chain.antt =====
-- What each directive of make-4.4/src/read.c, conditional_line, does to the stack of levels.
use gmake.Condition.{Opening, test_condition}
use gmake.Conditional.{
  Conditionals, Verdict, interpret, ignore, invalid, not_conditional, Fatal, Result, fatal, returns,
  any_ignoring, done, reserve, grow, push, store, open_line, bool_to_int,
}
use gmake.Conditional.Frames.{
  Frame, below, frames, blocked, any_ignoring-blocked, get_or-set_self, below-set_ignoring,
  below-set_seen, below-append,
}
use gmake.Conditional.Safety.{IsValid, push-IsValid}
use gmake.Prelude.{
  ℕ, ◌+◌, ◌≤◌, ◌<◌, ◌≡◌, refl, ap, ◌∙◌, sym, Bool, true, false, List, ◌∷◌, Option, none, some,
  Bytes, arith, length, length-set, get_or, set, ltb, ◌==◌, Bool-cases, inl, inr, if◌then◌else◌,
}
use native.Mathlib.Numerals.{add-one}

-- What a caller sees of a result. Behind -1 the innermost level holds no value that was chosen.
pub data View : Type 0 where
  ends : Fatal → View
  shown : Verdict → List Frame → ℕ → View
  lost : View

abbrev pub view : Result → View
view (fatal f) = ends f
view (returns invalid s n) = lost
view (returns not_conditional s n) = shown not_conditional (frames s) n
view (returns interpret s n) = shown interpret (frames s) n
view (returns ignore s n) = shown ignore (frames s) n

-- The text behind a line is ignored if some level is.
abbrev pub settle : List Frame → ℕ → View
settle fs n = if blocked fs then shown ignore fs n else shown interpret fs n

abbrev pub frame : ℕ → ℕ → Frame
frame i e = record { ignoring = i; seen_else = e }

pub done-view : (s : Conditionals) (n : ℕ) → view (done s n) ≡ settle (frames s) n
unfolding done frames
done-view s n =
    let e = any_ignoring-blocked s.if_cmds s.ignoring s.seen_else in
    elim (Bool-cases (any_ignoring s.if_cmds s.ignoring)) [
      | inl b ↦ rw (b, sym e ∙ b)
      | inr b ↦ rw (b, sym e ∙ b)
    ]

grow-frames :
    (garbage : ℕ → ℕ) (t : Conditionals) (n : ℕ)
    → n ≤ length t.ignoring
    → n ≤ length t.seen_else
    → below n (grow garbage t).ignoring (grow garbage t).seen_else ≡ below n t.ignoring t.seen_else
unfolding grow
grow-frames garbage t n h k = elim (Bool-cases (ltb t.allocated t.if_cmds)) [
  | inl e ↦ rw e (below-append n t.ignoring t.seen_else _ _ h k)
  | inr e ↦ rw e
]

module _ (garbage : ℕ → ℕ) {s : Conditionals} (v : IsValid s) where
  reserve-frames :
      (below s.if_cmds (reserve garbage s).ignoring (reserve garbage s).seen_else ≡ frames s)
      × ((reserve garbage s).if_cmds ≡ s.if_cmds)
      × (s.if_cmds ≤ length (reserve garbage s).ignoring)
      × (s.if_cmds ≤ length (reserve garbage s).seen_else)
  unfolding reserve frames
  reserve-frames = elim (Bool-cases (s.allocated == 0)) [
    | inl e ↦
        let none_used : s.if_cmds ≡ 0 = ground arith in
        rw (e, none_used) (unfold below in refl, refl, omega arith, omega arith)
    | inr e ↦ rw e (refl, refl, omega arith, omega arith)
  ]

  pub push-if_cmds : (push garbage s).if_cmds ≡ s.if_cmds + 1
  unfolding push reserve grow
  push-if_cmds = ground arith

  -- The levels that were in use are as they were.
  pub push-frames : below s.if_cmds (push garbage s).ignoring (push garbage s).seen_else ≡ frames s
  unfolding push
  push-frames =
      let (same, count, room, room') = reserve-frames in
      let r = reserve garbage s in
      below-set_seen s.if_cmds _ _ r.if_cmds 0 (omega arith)
      ∙ grow-frames garbage (record r { if_cmds = r.if_cmds + 1 }) s.if_cmds room room'
      ∙ same

  -- The search at a new line sees the levels that are in use.
  pub same_search : any_ignoring s.if_cmds (push garbage s).ignoring ≡ blocked (frames s)
  same_search =
      any_ignoring-blocked s.if_cmds (push garbage s).ignoring (push garbage s).seen_else
      ∙ ap blocked push-frames

  push_top : s.if_cmds < length (push garbage s).seen_else
  push_top = let p = push-IsValid garbage v in omega (arith, push-if_cmds, p.within, p.seen_else)

  pub push_room : s.if_cmds < length (push garbage s).ignoring
  push_room = let p = push-IsValid garbage v in omega (arith, push-if_cmds, p.within, p.ignoring)

  pub push_seen : get_or (push garbage s).seen_else s.if_cmds 0 ≡ 0
  unfolding push
  push_seen =
      let (same, count, room, room') = reserve-frames in
      let r = reserve garbage s in
      let g = grow garbage (record r { if_cmds = r.if_cmds + 1 }) in
      ap (λ i. get_or (push garbage s).seen_else i 0) (sym count)
      ∙ get_or-set_self g.seen_else r.if_cmds 0
          (omega (arith, count, push_top, length-set g.seen_else r.if_cmds 0))

  -- the stack behind a write at the new level
  pub pushed-frames :
      (x : ℕ)
      → frames (record (push garbage s) { ignoring = set (push garbage s).ignoring s.if_cmds x })
        ≡ frame x 0 ∷ frames s
  unfolding frames
  pushed-frames x =
      let p = push garbage s in
      rw (push-if_cmds, add-one)
        (unfold below in
          rw (
            get_or-set_self p.ignoring s.if_cmds x push_room,
            push_seen,
            below-set_ignoring s.if_cmds p.ignoring p.seen_else s.if_cmds x (omega arith),
            push-frames,
          ))

module _ (garbage : ℕ → ℕ) (expand : Bytes → Bytes) (lookup_variable : Bytes → Option Bytes) where
  -- An `ifdef`, `ifndef`, `ifeq` or `ifneq` on the stack: a level that is ignored, without a look at
  -- the condition, where some level is; else the level that the condition's outcome decides, and -1
  -- if the condition has none.
  abbrev pub opened : List Frame → Option (Bool × Bool) → View
  opened fs none = if blocked fs then shown ignore (frame 1 0 ∷ fs) 0 else lost
  opened fs (some (ignored, extra)) =
      if blocked fs
      then shown ignore (frame 1 0 ∷ fs) 0
      else settle (frame (bool_to_int ignored) 0 ∷ fs) (bool_to_int extra)

  module _ {s : Conditionals} (v : IsValid s) (d : Opening) (line : Bytes) where
    store-view :
        (o : Option (Bool × Bool))
        → blocked (frames s) ≡ false
        → view (store (push garbage s) s.if_cmds o) ≡ opened (frames s) o
    unfolding store
    store-view none e = rw e
    store-view (some (ignored, extra)) e = rw e (
        done-view _ (bool_to_int extra)
        ∙ ap (λ fs. settle fs (bool_to_int extra)) (pushed-frames garbage v (bool_to_int ignored)))

    opened-blocked :
        (o : Option (Bool × Bool))
        → blocked (frames s) ≡ true
        → opened (frames s) o ≡ shown ignore (frame 1 0 ∷ frames s) 0
    opened-blocked none e = rw e
    opened-blocked (some _) e = rw e

    -- Where the levels in use lie inside the arrays, a line that opens a conditional does this to the
    -- stack of levels, whatever fresh memory holds.
    pub open_line-opened :
        view (open_line garbage expand lookup_variable d s line)
        ≡ opened (frames s) (test_condition expand lookup_variable d line)
    unfolding open_line
    open_line-opened =
        let test = test_condition expand lookup_variable d line in
        elim (Bool-cases (blocked (frames s))) [
          | inl e ↦
              rw (same_search garbage v, e, pushed-frames garbage v 1) (sym (opened-blocked test e))
          | inr e ↦ rw (same_search garbage v, e) (store-view test e)
        ]
