-- ===== src/Conditional/Safety.antt =====
-- The arrays of make-4.4/src/read.c, conditional_line: every level in use lies inside them, whatever
-- the lines are, and the returned verdict is what the levels in use say.
use gmake.Condition.{Opening, at}
use gmake.Text.{next_token}
use gmake.Conditional.{
  Conditionals, Directive, opening, c_else, c_endif, interpret, ignore, invalid, not_conditional,
  Result, fatal, returns, any_ignoring, done, endif_at, flip, fresh, reserve, grow, push, store,
  open_line, raise, merge, else_if, directive, else_at, conditional_at, conditional_line,
}
use gmake.Prelude.{
  ℕ, zero, suc, ◌+◌, ◌≤◌, ◌≡◌, refl, ap, Bool, Option, none, some, Bytes, arith, length, get_or,
  set, take, drop, ◌==◌, length-set, length-append, Bool-cases, ltb, ◌∙◌, inl, inr,
}

-- The levels in use lie inside the arrays.
pub record IsValid (s : Conditionals) : Type 0 where
  pub ignoring : length s.ignoring ≡ s.allocated
  pub seen_else : length s.seen_else ≡ s.allocated
  pub within : s.if_cmds ≤ s.allocated

-- What holds of the state that is returned.
abbrev pub Keeps : (Conditionals → Type 0) → Result → Type 0
Keeps P (fatal f) = Unit
Keeps P (returns v s n) = P s

module _ (garbage : ℕ → ℕ) where
  length-fresh : (i n : ℕ) → length (fresh garbage i n) ≡ n
  unfolding fresh
  length-fresh i zero = refl
  length-fresh i (suc n) = ap suc (length-fresh (i + 1) n)

  reserve-IsValid : {s : Conditionals} → IsValid s → IsValid (reserve garbage s)
  unfolding reserve
  reserve-IsValid v = ground arith

  grow-IsValid :
      (s : Conditionals)
      → length s.ignoring ≡ s.allocated
      → length s.seen_else ≡ s.allocated
      → s.if_cmds ≤ s.allocated + 1
      → IsValid (grow garbage s)
  unfolding grow
  grow-IsValid s hi hs h = elim (Bool-cases (ltb s.allocated s.if_cmds)) [
    | inl e ↦ rw e (record {
      ignoring = length-append s.ignoring _ ∙ omega (arith, length-fresh s.allocated 5);
      seen_else = length-append s.seen_else _ ∙ omega (arith, length-fresh s.allocated 5);
      within = omega arith;
    })
    | inr e ↦ rw e (record { ignoring = hi; seen_else = hs; within = ground arith })
  ]

  -- A new level lies inside the arrays.
  pub push-IsValid : {s : Conditionals} → IsValid s → IsValid (push garbage s)
  unfolding push
  push-IsValid {s} v =
      let r = reserve-IsValid v in
      let n = reserve garbage s in
      let g =
        grow-IsValid (record n { if_cmds = n.if_cmds + 1 }) r.ignoring r.seen_else
          (omega (arith, r.within)) in
      record {
        ignoring = g.ignoring;
        seen_else = length-set _ n.if_cmds 0 ∙ g.seen_else;
        within = g.within;
      }

pub set_ignoring-IsValid :
    {s : Conditionals} (o v : ℕ) → IsValid s → IsValid (record s { ignoring = set s.ignoring o v })
set_ignoring-IsValid {s} o v h = record {
  ignoring = length-set s.ignoring o v ∙ h.ignoring;
  seen_else = h.seen_else;
  within = h.within;
}

done-IsValid : {s : Conditionals} (n : ℕ) → IsValid s → Keeps IsValid (done s n)
unfolding done
done-IsValid {s} n h = elim (Bool-cases (any_ignoring s.if_cmds s.ignoring)) [
  | inl e ↦ rw (e, Keeps) h
  | inr e ↦ rw (e, Keeps) h
]

raise-IsValid : {s : Conditionals} (o : ℕ) → IsValid s → IsValid (raise o s)
unfolding raise
raise-IsValid {s} o h = elim (Bool-cases (ltb (get_or s.ignoring o 0) 2)) [
  | inl e ↦ rw e (record {
    ignoring = length-set s.ignoring o _ ∙ h.ignoring;
    seen_else = h.seen_else;
    within = omega (arith, h.within);
  })
  | inr e ↦
      rw e (record {
        ignoring = h.ignoring;
        seen_else = h.seen_else;
        within = omega (arith, h.within);
      })
]

store-IsValid :
    {s : Conditionals} (o : ℕ) (t : Option (Bool × Bool)) → IsValid s → Keeps IsValid (store s o t)
unfolding store
store-IsValid o none h = h
store-IsValid o (some (i, e)) h = done-IsValid _ (set_ignoring-IsValid o _ h)

merge-IsValid : (o : ℕ) (r : Result) → Keeps IsValid r → Keeps IsValid (merge o r)
unfolding merge
merge-IsValid o (fatal f) h = tt
merge-IsValid o (returns not_conditional s n) h = done-IsValid _ h
merge-IsValid o (returns invalid s n) h = done-IsValid _ h
merge-IsValid o (returns interpret s n) h = done-IsValid n (raise-IsValid o h)
merge-IsValid o (returns ignore s n) h = done-IsValid n (raise-IsValid o h)

endif_at-IsValid :
    {s : Conditionals} (depth n : ℕ)
    → depth ≤ s.if_cmds
    → IsValid s
    → Keeps IsValid (endif_at s depth n)
unfolding endif_at
endif_at-IsValid zero n le h = tt
endif_at-IsValid (suc depth) n le h =
    done-IsValid n
      (record { ignoring = h.ignoring; seen_else = h.seen_else; within = omega (arith, h.within) })

module _ (garbage : ℕ → ℕ) (expand : Bytes → Bytes) (lookup_variable : Bytes → Option Bytes) where
  open_line-IsValid :
      {s : Conditionals} (d : Opening) (line : Bytes)
      → IsValid s
      → Keeps IsValid (open_line garbage expand lookup_variable d s line)
  unfolding open_line
  open_line-IsValid {s} d line h =
      let p = push-IsValid garbage h in
      elim (Bool-cases (any_ignoring s.if_cmds (push garbage s).ignoring)) [
        | inl e ↦ rw (e, Keeps) (set_ignoring-IsValid s.if_cmds 1 p)
        | inr e ↦ rw (e, Keeps) (store-IsValid s.if_cmds _ p)
      ]

  else_if-IsValid :
      {s : Conditionals} (o : ℕ) (line : Bytes) (d : Option Directive)
      → IsValid s
      → Keeps IsValid (else_if garbage expand lookup_variable o s line d)
  unfolding else_if
  else_if-IsValid {s} o line none h = merge-IsValid o (returns not_conditional s 0) h
  else_if-IsValid o line (some c_else) h = done-IsValid 1 h
  else_if-IsValid o line (some c_endif) h = done-IsValid 1 h
  else_if-IsValid o line (some (opening d)) h = merge-IsValid o _ (open_line-IsValid d _ h)

  else_at-IsValid :
      {s : Conditionals} (line : Bytes) (depth : ℕ)
      → IsValid s
      → Keeps IsValid (else_at garbage expand lookup_variable s line depth)
  unfolding else_at
  else_at-IsValid line zero h = tt
  else_at-IsValid {s} line (suc o) h =
      let f = set_ignoring-IsValid o (flip (get_or s.ignoring o 0)) h in
      elim (Bool-cases (get_or s.seen_else o 0 == 0)) [
        | inr seen ↦ rw (seen, Keeps) tt
        | inl unseen ↦ elim (Bool-cases (at line == 0)) [
          | inl plain ↦
              rw (unseen, plain, Keeps)
                (done-IsValid 0 (record {
                  ignoring = f.ignoring;
                  seen_else = length-set s.seen_else o 1 ∙ f.seen_else;
                  within = f.within;
                }))
          | inr more ↦ rw (unseen, more, Keeps) (else_if-IsValid o line _ f)
        ]
      ]

  -- If the levels in use lie inside the arrays, they do so behind every line that make survives,
  -- whatever the line, the variables and the contents of fresh memory are.
  pub conditional_line-IsValid :
      {s : Conditionals} (line : Bytes) (len : ℕ)
      → IsValid s
      → Keeps IsValid (conditional_line garbage expand lookup_variable s line len)
  unfolding conditional_line
  conditional_line-IsValid {s} line len h =
      by_directive (directive (take len line)) (next_token (drop len line))
    where
      by_directive :
          (d : Option Directive) (rest : Bytes)
          → Keeps IsValid (conditional_at garbage expand lookup_variable s rest d)
      by_directive none rest = h
      by_directive (some c_endif) rest = endif_at-IsValid s.if_cmds _ (omega arith) h
      by_directive (some c_else) rest = else_at-IsValid rest s.if_cmds h
      by_directive (some (opening d)) rest = open_line-IsValid d rest h
