-- ===== src/Shuffle/Deps.antt =====
-- The order that shuffle_deps of make-4.4/src/shuffle.c gives to prerequisites.
use gmake.Prelude.{
  ℕ, zero, suc, ◌+◌, ◌≤◌, ◌<◌, ◌≡◌, refl, ◌∙◌, ap, true, false, List, [], ◌∷◌, none, some, ◌==◌,
  count, one, length, arith, inl, inr, Bool-cases,
}
use gmake.Shuffle.{ShuffleMode, shuffler, Dep, any_wait, places, write_back, shuffle_deps}
use gmake.Shuffle.Count.{shuffler-count}

-- the `shuf` fields that are set, from the first prerequisite on
abbrev pub order : List Dep → List ℕ
order [] = []
order (d ∷ deps) = elim d.shuf [ none ↦ order deps | some p ↦ p ∷ order deps ]

length-places : (i n : ℕ) → length (places i n) ≡ n
unfolding places
length-places i zero = refl
length-places i (suc n) = ap suc (length-places (i + 1) n)

count-places_below : (k i n : ℕ) → k < i → count (λ p. p == k) (places i n) ≡ 0
unfolding places count one
count-places_below k i zero h = refl
count-places_below k i (suc n) h =
    let other : (i == k) ≡ false = ground arith in
    rw other (let z = count-places_below k (i + 1) n (omega arith) in omega arith)

count-places : (k i n : ℕ) → i ≤ k → k < i + n → count (λ p. p == k) (places i n) ≡ 1
unfolding places count one
count-places k i zero h l = absurd (omega arith)
count-places k i (suc n) h l = elim (Bool-cases (i == k)) [
  | inl e ↦ rw e (let z = count-places_below k (i + 1) n (ground arith) in omega arith)
  | inr e ↦ rw e (let z = count-places k (i + 1) n (ground arith) (ground arith) in omega arith)
]

order-write_back :
    (deps : List Dep) (da : List ℕ) → length da ≡ length deps → order (write_back deps da) ≡ da
unfolding write_back
order-write_back [] [] h = refl
order-write_back [] (p ∷ da) h = absurd (omega arith)
order-write_back (d ∷ deps) [] h = absurd (omega arith)
order-write_back (d ∷ deps) (p ∷ da) h = ap (λ ps. p ∷ ps) (order-write_back deps da (omega arith))

-- Prerequisites, one at least, with no .WAIT among them are given an order in every mode, random or not: as many
-- places as there are prerequisites, and the place of each of them once. With a .WAIT, nothing
-- changes.
pub shuffle_deps-order :
    (seed mk_state : ℕ) (mode : ShuffleMode) (deps : List Dep)
    → 0 < length deps
    → (any_wait deps ≡ true → shuffle_deps seed mode mk_state deps ≡ (deps, mk_state))
      × (any_wait deps ≡ false
          → (length (order (shuffle_deps seed mode mk_state deps).0) ≡ length deps)
            × ((k : ℕ)
                → k < length deps
                → count (λ p. p == k) (order (shuffle_deps seed mode mk_state deps).0) ≡ 1))
unfolding shuffle_deps
shuffle_deps-order seed mk_state mode deps h =
    let da = (shuffler seed mode mk_state (places 0 (length deps))).0 in
    let kept = shuffler-count seed mk_state mode (places 0 (length deps)) in
    let n : length da ≡ length deps = kept.0 ∙ length-places 0 (length deps) in
    let filled : (length deps == 0) ≡ false = ground arith in
    let set_all = order-write_back deps da n in
    (
      λ e. rw e refl,
      λ e. (
        rw (e, filled) (ap length set_all ∙ n),
        λ k l.
            rw (e, filled)
              (ap (count (λ p. p == k)) set_all
                ∙ kept.1 (λ p. p == k)
                ∙ count-places k 0 (length deps) (omega arith) (omega arith)),
      ),
    )
