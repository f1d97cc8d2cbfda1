-- ===== src/Shuffle/Count.antt =====
-- The shuffles of make-4.4/src/shuffle.c keep the elements of an array.
use gmake.Prelude.{
  ℕ, zero, suc, ◌+◌, ◌-◌, ◌%◌, ◌/◌, ◌≡◌, refl, ◌∙◌, Bool, true, false, List, [], ◌∷◌, some, ◌==◌,
  if◌then◌else◌, count, count-set, length, get_elem?, set, arith, inl, inr, Option-cases,
}
use gmake.Shuffle.{
  swap, make_rand, reverse_rounds, reverse_shuffle_array, identity_shuffle_array, random_rounds,
  random_shuffle_array, ShuffleMode, sm_random, sm_reverse, sm_identity, shuffler,
}
use gmake.Shuffle.Arrays.{length-swap, length-reverse_rounds}

module _ {ℓ} {A : Type ℓ} (test : A → Bool) where
  -- the second place of a swap, after the first write
  get_elem?-set :
      (a : List A) (i j : ℕ) (t u : A)
      → get_elem? a i ≡ some t
      → get_elem? a j ≡ some u
      → get_elem? (set a i u) j ≡ some u
  get_elem?-set [] i j t u e d = d
  get_elem?-set (x ∷ a) zero zero t u e d = refl
  get_elem?-set (x ∷ a) zero (suc j) t u e d = d
  get_elem?-set (x ∷ a) (suc i) zero t u e d = d
  get_elem?-set (x ∷ a) (suc i) (suc j) t u e d = get_elem?-set a i j t u e d

  count-swap : (a : List A) (i j : ℕ) → count test (swap a i j) ≡ count test a
  unfolding swap
  count-swap a i j = elim (Option-cases (get_elem? a i)) [
    | inl e ↦ rw (e, swap) refl
    | inr (t, e) ↦ elim (Option-cases (get_elem? a j)) [
      | inl d ↦ rw (e, d, swap) refl
      | inr (u, d) ↦
          rw (e, d, swap)
            (omega (
              arith,
              count-set test a i t u e,
              count-set test (set a i u) j u t (get_elem?-set a i j t u e d),
            ))
    ]
  ]

  count-reverse_rounds :
      (len rounds i : ℕ) (a : List A) → count test (reverse_rounds len rounds i a) ≡ count test a
  unfolding reverse_rounds
  count-reverse_rounds len zero i a = refl
  count-reverse_rounds len (suc rounds) i a =
      count-reverse_rounds len rounds (i + 1) (swap a i (len - 1 - i))
      ∙ count-swap a i (len - 1 - i)

  count-choice :
      (b : Bool) (a : List A) (i j : ℕ) → count test (if b then a else swap a i j) ≡ count test a
  count-choice true a i j = refl
  count-choice false a i j = count-swap a i j

  count-random_rounds :
      (seed len rounds i mk_state : ℕ) (a : List A)
      → count test (random_rounds seed len rounds i mk_state a).0 ≡ count test a
  unfolding random_rounds
  count-random_rounds seed len zero i mk_state a = refl
  count-random_rounds seed len (suc rounds) i mk_state a =
      count-random_rounds seed len rounds (i + 1) (make_rand seed mk_state) _
      ∙ count-choice (i == make_rand seed mk_state % len) a i (make_rand seed mk_state % len)

module _ {ℓ} {A : Type ℓ} where
  length-choice :
      (b : Bool) (a : List A) (i j : ℕ) → length (if b then a else swap a i j) ≡ length a
  length-choice true a i j = refl
  length-choice false a i j = length-swap a i j

  length-random_rounds :
      (seed len rounds i mk_state : ℕ) (a : List A)
      → length (random_rounds seed len rounds i mk_state a).0 ≡ length a
  unfolding random_rounds
  length-random_rounds seed len zero i mk_state a = refl
  length-random_rounds seed len (suc rounds) i mk_state a =
      length-random_rounds seed len rounds (i + 1) (make_rand seed mk_state) _
      ∙ length-choice (i == make_rand seed mk_state % len) a i (make_rand seed mk_state % len)

  pub shuffler-count :
      (seed mk_state : ℕ) (mode : ShuffleMode) (a : List A)
      → (length (shuffler seed mode mk_state a).0 ≡ length a)
        × ((test : A → Bool) → count test (shuffler seed mode mk_state a).0 ≡ count test a)
  unfolding shuffler random_shuffle_array reverse_shuffle_array identity_shuffle_array
  shuffler-count seed mk_state sm_identity a = (refl, λ test. refl)
  shuffler-count seed mk_state sm_reverse a = (
    length-reverse_rounds (length a) (length a / 2) 0 a,
    λ test. count-reverse_rounds test (length a) (length a / 2) 0 a,
  )
  shuffler-count seed mk_state sm_random a = (
    length-random_rounds seed (length a) (length a) 0 mk_state a,
    λ test. count-random_rounds test seed (length a) (length a) 0 mk_state a,
  )
