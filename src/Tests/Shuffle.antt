-- ===== src/Tests/Shuffle.antt =====
-- The shuffles at concrete arrays and prerequisites.
use gmake.Prelude.{ℕ, ◌<◌, ◌≡◌, refl, true, false, List, [], ◌∷◌, none, ◌==◌, count, length, arith}
use gmake.Shuffle.{
  sm_random, sm_reverse, reverse_shuffle_array, make_rand, Dep, any_wait, shuffle_deps,
}
use gmake.Shuffle.Deps.{order, shuffle_deps-order}

abbrev digits : List ℕ
digits = 1 ∷ 2 ∷ 3 ∷ 4 ∷ 5 ∷ []

reverse_run : reverse_shuffle_array digits ≡ 5 ∷ 4 ∷ 3 ∷ 2 ∷ 1 ∷ []
unfolding reverse_shuffle_array
reverse_run = refl

make_rand_run : make_rand 0 1 ≡ 270369
unfolding make_rand
make_rand_run = refl

abbrev no_wait : Dep
no_wait = record { wait_here = false; shuf = none }

abbrev three_deps : List Dep
three_deps = no_wait ∷ no_wait ∷ no_wait ∷ []

reverse_deps_run : order (shuffle_deps 0 sm_reverse 1 three_deps).0 ≡ 2 ∷ 1 ∷ 0 ∷ []
unfolding shuffle_deps
reverse_deps_run = refl

shuffle_deps-order_example :
    (any_wait three_deps ≡ true → shuffle_deps 0 sm_random 7 three_deps ≡ (three_deps, 7))
    × (any_wait three_deps ≡ false
        → (length (order (shuffle_deps 0 sm_random 7 three_deps).0) ≡ length three_deps)
          × ((k : ℕ)
              → k < length three_deps
              → count (λ p. p == k) (order (shuffle_deps 0 sm_random 7 three_deps).0) ≡ 1))
shuffle_deps-order_example = shuffle_deps-order 0 7 sm_random three_deps (omega arith)
