-- ===== src/Prelude/Counts.antt =====
-- How many elements of a list pass a test.
use Prim.Native.Nat.{ℕ, zero, suc, ◌+◌}
use mathlib.Core.Bool.{Bool, true, false}
use mathlib.Core.List.{List, [], ◌∷◌}
use mathlib.Core.Option.{some}
use mathlib.Core.Path.{◌≡◌}
use native.Mathlib.Omega.{arith}
use gmake.Prelude.Lists.{get_elem?, set}

unfoldable pub one : Bool → ℕ
one true = 1
one false = 0

-- how many elements pass a test
unfoldable pub count {ℓ} : {A : Type ℓ} → (A → Bool) → List A → ℕ
unfolding one
count test [] = 0
count test (x ∷ xs) = one (test x) + count test xs

module _ {ℓ} {A : Type ℓ} (test : A → Bool) where
  pub count-set :
      (a : List A) (i : ℕ) (t u : A)
      → get_elem? a i ≡ some t
      → count test (set a i u) + one (test t) ≡ count test a + one (test u)
  unfolding count
  count-set [] i t u e = cc
  count-set (x ∷ a) zero t u e = let p : x ≡ t = cc in rw p (omega arith)
  count-set (x ∷ a) (suc i) t u e = omega (arith, count-set a i t u e)
