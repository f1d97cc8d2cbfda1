-- ===== src/Scopes/Search.antt =====
-- The loop of lookup_variable in make-4.4/src/variable.c: the innermost definition that is visible.
use gmake.Hash.Lookup.{find_item-Holds}
use gmake.Hash.Rounds.{some_inj}
use gmake.Hash.Valid.{IsValid}
use gmake.Prelude.{
  ℕ, zero, suc, ◌+◌, ◌<◌, ◌≡◌, refl, ◌∙◌, ap, sym, inl, inr, Bool, true, false, ◌||◌, List, [], ◌∷◌,
  Option, none, some, Bytes, arith, Bool-cases, get_elem?,
}
use gmake.Scopes.{Scope, is_visible, search_scopes}
use gmake.Variables.{Variable, VariableSet, naming, variable_key, lookup_variable_in_set}
use gmake.Variables.Define.{naming-IsHashing}

unfoldable pub AllValid : List Scope → Type 0
AllValid [] = Unit
AllValid (s ∷ rest) = IsValid naming s.set.table × AllValid rest

-- a set before this place leads to a parent target
unfoldable pub behind_parent : Bool → ℕ → List Scope → Bool
behind_parent is_parent zero scopes = is_parent
behind_parent is_parent (suc place) [] = is_parent
behind_parent is_parent (suc place) (s ∷ rest) =
    behind_parent (is_parent || s.next_is_parent) place rest

-- the set at this place has no visible definition of the name
abbrev pub Hidden : Bool → List Scope → Bytes → ℕ → Type 0
Hidden is_parent scopes name j =
    (s : Scope) (u : Variable)
    → get_elem? scopes j ≡ some s
    → lookup_variable_in_set name s.set ≡ some (some u)
    → is_visible (behind_parent is_parent j scopes) u ≡ false

-- what the loop is to find
unfoldable pub Innermost : Bool → List Scope → Bytes → Option (ℕ × Variable) → Type 0
Innermost is_parent scopes name none = (j : ℕ) → Hidden is_parent scopes name j
Innermost is_parent scopes name (some (place, v)) =
    ((s : Scope) × (get_elem? scopes place ≡ some s)
      × (lookup_variable_in_set name s.set ≡ some (some v)))
    × (is_visible (behind_parent is_parent place scopes) v ≡ true)
    × ((j : ℕ) → j < place → Hidden is_parent scopes name j)

-- the place counts from the first of the list
abbrev pub shifted : ℕ → Option (ℕ × Variable) → Option (ℕ × Variable)
shifted start none = none
shifted start (some (place, v)) = some (start + place, v)

looked_up :
    (s : VariableSet) (name : Bytes)
    → IsValid naming s.table
    → (r : Option Variable) × (lookup_variable_in_set name s ≡ some r)
unfolding lookup_variable_in_set
looked_up s name valid =
    let (r, run, _) = find_item-Holds naming naming-IsHashing s.table (variable_key name) valid in
    (r, run)

nothing_first :
    (is_parent : Bool) (s : Scope) (rest : List Scope) (name : Bytes) (r : Option Variable)
    → lookup_variable_in_set name s.set ≡ some r
    → ((u : Variable) → r ≡ some u → is_visible is_parent u ≡ false)
    → Hidden is_parent (s ∷ rest) name 0
unfolding behind_parent
nothing_first is_parent s rest name r run hides t u here found =
    let same : s ≡ t = some_inj here in
    hides u (some_inj (sym run ∙ ap (λ x. lookup_variable_in_set name (Scope.set x)) same ∙ found))

-- a first set with no visible definition
pass_first :
    (is_parent : Bool) (s : Scope) (rest : List Scope) (name : Bytes) (start : ℕ)
    (r : Option (ℕ × Variable))
    → Hidden is_parent (s ∷ rest) name 0
    → Innermost (is_parent || s.next_is_parent) rest name r
    → (q : Option (ℕ × Variable)) × (shifted (suc start) r ≡ shifted start q)
      × Innermost is_parent (s ∷ rest) name q
unfolding Innermost behind_parent
pass_first is_parent s rest name start none first later = (
  none,
  refl,
  λ j. elim j as (λ j. Hidden is_parent (s ∷ rest) name j) [ zero ↦ first | suc j ↦ later j ],
)
pass_first is_parent s rest name start (some (place, v)) first (here, seen, later) = (
  some (suc place, v),
  ap (λ n. some (n, v)) (omega arith),
  (
    here,
    seen,
    λ j. elim j as (λ j. j < suc place → Hidden is_parent (s ∷ rest) name j) [
      | zero ↦ λ low. first
      | suc j ↦ λ low. later j (omega arith)
    ],
  ),
)

searched :
    (is_parent : Bool) (scopes : List Scope) (name : Bytes) (start : ℕ)
    → AllValid scopes
    → (r : Option (ℕ × Variable)) × (search_scopes is_parent scopes name start
        ≡ some (shifted start r))
      × Innermost is_parent scopes name r
unfolding search_scopes AllValid Innermost
searched is_parent [] name start valid = (none, refl, λ j s u e. cc)
searched is_parent (s ∷ rest) name start (valid, others) =
    let (here, run) = looked_up s.set name valid in
    let (further, more, later) =
      searched (is_parent || s.next_is_parent) rest name (suc start) others in
    elim here
        as (λ here.
          lookup_variable_in_set name s.set ≡ some here
          → (r : Option (ℕ × Variable)) × (search_scopes is_parent (s ∷ rest) name start
              ≡ some (shifted start r))
            × Innermost is_parent (s ∷ rest) name r) [
              | none ↦ λ run.
                  let (q, shift, inner) =
                    pass_first is_parent s rest name start further
                      (nothing_first is_parent s rest name none run (λ u e. cc)) later in
                  (q, rw (run, search_scopes) (more ∙ ap some shift), inner)
              | some v ↦ λ run. elim (Bool-cases (is_visible is_parent v)) [
                | inl t ↦ (
                  some (0, v),
                  rw (run, search_scopes) rw t (ap (λ n. some (some (n, v))) (omega arith)),
                  ((s, refl, run), unfold behind_parent in t, λ j low. absurd (omega arith)),
                )
                | inr t ↦
                    let (q, shift, inner) =
                      pass_first is_parent s rest name start further
                        (nothing_first is_parent s rest name (some v) run
                          (λ u e. rw (some_inj (sym e)) t))
                        later in
                    (q, rw (run, search_scopes) rw t (more ∙ ap some shift), inner)
              ]
            ]
      run

shifted_zero : (r : Option (ℕ × Variable)) → shifted 0 r ≡ r
shifted_zero none = refl
shifted_zero (some (place, v)) = ap (λ n. some (n, v)) (omega arith)

-- In a list of valid sets, lookup_variable returns from its loop: with a definition of the name that is visible, where
-- no set before has one, or with none where no set has one. A definition is visible unless it is private and a set
-- before it leads to a parent target.
pub search_scopes-Innermost :
    (scopes : List Scope) (name : Bytes)
    → AllValid scopes
    → (r : Option (ℕ × Variable)) × (search_scopes false scopes name 0 ≡ some r)
      × Innermost false scopes name r
search_scopes-Innermost scopes name valid =
    let (r, run, inner) = searched false scopes name 0 valid in
    (r, run ∙ ap some (shifted_zero r), inner)
