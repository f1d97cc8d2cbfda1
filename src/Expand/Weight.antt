-- ===== src/Expand/Weight.antt =====
-- What the expansions of make-4.4/src/expand.c use up: each variable can be entered as often as its flag and its count
-- of permitted self-references say.
use gmake.Hash.Rounds.{some_inj}
use gmake.Expand.{lookup_place, leave, entered}
use gmake.Expand.Calls.{NoCall}
use gmake.Prelude.{
  ℕ, zero, suc, ◌+◌, ◌-◌, ◌≤◌, ◌<◌, ◌≡◌, refl, ◌∙◌, ap, sym, inl, inr, Bool, false, ◌&&◌, List, [],
  ◌∷◌, some, Bytes, ◌==◌, ◌=?◌, if◌then◌else◌, arith, length, set, get_elem?, All, Bool-cases,
  Option-cases,
}
use gmake.Variables.{Variable}

unfoldable pub entries : Variable → ℕ
entries v = if v.expanding then v.exp_count else suc v.exp_count

unfoldable pub weight : List Variable → ℕ
weight [] = 0
weight (v ∷ vars) = entries v + weight vars

-- what an expansion reads of a variable
abbrev pub shape : Variable → Bytes × Bool
shape v = (v.value, v.append)

-- the same values and append flags, and no more entries left; and the same variable where it may not refer to itself
unfoldable pub Lighter : List Variable → List Variable → Type 0
Lighter [] [] = Unit
Lighter [] (u ∷ us) = ⊥
Lighter (v ∷ vs) [] = ⊥
Lighter (v ∷ vs) (u ∷ us) =
    (entries v ≤ entries u) × (shape v ≡ shape u) × (u.exp_count ≡ 0 → v ≡ u) × Lighter vs us

-- The value is no longer than `most` and calls no function, and the variable does not append to one of another scope.
abbrev pub IsPlain : List Bytes → ℕ → Bytes × Bool → Type 0
IsPlain table most (value, append) = (length value ≤ most) × NoCall table value × (append ≡ false)

abbrev pub Fits : List Bytes → ℕ → List Variable → Type 0
Fits table most = All (λ v. IsPlain table most (shape v))

pub IsPlain-same :
    (table : List Bytes) (most : ℕ) (x y : Bytes × Bool)
    → x ≡ y
    → IsPlain table most x
    → IsPlain table most y
IsPlain-same table most x y e plain = rw (← e) plain

pub Lighter-refl : (vs : List Variable) → Lighter vs vs
unfolding Lighter
Lighter-refl [] = tt
Lighter-refl (v ∷ vs) = (omega arith, refl, λ _. refl, Lighter-refl vs)

pub Lighter-trans : (us vs ws : List Variable) → Lighter us vs → Lighter vs ws → Lighter us ws
unfolding Lighter
Lighter-trans [] [] [] p q = tt
Lighter-trans [] [] (w ∷ ws) p q = elim q [ ]
Lighter-trans [] (v ∷ vs) ws p q = elim p [ ]
Lighter-trans (u ∷ us) [] ws p q = elim p [ ]
Lighter-trans (u ∷ us) (v ∷ vs) [] p q = elim q [ ]
Lighter-trans (u ∷ us) (v ∷ vs) (w ∷ ws) (a, e, k, p) (b, d, l, q) = (
  omega arith,
  e ∙ d,
  λ z. k (ap (λ x. Variable.exp_count x) (l z) ∙ z) ∙ l z,
  Lighter-trans us vs ws p q,
)

pub weight-le : (vs us : List Variable) → Lighter vs us → weight vs ≤ weight us
unfolding Lighter weight
weight-le [] [] p = omega arith
weight-le [] (u ∷ us) p = elim p [ ]
weight-le (v ∷ vs) [] p = elim p [ ]
weight-le (v ∷ vs) (u ∷ us) (a, e, k, p) = omega (arith, weight-le vs us p)

pub Lighter-Fits :
    (table : List Bytes) (most : ℕ) (vs us : List Variable)
    → Lighter vs us
    → Fits table most us
    → Fits table most vs
unfolding Lighter
Lighter-Fits table most [] [] p fits = tt
Lighter-Fits table most [] (u ∷ us) p fits = elim p [ ]
Lighter-Fits table most (v ∷ vs) [] p fits = elim p [ ]
Lighter-Fits table most (v ∷ vs) (u ∷ us) (a, e, k, p) (b, fits) =
    (IsPlain-same table most (shape u) (shape v) (sym e) b, Lighter-Fits table most vs us p fits)

pub lookup_place-get :
    (name : Bytes) (vars : List Variable) (place : ℕ) (v : Variable)
    → lookup_place name vars ≡ some (place, v)
    → get_elem? vars place ≡ some v
unfolding lookup_place
lookup_place-get name [] place v e = cc
lookup_place-get name (u ∷ vars) place v e = elim (Bool-cases (u.name =? name)) [
  | inl t ↦
      let found = some_inj (rw t at e) in
      ap (get_elem? (u ∷ vars)) (sym (ap (λ p. p.0) found)) ∙ ap (λ p. some p.1) found
  | inr t ↦ elim (Option-cases (lookup_place name vars)) [
    | inl none_there ↦ let lost = rw (t, none_there) at e in cc
    | inr ((i, w), there) ↦
        let found = some_inj (rw (t, there) at e) in
        ap (get_elem? (u ∷ vars)) (sym (ap (λ p. p.0) found))
        ∙ lookup_place-get name vars i w there
        ∙ ap (λ p. some p.1) found
  ]
]

-- A variable may be entered where it is not being expanded, or may refer to itself once more.
abbrev pub MayEnter : Variable → Type 0
MayEnter v = (v.expanding && v.exp_count == 0) ≡ false

entries-entered : (v : Variable) → MayEnter v → entries (entered v) < entries v
unfolding entries entered
entries-entered v may = ground arith

entries-leave :
    (a v : Variable)
    → MayEnter v
    → entries a ≤ entries (entered v)
    → entries (record a { expanding = false }) ≤ entries v
unfolding entries entered
entries-leave a v may b = ground arith

abbrev cleared : Variable → ℕ → Variable
cleared v n = record v { expanding = false; exp_count = n }

abbrev cleared_to : Variable → Bool → Variable
cleared_to v b = record v { expanding = b }

left-back :
    (a v : Variable)
    → MayEnter v
    → ((entered v).exp_count ≡ 0 → a ≡ entered v)
    → v.exp_count ≡ 0
    → record a { expanding = false } ≡ v
unfolding entered
left-back a v may k z =
    let off : v.expanding ≡ false = ground arith in
    let count : (if v.expanding then v.exp_count - 1 else v.exp_count) ≡ v.exp_count =
      rw off refl in
    ap (λ (w : Variable). record w { expanding = false }) (k (count ∙ z))
    ∙ ap (λ n. cleared v n) count
    ∙ ap (λ b. cleared_to v b) (sym off)

pub weight-entered :
    (place : ℕ) (vars : List Variable) (v : Variable)
    → get_elem? vars place ≡ some v
    → MayEnter v
    → weight (set vars place (entered v)) < weight vars
unfolding weight
weight-entered place [] v at may = cc
weight-entered zero (u ∷ vars) v at may =
    let same = ap entries (some_inj at) in omega (arith, entries-entered v may)
weight-entered (suc place) (u ∷ vars) v at may = omega (arith, weight-entered place vars v at may)

pub Fits-entered :
    (table : List Bytes) (most place : ℕ) (vars : List Variable) (v : Variable)
    → get_elem? vars place ≡ some v
    → Fits table most vars
    → Fits table most (set vars place (entered v))
unfolding entered
Fits-entered table most place [] v at fits = tt
Fits-entered table most zero (u ∷ vars) v at (b, fits) =
    let same = ap shape (some_inj at) in (IsPlain-same table most (shape u) (shape v) same b, fits)
Fits-entered table most (suc place) (u ∷ vars) v at (b, fits) =
    (b, Fits-entered table most place vars v at fits)

pub leave-Lighter :
    (place : ℕ) (vars after : List Variable) (v : Variable)
    → get_elem? vars place ≡ some v
    → MayEnter v
    → Lighter after (set vars place (entered v))
    → Lighter (leave place after) vars
unfolding Lighter leave
leave-Lighter place [] after v at may light = cc
leave-Lighter zero (u ∷ vars) (a ∷ after) v at may (b, e, k, light) =
    let same = some_inj at in
    let value : shape a ≡ shape u = unfold entered in e ∙ sym (ap shape same) in
    let fewer = entries-leave a v may b in
    let whole = ap entries same in
    (
      omega arith,
      value,
      λ z. left-back a v may k (ap (λ w. Variable.exp_count w) (sym same) ∙ z) ∙ sym same,
      light,
    )
leave-Lighter zero (u ∷ vars) [] v at may light = elim light [ ]
leave-Lighter (suc place) (u ∷ vars) [] v at may light = elim light [ ]
leave-Lighter (suc place) (u ∷ vars) (a ∷ after) v at may (b, e, k, light) =
    (b, e, k, leave-Lighter place vars after v at may light)
