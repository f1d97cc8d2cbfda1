-- ===== src/Hash/Probe.antt =====
-- The probe loop of make-4.4/src/hash.c: where it stops, and that a write elsewhere does not matter.
use gmake.Hash.Cycle.{pow2, probe_covers, mod-word}
use gmake.Hash.{
  Slot, empty, deleted, item, Hashing, first_deleted, make_odd, matches, step_of, probe,
}
use gmake.Prelude.{
  ℕ, zero, suc, ◌+◌, ◌*◌, ◌%◌, ◌^◌, ◌≤◌, ◌<◌, ◌≡◌, refl, ◌∙◌, ap, sym, ◌⊎◌, inl, inr, true, List,
  Option, none, some, arith, Bool-cases, get_or,
}
use native.Mathlib.Nat.{mod-add-mod}

-- What the functions of a table promise: the comparison is an equivalence, equal items have equal
-- hashes, and one pointer is equal to itself.
pub record IsHashing {ℓ} {A : Type ℓ} (h : Hashing A) : Type ℓ where
  pub equal_refl : (x : A) → h.compare_eq x x ≡ true
  pub equal_sym : (x y : A) → h.compare_eq x y ≡ true → h.compare_eq y x ≡ true
  pub equal_trans :
      (x y z : A) → h.compare_eq x y ≡ true → h.compare_eq y z ≡ true → h.compare_eq x z ≡ true
  pub equal-hash_1 : (x y : A) → h.compare_eq x y ≡ true → h.hash_1 x ≡ h.hash_1 y
  pub equal-hash_2 : (x y : A) → h.compare_eq x y ≡ true → h.hash_2 x ≡ h.hash_2 y
  pub same_equal : (x y : A) → h.same_pointer x y ≡ true → h.compare_eq x y ≡ true

pub Slot-cases {ℓ} :
    {A : Type ℓ} (s : Slot A) → (s ≡ empty) ⊎ (s ≡ deleted) ⊎ ((x : A) × (s ≡ item x))
Slot-cases empty = inl refl
Slot-cases deleted = inr (inl refl)
Slot-cases (item x) = inr (inr (x, refl))

make_odd_odd : (n : ℕ) → make_odd n % 2 ≡ 1
make_odd_odd n = omega arith

module _ {ℓ} {A : Type ℓ} (h : Hashing A) where
  -- the slot of round j, from a value of hash_1
  pub place : ℕ → A → ℕ → ℕ → ℕ
  place size key hash_1 zero = hash_1 % size
  place size key hash_1 (suc j) = place size key ((hash_1 % size + step_of h key) % 2 ^ 32) j

  place_lem :
      (k : ℕ) (key : A) (start j : ℕ)
      → k ≤ 32
      → place (pow2 k) key start j ≡ (start + j * step_of h key) % pow2 k
  unfolding place
  place_lem k key start zero b = ap (λ x. x % pow2 k) (omega arith)
  place_lem k key start (suc j) b =
      let n = pow2 k in
      let d = step_of h key in
      let next = start % n + d in
      let regroup : (x : ℕ) → x + d + j * d ≡ x + suc j * d = λ x. grind arith in
      place_lem k key (next % 2 ^ 32) j b
      ∙ sym (mod-add-mod (next % 2 ^ 32) n (j * d))
      ∙ ap (λ r. (r + j * d) % n) (mod-word k next b)
      ∙ mod-add-mod next n (j * d)
      ∙ ap (λ x. x % n) (regroup (start % n))
      ∙ mod-add-mod start n (suc j * d)

  -- a loop that comes to an empty slot returns
  probe_ends :
      (vec : List (Slot A)) (size : ℕ) (key : A) (rounds j start : ℕ) (del : Option ℕ)
      → j < rounds
      → get_or vec (place size key start j) empty ≡ empty
      → (s : ℕ) × (probe h vec size key rounds start del ≡ some s)
  unfolding place probe
  probe_ends vec size key zero j start del b e = absurd (omega arith)
  probe_ends vec size key (suc rounds) zero start del b e =
      let p : get_or vec (start % size) empty ≡ empty = e in
      (first_deleted del (start % size), rw (p, probe) refl)
  probe_ends vec size key (suc rounds) (suc j) start del b e =
      let next = (start % size + step_of h key) % 2 ^ 32 in
      elim (Slot-cases (get_or vec (start % size) empty)) [
        | inl p ↦ (first_deleted del (start % size), rw (p, probe) refl)
        | inr (inl p) ↦
            let (s, r) =
              probe_ends vec size key rounds j next (some (first_deleted del (start % size)))
                (omega arith) e in
            (s, rw (p, probe) r)
        | inr (inr (x, p)) ↦ elim (Bool-cases (matches h key x)) [
          | inl m ↦ (start % size, rw (p, m, probe) refl)
          | inr m ↦
              let (s, r) = probe_ends vec size key rounds j next del (omega arith) e in
              (s, rw (p, m, probe) r)
        ]
      ]

  -- With an empty slot anywhere, the loop returns.
  pub probe_returns :
      (k : ℕ) (vec : List (Slot A)) (key : A) (start e : ℕ)
      → k ≤ 32
      → e < pow2 k
      → get_or vec e empty ≡ empty
      → (s : ℕ) × (probe h vec (pow2 k) key (pow2 k) start none ≡ some s)
  probe_returns k vec key start e b small at_e =
      let (j, bound, there) = probe_covers k (step_of h key) start e (make_odd_odd _) small in
      probe_ends vec (pow2 k) key (pow2 k) j start none bound
        (ap (λ i. get_or vec i empty) (place_lem k key start j b ∙ there) ∙ at_e)
