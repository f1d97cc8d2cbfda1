-- ===== src/Hash/Contents.antt =====
-- The items of a vector of make-4.4/src/hash.c, behind a write and before it.
use gmake.Hash.Valid.{Has, is_empty, is_item, counts-le}
use gmake.Hash.{Slot, empty, deleted, item}
use gmake.Prelude.{
  ℕ, zero, suc, ◌+◌, ◌<◌, ◌≡◌, ◌≢◌, ◌∙◌, ap, sym, ◌⊎◌, inl, inr, false, List, [], ◌∷◌, arith,
  Bool-cases, get_or, set, length, one, count, get_or-set_self, get_or-set_ne, ◌==◌,
}

module _ {ℓ} {A : Type ℓ} where
  pub Has-cons :
      (v : Slot A) (old : List (Slot A)) (x : A) → Has (v ∷ old) x → (v ≡ item x) ⊎ Has old x
  Has-cons v old x (zero, e) = inl e
  Has-cons v old x (suc i, e) = inr (i, e)

  pub not_item : (v : Slot A) (x : A) → is_item v ≡ false → v ≢ item x
  not_item v x e d = let t = ap is_item d in cc

  -- the items behind a write, and before it
  pub Has-set :
      (vec : List (Slot A)) (s : ℕ) (v : Slot A) (y : A)
      → s < length vec
      → Has (set vec s v) y
      → (v ≡ item y) ⊎ ((i : ℕ) × (s ≢ i) × (get_or vec i empty ≡ item y))
  Has-set vec s v y b (i, e) = elim (Bool-cases (s == i)) [
    | inl q ↦
        let here : s ≡ i = ground arith in
        inl
          (sym (get_or-set_self vec s v empty b) ∙ ap (λ j. get_or (set vec s v) j empty) here ∙ e)
    | inr q ↦
        let away : s ≢ i = ground arith in
        inr (i, away, sym (get_or-set_ne vec s i v empty away) ∙ e)
  ]

  pub set-Has :
      (vec : List (Slot A)) (s i : ℕ) (v : Slot A) (y : A)
      → s ≢ i
      → get_or vec i empty ≡ item y
      → Has (set vec s v) y
  set-Has vec s i v y away e = (i, get_or-set_ne vec s i v empty away ∙ e)

  pub set-Has_new :
      (vec : List (Slot A)) (s : ℕ) (x : A) → s < length vec → Has (set vec s (item x)) x
  set-Has_new vec s x b = (s, get_or-set_self vec s (item x) empty b)

  pub occupied_elsewhere :
      (vec : List (Slot A)) (s i : ℕ) (y : A)
      → get_or vec s empty ≡ empty
      → get_or vec i empty ≡ item y
      → s ≢ i
  occupied_elsewhere vec s i y e d same =
      let clash = sym e ∙ ap (λ j. get_or vec j empty) same ∙ d in cc

  pub deleted_loose :
      (vec : List (Slot A)) (s : ℕ)
      → get_or vec s empty ≡ deleted
      → count is_empty vec + count is_item vec < length vec
  unfolding count one
  deleted_loose [] s e = cc
  deleted_loose (empty ∷ vec) zero e = cc
  deleted_loose (deleted ∷ vec) zero e = omega (arith, counts-le vec)
  deleted_loose (item x ∷ vec) zero e = cc
  deleted_loose (empty ∷ vec) (suc s) e = omega (arith, deleted_loose vec s e)
  deleted_loose (deleted ∷ vec) (suc s) e = omega (arith, deleted_loose vec s e)
  deleted_loose (item x ∷ vec) (suc s) e = omega (arith, deleted_loose vec s e)
