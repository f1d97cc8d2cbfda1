-- ===== src/Hash/Rounds.antt =====
-- The rounds of the probe loop of make-4.4/src/hash.c: where it stops, and what it goes past.
use gmake.Hash.Probe.{Slot-cases}
use gmake.Hash.{
  Slot, empty, deleted, item, Hashing, first_deleted, matches, step_of, occupant, probe,
}
use native.Mathlib.Nat.{mod-lt}
use gmake.Prelude.{
  ℕ, zero, suc, ◌%◌, ◌^◌, ◌+◌, ◌<◌, ◌≡◌, ◌≢◌, refl, ◌∙◌, ap, sym, ◌⊎◌, inl, inr, true, false, List,
  Option, none, some, arith, ◌==◌, Bool-cases, get_or,
}

pub some_inj {ℓ} : {A : Type ℓ} {a b : A} → ◌≡◌ {A = Option A} (some a) (some b) → a ≡ b
some_inj {a} e = ap (λ o. elim o [ none ↦ a | some z ↦ z ]) e

module _ {ℓ} {A : Type ℓ} (h : Hashing A) where
  -- a slot that the loop for a key goes past
  unfoldable pub Passed : A → Slot A → Type ℓ
  Passed key s = (s ≡ deleted) ⊎ ((y : A) × (s ≡ item y) × (matches h key y ≡ false))

  -- the rounds of the loop, by the slot that they come to
  module _ (vec : List (Slot A)) (size : ℕ) (key : A) (rounds start : ℕ) where
    abbrev pub next_hash : ℕ
    next_hash = (start % size + step_of h key) % 2 ^ 32

    pub probe_empty :
        (del : Option ℕ)
        → get_or vec (start % size) empty ≡ empty
        → probe h vec size key (suc rounds) start del ≡ some (first_deleted del (start % size))
    unfolding probe
    probe_empty del e = rw (e, probe) refl

    pub probe_deleted :
        (del : Option ℕ)
        → get_or vec (start % size) empty ≡ deleted
        → probe h vec size key (suc rounds) start del
          ≡ probe h vec size key rounds next_hash (some (first_deleted del (start % size)))
    unfolding probe
    probe_deleted del e = rw (e, probe) refl

    pub probe_match :
        (del : Option ℕ) (x : A)
        → get_or vec (start % size) empty ≡ item x
        → matches h key x ≡ true
        → probe h vec size key (suc rounds) start del ≡ some (start % size)
    unfolding probe
    probe_match del x e m = rw (e, m, probe) refl

    pub probe_mismatch :
        (del : Option ℕ) (x : A)
        → get_or vec (start % size) empty ≡ item x
        → matches h key x ≡ false
        → probe h vec size key (suc rounds) start del ≡ probe h vec size key rounds next_hash del
    unfolding probe
    probe_mismatch del x e m = rw (e, m, probe) refl

    -- a slot that the loop goes past
    probe-Passed :
        (r : Option ℕ)
        → Passed key (get_or vec (start % size) empty)
        → ((del : Option ℕ) → probe h vec size key rounds next_hash del ≡ r)
        → (del : Option ℕ) → probe h vec size key (suc rounds) start del ≡ r
    unfolding Passed
    probe-Passed r p later del = elim p [
      | inl e ↦ probe_deleted del e ∙ later _
      | inr (y, e, m) ↦ probe_mismatch del y e m ∙ later del
    ]

  first_deleted_ne :
      (del : Option ℕ) (p i : ℕ) → del ≢ some i → p ≢ i → some (first_deleted del p) ≢ some i
  first_deleted_ne none p i n m e = m (cc)
  first_deleted_ne (some d) p i n m e = n e

  -- What the loop finds at a slot, it finds there in another vector too, if the key is there and
  -- the loop goes past each slot that it went past.
  pub probe_kept :
      (vec vec' : List (Slot A)) (size : ℕ) (key x : A) (i : ℕ)
      → get_or vec' i empty ≡ item x
      → matches h key x ≡ true
      → ((p : ℕ) → p ≢ i → Passed key (get_or vec p empty) → Passed key (get_or vec' p empty))
      → (rounds start : ℕ) (del : Option ℕ) → del ≢ some i
      → probe h vec size key rounds start del ≡ some i
      → (del' : Option ℕ) → probe h vec' size key rounds start del' ≡ some i
  probe_kept vec vec' size key x i at m same zero start del n e del' = unfold probe in cc
  probe_kept vec vec' size key x i at m same (suc rounds) start del n e del' =
      let p = start % size in
      let later =
        probe_kept vec vec' size key x i at m same rounds (next_hash vec size key rounds start) in
      elim (Bool-cases (p == i)) [
        | inl q ↦
            let there : p ≡ i = ground arith in
            probe_match vec' size key rounds start del' x (ap (λ s. get_or vec' s empty) there ∙ at)
              m
            ∙ ap some there
        | inr q ↦
            let away : p ≢ i = ground arith in
            elim (Slot-cases (get_or vec p empty)) [
              | inl s ↦ absurd (
                  first_deleted_ne del p i n away
                    (sym (probe_empty vec size key rounds start del s) ∙ e))
              | inr (inl s) ↦
                  probe-Passed vec' size key rounds start (some i)
                    (same p away (unfold Passed in inl s))
                    (later (some (first_deleted del p)) (first_deleted_ne del p i n away)
                      (sym (probe_deleted vec size key rounds start del s) ∙ e))
                    del'
              | inr (inr (y, s)) ↦ elim (Bool-cases (matches h key y)) [
                | inl t ↦
                    absurd
                      (away (some_inj (sym (probe_match vec size key rounds start del y s t) ∙ e)))
                | inr t ↦
                    probe-Passed vec' size key rounds start (some i)
                      (same p away (unfold Passed in inr (y, s, t)))
                      (later del n (sym (probe_mismatch vec size key rounds start del y s t) ∙ e))
                      del'
              ]
            ]
      ]

  -- where the loop stops: at the key, or at a vacant slot
  unfoldable pub Stops : List (Slot A) → A → ℕ → Type ℓ
  Stops vec key s =
      ((x : A) × (get_or vec s empty ≡ item x) × (matches h key x ≡ true))
      ⊎ (occupant (get_or vec s empty) ≡ none)

  unfoldable pub Vacant : List (Slot A) → Option ℕ → Type ℓ
  Vacant vec none = Unit
  Vacant vec (some d) = occupant (get_or vec d empty) ≡ none

  first_deleted-Vacant :
      (vec : List (Slot A)) (del : Option ℕ) (p : ℕ)
      → Vacant vec del
      → occupant (get_or vec p empty) ≡ none
      → occupant (get_or vec (first_deleted del p) empty) ≡ none
  unfolding Vacant
  first_deleted-Vacant vec none p v e = e
  first_deleted-Vacant vec (some d) p v e = v

  pub probe-Stops :
      (vec : List (Slot A)) (size : ℕ) (key : A) (rounds start : ℕ) (del : Option ℕ) (s : ℕ)
      → Vacant vec del
      → probe h vec size key rounds start del ≡ some s
      → Stops vec key s
  probe-Stops vec size key zero start del s v e = unfold probe in cc
  probe-Stops vec size key (suc rounds) start del s v e =
      let p = start % size in
      elim (Slot-cases (get_or vec p empty)) [
        | inl q ↦
            let gone : occupant (get_or vec p empty) ≡ none = unfold occupant in ap occupant q in
            let same = some_inj (sym (probe_empty vec size key rounds start del q) ∙ e) in
            unfold Stops in inr (rw (sym same) (first_deleted-Vacant vec del p v gone))
        | inr (inl q) ↦
            let gone : occupant (get_or vec p empty) ≡ none = unfold occupant in ap occupant q in
            probe-Stops vec size key rounds _ (some (first_deleted del p)) s
              (unfold Vacant in first_deleted-Vacant vec del p v gone)
              (sym (probe_deleted vec size key rounds start del q) ∙ e)
        | inr (inr (y, q)) ↦ elim (Bool-cases (matches h key y)) [
          | inl t ↦
              let same = some_inj (sym (probe_match vec size key rounds start del y q t) ∙ e) in
              unfold Stops in inl (y, rw (sym same) q, t)
          | inr t ↦
              probe-Stops vec size key rounds _ del s v
                (sym (probe_mismatch vec size key rounds start del y q t) ∙ e)
        ]
      ]

  unfoldable pub Within : ℕ → Option ℕ → Type 0
  Within size none = Unit
  Within size (some d) = d < size

  first_deleted-Within :
      (size p : ℕ) (del : Option ℕ) → p < size → Within size del → first_deleted del p < size
  unfolding Within
  first_deleted-Within size p none h w = h
  first_deleted-Within size p (some d) h w = w

  pub probe-lt :
      (vec : List (Slot A)) (size : ℕ) (key : A) (rounds start : ℕ) (del : Option ℕ) (s : ℕ)
      → 0 < size
      → Within size del
      → probe h vec size key rounds start del ≡ some s
      → s < size
  probe-lt vec size key zero start del s b w e = unfold probe in cc
  probe-lt vec size key (suc rounds) start del s b w e =
      let p = start % size in
      let low : p < size = mod-lt start b in
      let back = first_deleted-Within size p del low w in
      elim (Slot-cases (get_or vec p empty)) [
        | inl q ↦
            let same = some_inj (sym (probe_empty vec size key rounds start del q) ∙ e) in
            rw (sym same) back
        | inr (inl q) ↦
            probe-lt vec size key rounds _ (some (first_deleted del p)) s b (unfold Within in back)
              (sym (probe_deleted vec size key rounds start del q) ∙ e)
        | inr (inr (y, q)) ↦ elim (Bool-cases (matches h key y)) [
          | inl t ↦
              let same = some_inj (sym (probe_match vec size key rounds start del y q t) ∙ e) in
              rw (sym same) low
          | inr t ↦
              probe-lt vec size key rounds _ del s b w
                (sym (probe_mismatch vec size key rounds start del y q t) ∙ e)
        ]
      ]
