-- ===== src/Hash/Found.antt =====
-- The invariant that the probe loop of make-4.4/src/hash.c lives by: every item is found where it is.
use gmake.Hash.Probe.{IsHashing, Slot-cases}
use gmake.Hash.Rounds.{
  Passed, probe_kept, probe_empty, probe_deleted, probe_match, probe_mismatch, next_hash, some_inj,
}
use gmake.Hash.{
  Slot, empty, deleted, item, Hashing, first_deleted, make_odd, matches, step_of, probe, calloc,
}
use gmake.Prelude.{
  ℕ, zero, suc, ◌%◌, ◌^◌, ◌+◌, ◌<◌, ◌≡◌, ◌≢◌, refl, ◌∙◌, ap, sym, inl, inr, true, false, List,
  Option, none, some, arith, ◌==◌, Bool-cases, get_or, set, length, get_or-set_self, get_or-set_ne,
}

pub get_or-calloc {ℓ} : {A : Type ℓ} (n i : ℕ) → get_or (calloc {A = A} n) i empty ≡ empty
unfolding calloc
get_or-calloc zero i = refl
get_or-calloc (suc n) zero = refl
get_or-calloc (suc n) (suc i) = get_or-calloc n i

pub item_inj {ℓ} : {A : Type ℓ} {x y : A} → item x ≡ item y → x ≡ y
item_inj {x} e = ap (λ s. elim s [ item z ↦ z | _ ↦ x ]) e

empty_ne_item {ℓ} : {A : Type ℓ} (x : A) → empty ≢ item x
empty_ne_item x e = cc

deleted_ne_item {ℓ} : {A : Type ℓ} (x : A) → deleted ≢ item x
deleted_ne_item x e = cc

module _ {ℓ} {A : Type ℓ} (h : Hashing A) where
  -- the call of the loop in hash_find_slot
  abbrev pub find : List (Slot A) → ℕ → A → Option ℕ
  find vec size key = probe h vec size key size (h.hash_1 key % 2 ^ 32) none

  unfoldable pub IsFound : ℕ → List (Slot A) → Type ℓ
  IsFound size vec = (i : ℕ) (x : A) → get_or vec i empty ≡ item x → find vec size x ≡ some i

  module _ (laws : IsHashing h) where
    pub matches_refl : (x : A) → matches h x x ≡ true
    matches_refl x = ground (arith, laws.equal_refl x)

    -- equal keys are compared alike
    matches_congr : (x y z : A) → h.compare_eq x y ≡ true → matches h x z ≡ matches h y z
    matches_congr x y z e = ground (
      arith,
      laws.same_equal x z,
      laws.same_equal y z,
      laws.equal_sym x y e,
      laws.equal_trans x y z e,
      laws.equal_trans y x z (laws.equal_sym x y e),
    )

    pub equal_of_matches : (x y : A) → matches h x y ≡ true → h.compare_eq x y ≡ true
    equal_of_matches x y m = ground (arith, laws.same_equal x y)

    probe_congr :
        (vec : List (Slot A)) (size : ℕ) (x y : A)
        → h.compare_eq x y ≡ true
        → (rounds start : ℕ) (del : Option ℕ)
        → probe h vec size x rounds start del ≡ probe h vec size y rounds start del
    unfolding probe
    probe_congr vec size x y e zero start del = refl
    probe_congr vec size x y e (suc rounds) start del =
        let p = start % size in
        let later = probe_congr vec size x y e rounds in
        let steps : step_of h x ≡ step_of h y = ap make_odd (laws.equal-hash_2 x y e) in
        let next_x = next_hash h vec size x rounds start in
        let same_next : next_x ≡ next_hash h vec size y rounds start =
          ap (λ d. (p + d) % 2 ^ 32) steps in
        elim (Slot-cases (get_or vec p empty)) [
          | inl q ↦
              probe_empty h vec size x rounds start del q
              ∙ sym (probe_empty h vec size y rounds start del q)
          | inr (inl q) ↦
              probe_deleted h vec size x rounds start del q
              ∙ later _ _
              ∙ ap (λ n. probe h vec size y rounds n (some (first_deleted del p))) same_next
              ∙ sym (probe_deleted h vec size y rounds start del q)
          | inr (inr (z, q)) ↦ elim (Bool-cases (matches h x z)) [
            | inl m ↦
                probe_match h vec size x rounds start del z q m
                ∙ sym (
                    probe_match h vec size y rounds start del z q (sym (matches_congr x y z e) ∙ m))
            | inr m ↦
                probe_mismatch h vec size x rounds start del z q m
                ∙ later _ _
                ∙ ap (λ n. probe h vec size y rounds n del) same_next
                ∙ sym (
                    probe_mismatch h vec size y rounds start del z q
                      (sym (matches_congr x y z e) ∙ m))
          ]
        ]

    pub find_congr :
        (vec : List (Slot A)) (size : ℕ) (x y : A)
        → h.compare_eq x y ≡ true
        → find vec size x ≡ find vec size y
    find_congr vec size x y e =
        ap (λ n. probe h vec size x size (n % 2 ^ 32) none) (laws.equal-hash_1 x y e)
        ∙ probe_congr vec size x y e size _ none

    -- an item is found at its place behind a write that its loop goes past
    kept_at :
        (vec vec' : List (Slot A)) (size : ℕ) (x y : A) (i : ℕ)
        → get_or vec' i empty ≡ item y
        → matches h x y ≡ true
        → ((p : ℕ) → p ≢ i → Passed h x (get_or vec p empty) → Passed h x (get_or vec' p empty))
        → find vec size x ≡ some i
        → find vec' size x ≡ some i
    kept_at vec vec' size x y i at m same e =
        probe_kept h vec vec' size x y i at m same size _ none (λ q. cc) e none

    -- a write at slot s leaves the others
    passing_elsewhere :
        (vec : List (Slot A)) (s p : ℕ) (x : A) (v : Slot A)
        → s < length vec
        → Passed h x v
        → Passed h x (get_or vec p empty)
        → Passed h x (get_or (set vec s v) p empty)
    passing_elsewhere vec s p x v b new old = elim (Bool-cases (s == p)) [
      | inl q ↦
          let here : s ≡ p = ground arith in
          rw (ap (λ i. get_or (set vec s v) i empty) (sym here) ∙ get_or-set_self vec s v empty b)
            new
      | inr q ↦ rw (get_or-set_ne vec s p v empty (ground arith)) old
    ]

    -- an item elsewhere does not match the one that the loop found another slot for
    mismatch_new :
        (size s : ℕ) (vec : List (Slot A)) (k : A)
        → find vec size k ≡ some s
        → IsFound size vec
        → (i : ℕ) (x : A) → get_or vec i empty ≡ item x
        → s ≢ i
        → matches h x k ≡ false
    unfolding IsFound
    mismatch_new size s vec k at found i x old away = elim (Bool-cases (matches h x k)) [
      | inl m ↦ absurd (
          away (
            some_inj
              (sym at ∙ sym (find_congr vec size x k (equal_of_matches x k m)) ∙ found i x old)))
      | inr m ↦ m
    ]

    -- the empty vector
    pub calloc-IsFound : (size n : ℕ) → IsFound size (calloc n)
    unfolding IsFound
    calloc-IsFound size n i x e = absurd (empty_ne_item x (sym (get_or-calloc n i) ∙ e))

    -- a write that takes an item away
    pub delete-IsFound :
        (size s : ℕ) (vec : List (Slot A))
        → s < length vec
        → IsFound size vec
        → IsFound size (set vec s deleted)
    unfolding IsFound
    delete-IsFound size s vec b found i x e = elim (Bool-cases (s == i)) [
      | inl q ↦
          let here : s ≡ i = ground arith in
          absurd (
            deleted_ne_item x (
              sym (
                ap (λ j. get_or (set vec s deleted) j empty) (sym here)
                ∙ get_or-set_self vec s deleted empty b)
              ∙ e))
      | inr q ↦
          let old = sym (get_or-set_ne vec s i deleted empty (ground arith)) ∙ e in
          kept_at vec (set vec s deleted) size x x i e (matches_refl x)
            (λ p _. passing_elsewhere vec s p x deleted b (unfold Passed in inl refl))
            (found i x old)
    ]

    -- the write of hash_insert_at, at the slot that the loop found for the item
    pub insert-IsFound :
        (size s : ℕ) (vec : List (Slot A)) (k : A)
        → s < length vec
        → find vec size k ≡ some s
        → IsFound size vec
        → IsFound size (set vec s (item k))
    unfolding IsFound
    insert-IsFound size s vec k b at found i x e = elim (Bool-cases (s == i)) [
      | inl q ↦
          let here : s ≡ i = ground arith in
          let written = get_or-set_self vec s (item k) empty b in
          let read = ap (λ j. get_or (set vec s (item k)) j empty) here ∙ e in
          let is_k : x ≡ k = item_inj (sym read ∙ written) in
          rw is_k (
            (kept_at vec (set vec s (item k)) size k k s written (matches_refl k)
              (λ p away. λ old. rw (get_or-set_ne vec s p (item k) empty (λ d. away (sym d))) old)
              at)
            ∙ ap some here)
      | inr q ↦
          let old = sym (get_or-set_ne vec s i (item k) empty (ground arith)) ∙ e in
          kept_at vec (set vec s (item k)) size x x i e (matches_refl x)
            (λ p _. passing_elsewhere vec s p x (item k) b (
              unfold Passed in
              inr (k, refl, mismatch_new size s vec k at found i x old (ground arith))))
            (found i x old)
    ]
