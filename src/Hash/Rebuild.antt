-- ===== src/Hash/Rebuild.antt =====
-- hash_rehash of make-4.4/src/hash.c: the items of the old vector, put into a new one.
use gmake.Hash.Cycle.{pow2}
use gmake.Hash.Contents.{
  Has-cons, not_item, Has-set, set-Has, set-Has_new, occupied_elsewhere, deleted_loose,
}
use gmake.Hash.Found.{IsFound, find, equal_of_matches, item_inj, insert-IsFound}
use gmake.Hash.Probe.{IsHashing, Slot-cases}
use gmake.Hash.Rounds.{Stops}
use gmake.Hash.Valid.{Has, finds, is_empty, is_item, count-set_or}
use gmake.Hash.{Slot, empty, deleted, item, Hashing, occupant, reinsert}
use gmake.Prelude.{
  ℕ, suc, ◌+◌, ◌≤◌, ◌<◌, ◌≡◌, refl, ◌∙◌, ap, sym, ◌⊎◌, inl, inr, false, List, [], ◌∷◌, none, some,
  arith, Bool-cases, get_or, set, length, one, count, length-set,
}

module _ {ℓ} {A : Type ℓ} (h : Hashing A) where
  -- no two items are equal
  unfoldable pub Distinct : List (Slot A) → Type ℓ
  Distinct [] = Unit
  Distinct (empty ∷ old) = Distinct old
  Distinct (deleted ∷ old) = Distinct old
  Distinct (item x ∷ old) = ((y : A) → Has old y → h.compare_eq x y ≡ false) × Distinct old

  -- no item of one vector is equal to one of another
  unfoldable pub Apart : List (Slot A) → List (Slot A) → Type ℓ
  Apart old vec = (x y : A) → Has old x → Has vec y → h.compare_eq x y ≡ false

  -- the vector behind the loop
  pub record Rebuilt (old vec result : List (Slot A)) (size : ℕ) : Type ℓ where
    pub length_kept : length result ≡ length vec
    pub found : IsFound h size result
    pub tight : count is_empty result + count is_item result ≡ length result
    pub counted : count is_item result ≡ count is_item vec + count is_item old
    pub kept : (x : A) → Has vec x → Has result x
    pub moved : (x : A) → Has old x → Has result x
    pub nothing_else : (x : A) → Has result x → Has vec x ⊎ Has old x

  -- what the loop needs: room, and items that are all different
  pub record Room (old vec : List (Slot A)) (size : ℕ) : Type ℓ where
    pub found : IsFound h size vec
    pub tight : count is_empty vec + count is_item vec ≡ length vec
    pub allocated : length vec ≡ size
    pub room : count is_item old < count is_empty vec
    pub distinct : Distinct old
    pub apart : Apart old vec

  -- a slot that holds no item is passed over
  skip_slot :
      (v : Slot A) (old vec result : List (Slot A)) (size : ℕ)
      → is_item v ≡ false
      → Rebuilt old vec result size
      → Rebuilt (v ∷ old) vec result size
  unfolding count one
  skip_slot v old vec result size e r = record {
    length_kept = r.length_kept;
    found = r.found;
    tight = r.tight;
    counted = rw e (omega (arith, r.counted));
    kept = r.kept;
    moved = λ x has. elim (Has-cons v old x has) [
      | inl here ↦ absurd (not_item v x e here)
      | inr there ↦ r.moved x there
    ];
    nothing_else = λ x has. elim (r.nothing_else x has) [
      | inl mine ↦ inl mine
      | inr (i, at) ↦ inr (suc i, at)
    ];
  }

  nothing_there : (x : A) → Has [] x → ⊥
  nothing_there x (i, e) = cc

  fewer :
      (v : Slot A) (old vec : List (Slot A)) (size : ℕ)
      → is_item v ≡ false
      → (Distinct (v ∷ old) → Distinct old)
      → Room (v ∷ old) vec size
      → Room old vec size
  unfolding Apart count one
  fewer v old vec size e distinct r = record {
    found = r.found;
    tight = r.tight;
    allocated = r.allocated;
    room = let item_less : one (is_item v) ≡ 0 = ap one e in omega (arith, r.room);
    distinct = distinct r.distinct;
    apart = λ x y (i, at) has. r.apart x y (suc i, at) has;
  }

  module _ (laws : IsHashing h) where
    -- the loop finds an empty slot for an item that is apart from those that are there
    free_slot :
        (vec : List (Slot A)) (x : A) (s : ℕ)
        → count is_empty vec + count is_item vec ≡ length vec
        → ((y : A) → Has vec y → h.compare_eq x y ≡ false)
        → Stops h vec x s
        → get_or vec s empty ≡ empty
    unfolding Stops
    free_slot vec x s tight apart (inl (y, e, m)) =
        let no = apart y (s, e) in let same = equal_of_matches h laws x y m in cc
    free_slot vec x s tight apart (inr vacant) = elim (Slot-cases (get_or vec s empty)) [
      | inl e ↦ e
      | inr (inl e) ↦ absurd (let loose = deleted_loose vec s e in omega arith)
      | inr (inr (y, e)) ↦
          let clash : none ≡ some y = unfold occupant in sym vacant ∙ ap occupant e in cc
    ]

    unequal_sym : (x y : A) → h.compare_eq y x ≡ false → h.compare_eq x y ≡ false
    unequal_sym x y e = elim (Bool-cases (h.compare_eq x y)) [
      | inl d ↦ let back = laws.equal_sym x y d in cc
      | inr d ↦ d
    ]

    put_item :
        (x : A) (old vec : List (Slot A)) (size s : ℕ)
        → Room (item x ∷ old) vec size
        → find h vec size x ≡ some s
        → s < length vec
        → get_or vec s empty ≡ empty
        → Room old (set vec s (item x)) size
    unfolding Distinct Apart count one
    put_item x old vec size s r run b e =
        let e1 = count-set_or is_empty vec s (item x) b in
        let e2 = count-set_or is_item vec s (item x) b in
        let n = length-set vec s (item x) in
        let one_empty : one (is_empty (get_or vec s empty)) ≡ 1 = ap (λ v. one (is_empty v)) e in
        let no_item : one (is_item (get_or vec s empty)) ≡ 0 = ap (λ v. one (is_item v)) e in
        record {
          found = insert-IsFound h laws size s vec x b run r.found;
          tight = omega (arith, r.tight);
          allocated = n ∙ r.allocated;
          room = omega (arith, r.room);
          distinct = r.distinct.1;
          apart = λ y z (i, hy) hz. elim (Has-set vec s (item x) z b hz) [
            | inl same ↦ rw (sym (item_inj same)) (unequal_sym y x (r.distinct.0 y (i, hy)))
            | inr (j, _, there) ↦ r.apart y z (suc i, hy) (j, there)
          ];
        }

    rebuild_more :
        (x : A) (old vec result : List (Slot A)) (size s : ℕ)
        → s < length vec
        → get_or vec s empty ≡ empty
        → Rebuilt old (set vec s (item x)) result size
        → Rebuilt (item x ∷ old) vec result size
    unfolding count one
    rebuild_more x old vec result size s b e r =
        let e2 = count-set_or is_item vec s (item x) b in
        let no_item : one (is_item (get_or vec s empty)) ≡ 0 = ap (λ v. one (is_item v)) e in
        record {
          length_kept = r.length_kept ∙ length-set vec s (item x);
          found = r.found;
          tight = r.tight;
          counted = omega (arith, r.counted);
          kept = λ y (i, at).
              r.kept y (set-Has vec s i (item x) y (occupied_elsewhere vec s i y e at) at);
          moved = λ y has. elim (Has-cons (item x) old y has) [
            | inl same ↦ rw (sym (item_inj same)) (r.kept x (set-Has_new vec s x b))
            | inr there ↦ r.moved y there
          ];
          nothing_else = λ y has. elim (r.nothing_else y has) [
            | inl mine ↦ elim (Has-set vec s (item x) y b mine) [
              | inl same ↦ inr (0, same)
              | inr (j, _, at) ↦ inl (j, at)
            ]
            | inr (i, at) ↦ inr (suc i, at)
          ];
        }

    -- The loop returns, with the items of both vectors in one where each is found.
    pub reinsert-Rebuilt :
        (k size : ℕ) (old vec : List (Slot A))
        → k ≤ 32
        → size ≡ pow2 k
        → Room old vec size
        → (result : List (Slot A)) × (reinsert h size old vec ≡ some result)
          × Rebuilt old vec result size
    unfolding reinsert Distinct Apart
    reinsert-Rebuilt k size [] vec b p r = (
      vec,
      refl,
      record {
        length_kept = refl;
        found = r.found;
        tight = r.tight;
        counted = unfold count in omega arith;
        kept = λ x has. has;
        moved = λ x has. absurd (nothing_there x has);
        nothing_else = λ x has. inl has;
      },
    )
    reinsert-Rebuilt k size (empty ∷ old) vec b p r =
        let (result, run, more) =
          reinsert-Rebuilt k size old vec b p (fewer empty old vec size refl (λ d. d) r) in
        (result, run, skip_slot empty old vec result size refl more)
    reinsert-Rebuilt k size (deleted ∷ old) vec b p r =
        let (result, run, more) =
          reinsert-Rebuilt k size old vec b p (fewer deleted old vec size refl (λ d. d) r) in
        (result, run, skip_slot deleted old vec result size refl more)
    reinsert-Rebuilt k size (item x ∷ old) vec b p r =
        let len = r.allocated ∙ p in
        let (s, run, low, stops) = finds h k vec x b len (omega (arith, r.room)) in
        let run_at : find h vec size x ≡ some s = ap (λ n. find h vec n x) p ∙ run in
        let inside : s < length vec = omega arith in
        let free = free_slot vec x s r.tight (λ y has. r.apart x y (0, refl) has) stops in
        let (result, more_run, more) =
          reinsert-Rebuilt k size old (set vec s (item x)) b p
            (put_item x old vec size s r run_at inside free) in
        (
          result,
          rw (run_at, reinsert) more_run,
          rebuild_more x old vec result size s inside free more,
        )
