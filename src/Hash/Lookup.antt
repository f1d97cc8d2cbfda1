-- ===== src/Hash/Lookup.antt =====
-- hash_find_item of make-4.4/src/hash.c against the contents of the vector.
use gmake.Hash.Found.{IsFound, find, find_congr, equal_of_matches, item_inj}
use gmake.Hash.Probe.{IsHashing}
use gmake.Hash.Rounds.{Stops, some_inj}
use gmake.Hash.Valid.{Holds, IsValid, finds}
use gmake.Hash.{Slot, empty, item, Hashing, HashTable, occupant, hash_find_slot, hash_find_item}
use gmake.Prelude.{
  ℕ, ◌<◌, ◌≡◌, refl, ◌∙◌, ap, sym, inl, inr, true, List, Option, none, some, arith, Bool-cases,
  get_or,
}

occupant_item {ℓ} : {A : Type ℓ} {s : Slot A} {x : A} → s ≡ item x → occupant s ≡ some x
unfolding occupant
occupant_item e = ap occupant e

none_ne_some {ℓ} : {A : Type ℓ} {x : A} → ◌≡◌ {A = Option A} none (some x) → ⊥
none_ne_some e = cc

module _ {ℓ} {A : Type ℓ} (h : Hashing A) (laws : IsHashing h) where
  -- a slot of a key that the loop finds another slot for
  pub one_place :
      (size s i : ℕ) (vec : List (Slot A)) (key x : A)
      → IsFound h size vec
      → find h vec size key ≡ some s
      → get_or vec i empty ≡ item x
      → h.compare_eq key x ≡ true
      → s ≡ i
  unfolding IsFound
  one_place size s i vec key x found run at e =
      some_inj (sym run ∙ find_congr h laws vec size key x e ∙ found i x at)

  -- what stands in the slot that the loop stops at is what a look-up is to return
  pub look-Holds :
      (size s : ℕ) (vec : List (Slot A)) (key : A)
      → IsFound h size vec
      → find h vec size key ≡ some s
      → Stops h vec key s
      → Holds h vec key (occupant (get_or vec s empty))
  unfolding Holds Stops
  look-Holds size s vec key found run (inl (x, e, m)) =
      rw (occupant_item e) ((s, e), equal_of_matches h laws key x m)
  look-Holds size s vec key found run (inr vacant) = rw vacant λ x has.
      elim (Bool-cases (h.compare_eq key x)) [
        | inl e ↦
            let same = one_place size s has.0 vec key x found run has.1 e in
            absurd (
              none_ne_some (sym vacant ∙ occupant_item (ap (λ j. get_or vec j empty) same ∙ has.1)))
        | inr e ↦ e
      ]

  -- there is one answer
  pub one_answer :
      (size : ℕ) (vec : List (Slot A)) (key : A) (r r' : Option A)
      → IsFound h size vec
      → Holds h vec key r
      → Holds h vec key r'
      → r ≡ r'
  unfolding Holds IsFound
  one_answer size vec key none none found p q = refl
  one_answer size vec key none (some y) found p q = let no = p y q.0 in cc
  one_answer size vec key (some x) none found p q = let no = q x p.0 in cc
  one_answer size vec key (some x) (some y) found ((i, at), e) ((j, there), d) =
      let run = find_congr h laws vec size key x e ∙ found i x at in
      let same = one_place size i j vec key y found run there d in
      ap some (item_inj (sym at ∙ ap (λ k. get_or vec k empty) same ∙ there))

  -- In a valid table the loop returns; it stops at the key, or at a vacant slot.
  pub finds_valid :
      (ht : HashTable A) (key : A)
      → IsValid h ht
      → (s : ℕ) × (hash_find_slot h ht key ≡ some s) × (s < ht.size) × Stops h ht.vec key s
  unfolding hash_find_slot
  finds_valid ht key v =
      let l = v.laid in
      rw l.power (
        finds h l.exponent ht.vec key l.small (l.allocated ∙ l.power)
          (omega (arith, v.roomy, l.emptied, l.loaded, l.big)))

  -- In a valid table, with functions that keep their promises, hash_find_item returns, and with what the
  -- contents say: an item of a slot that is equal to the key, or nothing, and then no item is equal to it.
  pub find_item-Holds :
      (ht : HashTable A) (key : A)
      → IsValid h ht
      → (r : Option A) × (hash_find_item h ht key ≡ some r) × Holds h ht.vec key r
  unfolding hash_find_item
  find_item-Holds ht key v =
      let (s, run, low, stops) = finds_valid ht key v in
      let here : find h ht.vec ht.size key ≡ some s = unfold hash_find_slot in run in
      (
        occupant (get_or ht.vec s empty),
        rw (here, hash_find_item) refl,
        look-Holds ht.size s ht.vec key v.laid.found here stops,
      )

  -- hash_find_item returns, and what it returns is what the contents say.
  pub Holds-find_item :
      (ht : HashTable A) (key : A) (r : Option A)
      → IsValid h ht
      → Holds h ht.vec key r
      → hash_find_item h ht key ≡ some r
  Holds-find_item ht key r v holds =
      let (q, run, answer) = find_item-Holds ht key v in
      run ∙ ap some (one_answer ht.size ht.vec key q r v.laid.found answer holds)
