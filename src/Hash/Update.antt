-- ===== src/Hash/Update.antt =====
-- hash_find_slot of a key, and then a write of an item with that key: how make-4.4/src/variable.c uses
-- make-4.4/src/hash.c.
use gmake.Hash.Delete.{hash_delete_lem}
use gmake.Hash.Found.{IsFound, find_congr}
use gmake.Hash.Insert.{hash_insert_lem, inserted}
use gmake.Hash.Probe.{IsHashing}
use gmake.Hash.Rounds.{some_inj}
use gmake.Hash.Valid.{IsValid}
use gmake.Hash.{
  empty, item, Hashing, HashTable, occupant, write_slot, rehash_if_loaded, hash_find_slot,
  hash_find_item, hash_insert_at, hash_insert, hash_delete_at, hash_delete,
}
use gmake.Prelude.{
  ℕ, ◌+◌, ◌^◌, ◌≤◌, ◌-◌, ◌≡◌, refl, ◌∙◌, ap, sym, inl, inr, true, false, Option, none, some, arith,
  Option-cases, get_or, set, ltb, if◌then◌else◌,
}

module _ {ℓ} {A : Type ℓ} (h : Hashing A) where
  -- What an insertion at a key makes of a table: the slot of the key holds the old item, and the look-ups see
  -- the new item at the keys that are equal to it.
  pub record Put (ht after : HashTable A) (x : A) (old : Option A) : Type ℓ where
    pub was : hash_find_item h ht x ≡ some old
    pub valid : IsValid h after
    pub seen :
        (key : A)
        → hash_find_item h after key
          ≡ (if h.compare_eq key x then some (some x) else hash_find_item h ht key)

  module _ (laws : IsHashing h) where
    pub put :
        (ht : HashTable A) (x : A)
        → IsValid h ht
        → ht.size ≤ 2 ^ 31
        → (old : Option A) × (after : HashTable A) × (hash_insert h ht x ≡ some (old, after))
          × Put ht after x old
    put ht x v half =
        let (old, after, run, was, valid, seen) = hash_insert_lem h laws ht x v half in
        (old, after, run, record { was = was; valid = valid; seen = seen })

    pub find_same :
        (ht : HashTable A) (key x : A) (s : ℕ)
        → h.compare_eq key x ≡ true
        → hash_find_slot h ht key ≡ some s
        → hash_find_slot h ht x ≡ some s
    unfolding hash_find_slot
    find_same ht key x s e run = sym (find_congr h laws ht.vec ht.size key x e) ∙ run

    slot_known :
        (ht : HashTable A) (x : A) (s : ℕ) (old : Option A) (after : HashTable A)
        → hash_find_slot h ht x ≡ some s
        → hash_insert h ht x ≡ some (old, after)
        → (at : ℕ) × (hash_insert_at h ht x s ≡ some (at, after))
          × (occupant (get_or ht.vec s empty) ≡ old)
    unfolding hash_insert
    slot_known ht x s old after run done = elim (Option-cases (hash_insert_at h ht x s)) [
      | inl e ↦
          let stuck : hash_insert h ht x ≡ none = rw (run, hash_insert) rw (e, hash_insert) refl in
          cc
      | inr ((at, table), e) ↦
          let ran : hash_insert h ht x ≡ some (occupant (get_or ht.vec s empty), table) =
            rw (run, hash_insert) rw (e, hash_insert) refl in
          let same = some_inj (sym ran ∙ done) in
          (at, e ∙ ap (λ t. some (at, t)) (ap (λ p. p.1) same), ap (λ p. p.0) same)
    ]

    -- hash_insert_at, at the slot that hash_find_slot found for a key equal to the item
    pub insert_at-Put :
        (ht : HashTable A) (key x : A) (s : ℕ)
        → IsValid h ht
        → ht.size ≤ 2 ^ 31
        → h.compare_eq key x ≡ true
        → hash_find_slot h ht key ≡ some s
        → (at : ℕ) × (after : HashTable A) × (hash_insert_at h ht x s ≡ some (at, after))
          × Put ht after x (occupant (get_or ht.vec s empty))
    insert_at-Put ht key x s v half e run =
        let (old, after, done, puts) = put ht x v half in
        let (at, ran, was) = slot_known ht x s old after (find_same ht key x s e run) done in
        (at, after, ran, rw was puts)

    -- the same at the item itself, with the growth of the table
    pub insert_at-grown :
        (ht : HashTable A) (x : A) (s : ℕ)
        → IsValid h ht
        → ht.size ≤ 2 ^ 31
        → ht.fill + 1 ≤ 10 ^ 9
        → hash_find_slot h ht x ≡ some s
        → (at : ℕ) × (after : HashTable A) × (hash_insert_at h ht x s ≡ some (at, after))
          × Put ht after x (occupant (get_or ht.vec s empty))
          × (after.fill ≤ ht.fill + 1)
          × (after.size ≤ 2 ^ 31)
    insert_at-grown ht x s v half room run =
        let (old, after, done, was, valid, seen, fill, size) = inserted h laws ht x v half in
        let (at, ran, here) = slot_known ht x s old after run done in
        let small : after.size ≤ 2 ^ 31 = elim size [
          | inl e ↦ rw e half
          | inr full ↦ omega arith
        ] in
        (at, after, ran, record { was = rw here was; valid = valid; seen = seen }, fill, small)

    no_rehash :
        (ht : HashTable A) (x u : A) (s : ℕ)
        → IsValid h ht
        → get_or ht.vec s empty ≡ item u
        → hash_insert_at h ht x s ≡ some (s, record ht { vec = set ht.vec s (item x) })
    unfolding hash_insert_at write_slot rehash_if_loaded
    no_rehash ht x u s v at =
        let roomy = v.roomy in
        let enough : ltb ht.empty_slots (ht.size - ht.capacity) ≡ false = ground arith in
        rw (at, hash_insert_at, write_slot) rw (enough, rehash_if_loaded) refl

    -- an item written over the one that was found
    pub overwrite-Put :
        (ht : HashTable A) (key x u : A) (s : ℕ)
        → IsValid h ht
        → ht.size ≤ 2 ^ 31
        → h.compare_eq key x ≡ true
        → hash_find_slot h ht key ≡ some s
        → get_or ht.vec s empty ≡ item u
        → Put ht (record ht { vec = set ht.vec s (item x) }) x (some u)
    overwrite-Put ht key x u s v half e run here =
        let (at, after, ran, puts) = insert_at-Put ht key x s v half e run in
        let same = ap (λ p. p.1) (some_inj (sym ran ∙ no_rehash ht x u s v here)) in
        let was : occupant (get_or ht.vec s empty) ≡ some u = unfold occupant in ap occupant here in
        rw (← same, ← was) puts

    -- hash_delete_at, at the slot of an item
    pub delete_at-seen :
        (ht : HashTable A) (x : A) (s : ℕ)
        → IsValid h ht
        → get_or ht.vec s empty ≡ item x
        → IsValid h (hash_delete_at ht s).1
          × ((key : A)
              → hash_find_item h (hash_delete_at ht s).1 key
                ≡ (if h.compare_eq key x then some none else hash_find_item h ht key))
    unfolding hash_delete IsFound hash_find_slot
    delete_at-seen ht x s v here =
        let (old, after, done, _, valid, seen) = hash_delete_lem h laws ht x v in
        let run : hash_find_slot h ht x ≡ some s = v.laid.found s x here in
        let ran : hash_delete h ht x ≡ some (hash_delete_at ht s) = rw (run, hash_delete) refl in
        let same : after ≡ (hash_delete_at ht s).1 = ap (λ p. p.1) (some_inj (sym done ∙ ran)) in
        rw (← same) (valid, seen)
