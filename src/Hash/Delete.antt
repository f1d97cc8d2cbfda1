-- ===== src/Hash/Delete.antt =====
-- hash_delete and hash_init of make-4.4/src/hash.c: what the look-ups see behind them.
use gmake.Hash.Cycle.{pow2}
use gmake.Hash.Contents.{Has-set, set-Has}
use gmake.Hash.Found.{IsFound, item_inj, delete-IsFound, calloc-IsFound}
use gmake.Hash.Insert.{stopped_at}
use gmake.Hash.Lookup.{one_place, finds_valid, find_item-Holds, Holds-find_item}
use gmake.Hash.Probe.{IsHashing}
use gmake.Hash.Rehash.{length-calloc, count-calloc, items-calloc, nothing_in_calloc}
use gmake.Hash.Rounds.{Stops}
use gmake.Hash.Valid.{Holds, IsValid, is_empty, is_item, count-set_or}
use gmake.Hash.{
  Slot, empty, deleted, item, Hashing, HashTable, occupant, table_of_size, delete_slot,
  hash_delete_at, hash_find_item, hash_delete,
}
use gmake.Prelude.{
  ℕ, ◌-◌, ◌≤◌, ◌<◌, ◌≡◌, refl, ◌∙◌, ap, sym, inl, inr, true, false, List, Option, none, some, arith,
  Bool-cases, get_or, set, length, one, length-set, if◌then◌else◌,
}

module _ {ℓ} {A : Type ℓ} (h : Hashing A) (laws : IsHashing h) where
  -- A table of 2^k slots, 16 at least, is valid, and no key is found in it.
  pub table_of_size-IsValid :
      (k size : ℕ)
      → k ≤ 32
      → size ≡ pow2 k
      → 16 ≤ size
      → IsValid h (table_of_size size)
        × ((key : A) → hash_find_item h (table_of_size size) key ≡ some none)
  unfolding table_of_size
  table_of_size-IsValid k size b p big =
      let valid : IsValid h (table_of_size size) = record {
        laid = record {
          exponent = k;
          small = b;
          power = p;
          big = big;
          allocated = length-calloc A size;
          loaded = refl;
          filled = sym (items-calloc A size);
          emptied = sym (count-calloc A size);
          found = calloc-IsFound h laws size size;
        };
        roomy = omega arith;
      } in
      (
        valid,
        λ key.
            Holds-find_item h laws (table_of_size size) key none valid
              (unfold Holds in λ x has. absurd (nothing_in_calloc size x has)),
      )

  -- the table without the item of a slot
  emptied_slot-IsValid :
      (ht : HashTable A) (s : ℕ) (x : A)
      → get_or ht.vec s empty ≡ item x
      → s < ht.size
      → IsValid h ht
      → IsValid h (record ht { vec = set ht.vec s deleted; fill = ht.fill - 1 })
  unfolding one
  emptied_slot-IsValid ht s x at b v =
      let l = v.laid in
      let inside : s < length ht.vec = omega (arith, l.allocated) in
      let empties = count-set_or is_empty ht.vec s deleted inside in
      let items = count-set_or is_item ht.vec s deleted inside in
      let no_empty : one (is_empty (get_or ht.vec s empty)) ≡ 0 = ap (λ u. one (is_empty u)) at in
      let one_item : one (is_item (get_or ht.vec s empty)) ≡ 1 = ap (λ u. one (is_item u)) at in
      record {
        laid = record {
          exponent = l.exponent;
          small = l.small;
          power = l.power;
          big = l.big;
          allocated = length-set ht.vec s deleted ∙ l.allocated;
          loaded = l.loaded;
          filled = omega (arith, l.filled);
          emptied = omega (arith, l.emptied);
          found = delete-IsFound h laws ht.size s ht.vec inside l.found;
        };
        roomy = v.roomy;
      }

  -- another key is not touched
  kept_key :
      (vec : List (Slot A)) (x key y : A) (s : ℕ) (r : Option A)
      → s < length vec
      → get_or vec s empty ≡ item y
      → h.compare_eq x y ≡ true
      → h.compare_eq key x ≡ false
      → Holds h vec key r
      → Holds h (set vec s deleted) key r
  unfolding Holds
  kept_key vec x key y s none b at m other holds = λ z has. elim (Has-set vec s deleted z b has) [
    | inl same ↦ absurd (cc)
    | inr (i, _, there) ↦ holds z (i, there)
  ]
  kept_key vec x key y s (some z) b at m other ((i, there), e) = (
    set-Has vec s i deleted z
        (λ same.
          let one : y ≡ z = item_inj (sym at ∙ ap (λ j. get_or vec j empty) same ∙ there) in
          let z_too : h.compare_eq x z ≡ true = rw (sym one) m in
          let back = laws.equal_trans key z x e (laws.equal_sym x z z_too) in cc)
        there,
    e,
  )

  -- the key itself is gone
  gone_key :
      (ht : HashTable A) (x key y : A) (s : ℕ)
      → s < length ht.vec
      → IsFound h ht.size ht.vec
      → get_or ht.vec s empty ≡ item y
      → h.compare_eq x y ≡ true
      → h.compare_eq key x ≡ true
      → Holds h (set ht.vec s deleted) key none
  unfolding Holds IsFound
  gone_key ht x key y s b found at m e = λ z has. elim (Has-set ht.vec s deleted z b has) [
    | inl same ↦ absurd (cc)
    | inr (i, away, there) ↦ elim (Bool-cases (h.compare_eq key z)) [
      | inl d ↦
          let y_z =
            laws.equal_trans y x z (laws.equal_sym x y m)
              (laws.equal_trans x key z (laws.equal_sym key x e) d) in
          absurd (away (one_place h laws ht.size s i ht.vec y z found (found s y at) there y_z))
      | inr d ↦ d
    ]
  ]

  nothing_at :
      (ht : HashTable A) (x : A)
      → IsValid h ht
      → hash_find_item h ht x ≡ some none
      → (key : A)
      → hash_find_item h ht key
        ≡ (if h.compare_eq key x then some none else hash_find_item h ht key)
  unfolding Holds
  nothing_at ht x v run key = elim (Bool-cases (h.compare_eq key x)) [
    | inl e ↦
        let (r, found, holds) = find_item-Holds h laws ht x v in
        rw e (
          Holds-find_item h laws ht key none v (λ z has. elim (Bool-cases (h.compare_eq key z)) [
            | inl d ↦
                let x_z = laws.equal_trans x key z (laws.equal_sym key x e) d in
                let here = Holds-find_item h laws ht x (some z) v (has, x_z) in cc
            | inr d ↦ d
          ]))
    | inr e ↦ rw e refl
  ]

  -- what the look-ups see when a slot's item is taken away
  deleted_at :
      (ht : HashTable A) (x : A) (s : ℕ) (v : Slot A)
      → get_or ht.vec s empty ≡ v
      → IsValid h ht
      → s < ht.size
      → Stops h ht.vec x s
      → hash_find_item h ht x ≡ some (occupant v)
      → (old : Option A) × (after : HashTable A) × (delete_slot ht s v ≡ (old, after))
        × (occupant v ≡ old)
        × IsValid h after
        × ((key : A)
            → hash_find_item h after key
              ≡ (if h.compare_eq key x then some none else hash_find_item h ht key))
  unfolding delete_slot occupant
  deleted_at ht x s empty at v b stops run = (none, ht, refl, refl, v, nothing_at ht x v run)
  deleted_at ht x s deleted at v b stops run = (none, ht, refl, refl, v, nothing_at ht x v run)
  deleted_at ht x s (item y) at v b stops run =
      let inside : s < length ht.vec = omega (arith, v.laid.allocated) in
      let m = stopped_at h laws ht.vec x y s stops at in
      let after = record ht { vec = set ht.vec s deleted; fill = ht.fill - 1 } in
      let valid : IsValid h after = emptied_slot-IsValid ht s y at b v in
      (
        some y,
        after,
        refl,
        refl,
        valid,
        λ key. elim (Bool-cases (h.compare_eq key x)) [
          | inl e ↦ rw e (
              Holds-find_item h laws after key none valid
                (gone_key ht x key y s inside v.laid.found at m e))
          | inr e ↦
              let (r, found, holds) = find_item-Holds h laws ht key v in
              rw e (
                Holds-find_item h laws after key r valid
                  (kept_key ht.vec x key y s r inside at m e holds)
                ∙ sym found)
        ],
      )

  -- From a valid table, with functions that keep their promises, hash_delete returns what was found at the
  -- key, and a valid table. There nothing is found at the keys equal to it, and the others find what they found.
  pub hash_delete_lem :
      (ht : HashTable A) (x : A)
      → IsValid h ht
      → (old : Option A) × (after : HashTable A) × (hash_delete h ht x ≡ some (old, after))
        × (hash_find_item h ht x ≡ some old)
        × IsValid h after
        × ((key : A)
            → hash_find_item h after key
              ≡ (if h.compare_eq key x then some none else hash_find_item h ht key))
  unfolding hash_delete hash_delete_at hash_find_item
  hash_delete_lem ht x v =
      let (s, run, low, stops) = finds_valid h laws ht x v in
      let looked : hash_find_item h ht x ≡ some (occupant (get_or ht.vec s empty)) =
        rw (run, hash_find_item) refl in
      let (old, after, went, same, valid, seen) =
        deleted_at ht x s (get_or ht.vec s empty) refl v low stops looked in
      (old, after, rw (run, hash_delete) (ap some went), looked ∙ ap some same, valid, seen)
