-- ===== src/Hash/Insert.antt =====
-- hash_insert of make-4.4/src/hash.c: what the look-ups see behind it.
use gmake.Hash.Contents.{Has-set, set-Has, set-Has_new}
use gmake.Hash.Found.{equal_of_matches, item_inj, insert-IsFound}
use gmake.Hash.Lookup.{finds_valid, find_item-Holds, Holds-find_item}
use gmake.Hash.Probe.{IsHashing}
use gmake.Hash.Rehash.{SameItems, rehash_if_loaded-IsValid}
use gmake.Hash.Rounds.{Stops}
use gmake.Hash.Valid.{Holds, IsLaid, IsValid, is_empty, is_item, count-set_or}
use gmake.Hash.{
  Slot, empty, deleted, item, Hashing, HashTable, occupant, write_slot, hash_find_slot,
  hash_find_item, hash_insert_at, hash_insert,
}
use gmake.Prelude.{
  ℕ, ◌+◌, ◌*◌, ◌^◌, ◌≤◌, ◌<◌, ◌≡◌, refl, ◌∙◌, ap, sym, ◌⊎◌, inl, inr, true, false, List, Option,
  none, some, arith, Bool-cases, get_or, set, length, one, length-set, if◌then◌else◌,
}

vec-write_slot {ℓ} :
    {A : Type ℓ} (ht : HashTable A) (x : A) (s : ℕ) (v : Slot A)
    → HashTable.vec (write_slot ht x s v) ≡ set ht.vec s (item x)
unfolding write_slot
vec-write_slot ht x s empty = refl
vec-write_slot ht x s deleted = refl
vec-write_slot ht x s (item y) = refl

size-write_slot {ℓ} :
    {A : Type ℓ} (ht : HashTable A) (x : A) (s : ℕ) (v : Slot A)
    → HashTable.size (write_slot ht x s v) ≡ ht.size
unfolding write_slot
size-write_slot ht x s empty = refl
size-write_slot ht x s deleted = refl
size-write_slot ht x s (item y) = refl

fill-write_slot {ℓ} :
    {A : Type ℓ} (ht : HashTable A) (x : A) (s : ℕ) (v : Slot A)
    → HashTable.fill (write_slot ht x s v) ≤ ht.fill + 1
unfolding write_slot
fill-write_slot ht x s empty = omega arith
fill-write_slot ht x s deleted = omega arith
fill-write_slot ht x s (item y) = omega arith

module _ {ℓ} {A : Type ℓ} (h : Hashing A) (laws : IsHashing h) where
  -- the write counts
  write_slot-IsLaid :
      (ht : HashTable A) (x : A) (s : ℕ) (v : Slot A)
      → get_or ht.vec s empty ≡ v
      → hash_find_slot h ht x ≡ some s
      → s < ht.size
      → IsLaid h ht
      → IsLaid h (write_slot ht x s v)
  unfolding write_slot hash_find_slot one
  write_slot-IsLaid ht x s v here run b l =
      let inside : s < length ht.vec = omega (arith, l.allocated) in
      let empties = count-set_or is_empty ht.vec s (item x) inside in
      let items = count-set_or is_item ht.vec s (item x) inside in
      let was_empty : one (is_empty (get_or ht.vec s empty)) ≡ one (is_empty v) =
        ap (λ u. one (is_empty u)) here in
      let was_item : one (is_item (get_or ht.vec s empty)) ≡ one (is_item v) =
        ap (λ u. one (is_item u)) here in
      let n = length-set ht.vec s (item x) ∙ l.allocated in
      let found = insert-IsFound h laws ht.size s ht.vec x inside run l.found in
      elim v
          as (λ v.
            one (is_empty (get_or ht.vec s empty)) ≡ one (is_empty v)
            → one (is_item (get_or ht.vec s empty)) ≡ one (is_item v)
            → IsLaid h (write_slot ht x s v)) [
              | empty ↦ λ e d. record {
                exponent = l.exponent;
                small = l.small;
                power = l.power;
                big = l.big;
                allocated = n;
                loaded = l.loaded;
                filled = omega (arith, l.filled);
                emptied = omega (arith, l.emptied);
                found = found;
              }
              | deleted ↦ λ e d. record {
                exponent = l.exponent;
                small = l.small;
                power = l.power;
                big = l.big;
                allocated = n;
                loaded = l.loaded;
                filled = omega (arith, l.filled);
                emptied = omega (arith, l.emptied);
                found = found;
              }
              | item y ↦ λ e d. record {
                exponent = l.exponent;
                small = l.small;
                power = l.power;
                big = l.big;
                allocated = n;
                loaded = l.loaded;
                filled = omega (arith, l.filled);
                emptied = omega (arith, l.emptied);
                found = found;
              }
            ]
        was_empty was_item

  -- an item of the slot that the loop stopped at is equal to the key
  pub stopped_at :
      (vec : List (Slot A)) (key y : A) (s : ℕ)
      → Stops h vec key s
      → get_or vec s empty ≡ item y
      → h.compare_eq key y ≡ true
  unfolding Stops
  stopped_at vec key y s (inl (z, e, m)) at =
      rw (sym (item_inj (sym e ∙ at))) (equal_of_matches h laws key z m)
  stopped_at vec key y s (inr vacant) at =
      let clash : none ≡ some y = unfold occupant in sym vacant ∙ ap occupant at in cc

  -- another key is not touched
  other_key :
      (vec : List (Slot A)) (x key : A) (s : ℕ) (r : Option A)
      → s < length vec
      → Stops h vec x s
      → h.compare_eq key x ≡ false
      → Holds h vec key r
      → Holds h (set vec s (item x)) key r
  unfolding Holds
  other_key vec x key s none b stops other holds = λ y has. elim (Has-set vec s (item x) y b has) [
    | inl same ↦ rw (sym (item_inj same)) other
    | inr (i, _, at) ↦ holds y (i, at)
  ]
  other_key vec x key s (some y) b stops other ((i, at), e) = (
    set-Has vec s i (item x) y
        (λ same.
          let equal = stopped_at vec x y s stops (ap (λ j. get_or vec j empty) same ∙ at) in
          let back = laws.equal_trans key y x e (laws.equal_sym x y equal) in cc)
        at,
    e,
  )

  -- what a look-up is to return does not depend on the slots
  Holds-SameItems :
      (vec vec' : List (Slot A)) (key : A) (r : Option A)
      → SameItems vec vec'
      → Holds h vec key r
      → Holds h vec' key r
  unfolding Holds
  Holds-SameItems vec vec' key none same holds = λ y has. holds y ((same y).1 has)
  Holds-SameItems vec vec' key (some x) same (has, e) = ((same x).0 has, e)

  -- hash_insert, what the look-ups see behind it, and the growth of the table
  pub inserted :
      (ht : HashTable A) (x : A)
      → IsValid h ht
      → ht.size ≤ 2 ^ 31
      → (old : Option A) × (after : HashTable A) × (hash_insert h ht x ≡ some (old, after))
        × (hash_find_item h ht x ≡ some old)
        × IsValid h after
        × ((key : A)
            → hash_find_item h after key
              ≡ (if h.compare_eq key x then some (some x) else hash_find_item h ht key))
        × (after.fill ≤ ht.fill + 1)
        × ((after.size ≡ ht.size) ⊎ (after.size * 15 ≤ (ht.fill + 1) * 32))
  unfolding hash_insert hash_insert_at hash_find_item
  inserted ht x v half =
      let (s, run, low, stops) = finds_valid h laws ht x v in
      let slot = get_or ht.vec s empty in
      let inside : s < length ht.vec = omega (arith, v.laid.allocated) in
      let written = write_slot ht x s slot in
      let laid = write_slot-IsLaid ht x s slot refl run low v.laid in
      let small : HashTable.size written ≤ 2 ^ 31 = rw (size-write_slot ht x s slot) half in
      let (at, after, more, valid, same, (fill, size)) =
        rehash_if_loaded-IsValid h laws written x s laid small in
      let moved : SameItems (set ht.vec s (item x)) after.vec =
        rw (sym (vec-write_slot ht x s slot)) same in
      let more_fill = fill-write_slot ht x s slot in
      let same_size = size-write_slot ht x s slot in
      let grown : (after.size ≡ ht.size) ⊎ (after.size * 15 ≤ (ht.fill + 1) * 32) = elim size [
        | inl e ↦ inl (e ∙ same_size)
        | inr full ↦ inr (omega arith)
      ] in
      (
        occupant slot,
        after,
        rw (run, hash_insert) rw (more, hash_insert_at) refl,
        rw (run, hash_find_item) refl,
        valid,
        λ key. elim (Bool-cases (h.compare_eq key x)) [
          | inl e ↦ rw e (
              Holds-find_item h laws after key (some x) valid (
                Holds-SameItems _ after.vec key (some x) moved
                  (unfold Holds in (set-Has_new ht.vec s x inside, e))))
          | inr e ↦
              let (r, found, holds) = find_item-Holds h laws ht key v in
              rw e (
                Holds-find_item h laws after key r valid (
                  Holds-SameItems _ after.vec key r moved
                    (other_key ht.vec x key s r inside stops e holds))
                ∙ sym found)
        ],
        omega arith,
        grown,
      )

  -- Into a valid table of at most 2^31 slots, with functions that keep their promises, hash_insert returns
  -- what was found at the key, and a valid table. There the keys equal to the new item find the new item, and
  -- the other keys find what they found.
  pub hash_insert_lem :
      (ht : HashTable A) (x : A)
      → IsValid h ht
      → ht.size ≤ 2 ^ 31
      → (old : Option A) × (after : HashTable A) × (hash_insert h ht x ≡ some (old, after))
        × (hash_find_item h ht x ≡ some old)
        × IsValid h after
        × ((key : A)
            → hash_find_item h after key
              ≡ (if h.compare_eq key x then some (some x) else hash_find_item h ht key))
  hash_insert_lem ht x v half =
      let (old, after, run, was, valid, seen, _, _) = inserted ht x v half in
      (old, after, run, was, valid, seen)
