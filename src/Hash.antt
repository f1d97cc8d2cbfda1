-- ===== src/Hash.antt =====
-- make-4.4/src/hash.c: open addressing with double hashing and deletion marks. A `void **` into the
-- vector is an index. The statistics (ht_collisions, ht_lookups, ht_rehashes), which only
-- hash_print_stats reads, are left out.
pub mod Cycle
pub mod Probe
pub mod Rounds
pub mod Found
pub mod Valid
pub mod Lookup
pub mod Contents
pub mod Rebuild
pub mod Rehash
pub mod Insert
pub mod Delete
pub mod Load
pub mod Update
use Prim.Native.Nat.{bit_or}
use gmake.Prelude.{
  ℕ, zero, suc, ◌+◌, ◌-◌, ◌*◌, ◌/◌, ◌%◌, ◌^◌, Bool, true, false, ◌||◌, List, [], ◌∷◌, Option, none,
  some, ltb, leb, ◌==◌, if◌then◌else◌, length, get_or, set,
}

-- `*slot`: a null pointer, hash_deleted_item, or an item
pub data Slot {ℓ} (A : Type ℓ) : Type ℓ where
  empty deleted : Slot A
  item : A → Slot A

-- the functions that a table is given, and the comparison of two pointers
pub record Hashing {ℓ} (A : Type ℓ) : Type ℓ where
  pub hash_1 : A → ℕ
  pub hash_2 : A → ℕ
  pub compare_eq : A → A → Bool
  pub same_pointer : A → A → Bool

pub record HashTable {ℓ} (A : Type ℓ) : Type ℓ where
  pub vec : List (Slot A)
  pub size : ℕ
  pub capacity : ℕ
  pub fill : ℕ
  pub empty_slots : ℕ

-- `n | n >> k`
smear : ℕ → ℕ → ℕ
smear k n = bit_or n (n / 2 ^ k)

-- of an unsigned long of 64 bits
unfoldable pub round_up_2 : ℕ → ℕ
unfolding smear
round_up_2 n = (smear 32 (smear 16 (smear 8 (smear 4 (smear 2 (smear 1 n))))) + 1) % 2 ^ 64

-- CALLOC
unfoldable pub calloc {ℓ} : {A : Type ℓ} → ℕ → List (Slot A)
calloc zero = []
calloc (suc n) = empty ∷ calloc n

abbrev pub capacity_of : ℕ → ℕ
capacity_of size = size - size / 16

unfoldable pub table_of_size {ℓ} : {A : Type ℓ} → ℕ → HashTable A
unfolding calloc
table_of_size size = record {
  vec = calloc size;
  size = size;
  capacity = capacity_of size;
  fill = 0;
  empty_slots = size;
}

unfoldable pub hash_init {ℓ} : {A : Type ℓ} → ℕ → HashTable A
unfolding round_up_2 table_of_size
hash_init size = table_of_size (round_up_2 size)

-- `deleted_slot ? deleted_slot : slot`
abbrev pub first_deleted : Option ℕ → ℕ → ℕ
first_deleted none slot = slot
first_deleted (some deleted_slot) slot = deleted_slot

-- the result of a call of hash_2, truncated to an unsigned int, with the last bit set
abbrev pub make_odd : ℕ → ℕ
make_odd h = h % 2 ^ 32 + (1 - h % 2)

module _ {ℓ} {A : Type ℓ} where
  -- `HASH_VACANT (item) ? 0 : item`
  unfoldable pub occupant : Slot A → Option A
  occupant empty = none
  occupant deleted = none
  occupant (item x) = some x

  -- hash_insert_at up to the write
  unfoldable pub write_slot : HashTable A → A → ℕ → Slot A → HashTable A
  write_slot ht x slot empty = record ht {
    vec = set ht.vec slot (item x);
    fill = ht.fill + 1;
    empty_slots = ht.empty_slots - 1;
  }
  write_slot ht x slot deleted = record ht { vec = set ht.vec slot (item x); fill = ht.fill + 1 }
  write_slot ht x slot (item y) = record ht { vec = set ht.vec slot (item x) }

  unfoldable pub delete_slot : HashTable A → ℕ → Slot A → Option A × HashTable A
  delete_slot ht slot empty = (none, ht)
  delete_slot ht slot deleted = (none, ht)
  delete_slot ht slot (item x) =
      (some x, record ht { vec = set ht.vec slot deleted; fill = ht.fill - 1 })

  unfoldable pub hash_delete_at : HashTable A → ℕ → Option A × HashTable A
  unfolding delete_slot
  hash_delete_at ht slot = delete_slot ht slot (get_or ht.vec slot empty)

module _ {ℓ} {A : Type ℓ} (h : Hashing A) where
  -- the test of an item
  abbrev pub matches : A → A → Bool
  matches key x = h.same_pointer key x || h.compare_eq key x

  abbrev pub step_of : A → ℕ
  step_of key = make_odd (h.hash_2 key)

  -- The loop, on rounds left: `hash_1 & (ht_size - 1)` is the remainder by a power of two. `none`
  -- stands for a loop that goes round all slots, and so for ever.
  unfoldable pub probe : List (Slot A) → ℕ → A → ℕ → ℕ → Option ℕ → Option ℕ
  probe vec size key zero hash_1 deleted_slot = none
  probe vec size key (suc rounds) hash_1 deleted_slot =
      let slot = hash_1 % size in
      let next = (slot + step_of key) % 2 ^ 32 in
      elim (get_or vec slot empty) [
        | empty ↦ some (first_deleted deleted_slot slot)
        | deleted ↦ probe vec size key rounds next (some (first_deleted deleted_slot slot))
        | item x ↦ elim (matches key x) [
          | true ↦ some slot
          | false ↦ probe vec size key rounds next deleted_slot
        ]
      ]

  unfoldable pub hash_find_slot : HashTable A → A → Option ℕ
  unfolding probe
  hash_find_slot ht key = probe ht.vec ht.size key ht.size (h.hash_1 key % 2 ^ 32) none

  -- `none` for a call that does not return
  unfoldable pub hash_find_item : HashTable A → A → Option (Option A)
  unfolding hash_find_slot occupant
  hash_find_item ht key = elim (hash_find_slot ht key) [
    | none ↦ none
    | some slot ↦ some (occupant (get_or ht.vec slot empty))
  ]

  -- the loop of hash_rehash over the old vector, into a vector of `size` slots
  unfoldable pub reinsert : ℕ → List (Slot A) → List (Slot A) → Option (List (Slot A))
  unfolding probe
  reinsert size [] vec = some vec
  reinsert size (empty ∷ old) vec = reinsert size old vec
  reinsert size (deleted ∷ old) vec = reinsert size old vec
  reinsert size (item x ∷ old) vec = elim (probe vec size x size (h.hash_1 x % 2 ^ 32) none) [
    | none ↦ none
    | some slot ↦ reinsert size old (set vec slot (item x))
  ]

  unfoldable pub rehash_into : HashTable A → ℕ → ℕ → Option (HashTable A)
  unfolding reinsert calloc
  rehash_into ht size capacity = elim (reinsert size ht.vec (calloc size)) [
    | none ↦ none
    | some vec ↦ some (record {
      vec = vec;
      size = size;
      capacity = capacity;
      fill = ht.fill;
      empty_slots = size - ht.fill;
    })
  ]

  unfoldable pub hash_rehash : HashTable A → Option (HashTable A)
  unfolding rehash_into
  hash_rehash ht =
      if leb ht.capacity ht.fill
      then rehash_into ht (ht.size * 2) (capacity_of (ht.size * 2))
      else rehash_into ht ht.size ht.capacity

  -- the end of hash_insert_at: the slot where the item is, and the table
  unfoldable pub rehash_if_loaded : HashTable A → A → ℕ → Option (ℕ × HashTable A)
  unfolding hash_rehash hash_find_slot
  rehash_if_loaded ht x slot =
      if ltb ht.empty_slots (ht.size - ht.capacity)
      then (elim (hash_rehash ht) [
        | none ↦ none
        | some after ↦ elim (hash_find_slot after x) [
          | none ↦ none
          | some moved ↦ some (moved, after)
        ]
      ])
      else some (slot, ht)

  unfoldable pub hash_insert_at : HashTable A → A → ℕ → Option (ℕ × HashTable A)
  unfolding write_slot rehash_if_loaded
  hash_insert_at ht x slot =
      rehash_if_loaded (write_slot ht x slot (get_or ht.vec slot empty)) x slot

  -- the old item, and the table
  unfoldable pub hash_insert : HashTable A → A → Option (Option A × HashTable A)
  unfolding hash_find_slot hash_insert_at occupant
  hash_insert ht x = elim (hash_find_slot ht x) [
    | none ↦ none
    | some slot ↦ elim (hash_insert_at ht x slot) [
      | none ↦ none
      | some (at, after) ↦ some (occupant (get_or ht.vec slot empty), after)
    ]
  ]

  unfoldable pub hash_delete : HashTable A → A → Option (Option A × HashTable A)
  unfolding hash_find_slot hash_delete_at
  hash_delete ht x = elim (hash_find_slot ht x) [
    | none ↦ none
    | some slot ↦ some (hash_delete_at ht slot)
  ]

  -- the items that hash_load inserts one behind the other
  unfoldable pub hash_load : List A → HashTable A → Option (HashTable A)
  unfolding hash_insert
  hash_load [] ht = some ht
  hash_load (x ∷ items) ht = elim (hash_insert ht x) [
    | none ↦ none
    | some (old, after) ↦ hash_load items after
  ]

-- the items in the order of their slots, without a comparison to sort them by
unfoldable pub hash_dump {ℓ} : {A : Type ℓ} → List (Slot A) → List A
hash_dump [] = []
hash_dump (empty ∷ vec) = hash_dump vec
hash_dump (deleted ∷ vec) = hash_dump vec
hash_dump (item x ∷ vec) = x ∷ hash_dump vec

-- hash_delete_items, and hash_free_items less the calls of `free`
unfoldable pub hash_delete_items {ℓ} : {A : Type ℓ} → HashTable A → HashTable A
unfolding calloc
hash_delete_items ht = record ht { vec = calloc ht.size; fill = 0; empty_slots = ht.size }

-- less the calls of `free`
unfoldable pub hash_free {ℓ} : {A : Type ℓ} → HashTable A → HashTable A
hash_free ht = record ht { vec = []; capacity = 0; fill = 0; empty_slots = ht.size }

-- hash_map and hash_map_arg: a call for each item, which acts on a state
unfoldable pub hash_map {ℓ ℓ'} : {A : Type ℓ} {S : Type ℓ'} → (A → S → S) → List (Slot A) → S → S
hash_map call [] s = s
hash_map call (empty ∷ vec) s = hash_map call vec s
hash_map call (deleted ∷ vec) s = hash_map call vec s
hash_map call (item x ∷ vec) s = let next = call x s in hash_map call vec next
