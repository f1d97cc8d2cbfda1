-- ===== src/Tests/Hash.antt =====
-- The hash table at a table of numbers.
use gmake.Hash.{
  Hashing, HashTable, table_of_size, hash_init, hash_insert, hash_delete, hash_find_item, hash_load,
  hash_dump, hash_rehash,
}
use gmake.Hash.Delete.{table_of_size-IsValid, hash_delete_lem}
use gmake.Hash.Insert.{hash_insert_lem}
use gmake.Hash.Load.{sought, hash_load_lem}
use gmake.Hash.Lookup.{find_item-Holds}
use gmake.Hash.Probe.{IsHashing}
use gmake.Hash.Rehash.{SameItems, rehash-IsValid}
use gmake.Hash.Valid.{Holds, IsValid}
use gmake.Prelude.{
  ℕ, ◌*◌, ◌/◌, ◌%◌, ◌^◌, ◌≤◌, sym, ◌≡◌, refl, List, [], ◌∷◌, Option, none, some, ◌==◌, leb,
  if◌then◌else◌, arith, ap,
}

-- numbers that are compared by their last three digits
abbrev by_digits : Hashing ℕ
by_digits = record {
  hash_1 = λ n. n % 1000;
  hash_2 = λ n. n % 1000 / 16;
  compare_eq = λ a b. a % 1000 == b % 1000;
  same_pointer = λ a b. a == b;
}

by_digits-IsHashing : IsHashing by_digits
by_digits-IsHashing = record {
  equal_refl = λ x. ground arith;
  equal_sym = λ x y e. ground arith;
  equal_trans = λ x y z e d. ground arith;
  equal-hash_1 = λ x y e. ground arith;
  equal-hash_2 = λ x y e. (let same : x % 1000 ≡ y % 1000 = ground arith in ap (λ n. n / 16) same);
  same_equal = λ x y e. (let same : x ≡ y = ground arith in ground arith);
}

abbrev sixteen : HashTable ℕ
sixteen = table_of_size 16

sixteen-IsValid : IsValid by_digits sixteen
sixteen-IsValid =
    (table_of_size-IsValid by_digits by_digits-IsHashing 4 16 (omega arith) refl (omega arith)).0

-- three keys of one slot, the third in place of the first
abbrev keys : List ℕ
keys = 5 ∷ 21 ∷ 1005 ∷ []

abbrev items_of : Option (HashTable ℕ) → List ℕ
unfolding hash_dump
items_of none = []
items_of (some ht) = hash_dump ht.vec

abbrev size_of : Option (HashTable ℕ) → ℕ
size_of none = 0
size_of (some ht) = ht.size

load_run : items_of (hash_load by_digits keys sixteen) ≡ 1005 ∷ 21 ∷ []
unfolding hash_load table_of_size items_of
load_run = refl

-- sixteen items are one more than the capacity: the table is doubled
many_run :
    items_of (
      hash_load by_digits
        (0 ∷ 1 ∷ 2 ∷ 3 ∷ 4 ∷ 5 ∷ 6 ∷ 7 ∷ 8 ∷ 9 ∷ 10 ∷ 11 ∷ 12 ∷ 13 ∷ 16 ∷ 32 ∷ [])
        sixteen)
    ≡ 0 ∷ 1 ∷ 2 ∷ 3 ∷ 4 ∷ 5 ∷ 6 ∷ 7 ∷ 8 ∷ 9 ∷ 10 ∷ 11 ∷ 12 ∷ 13 ∷ 32 ∷ 16 ∷ []
unfolding hash_load table_of_size items_of
many_run = refl

-- round_up_2 doubles a power of two
hash_init_run : HashTable.size (hash_init {A = ℕ} 16) ≡ 32
unfolding hash_init table_of_size
hash_init_run = refl

hash_load_lem_example :
    (after : HashTable ℕ) × (hash_load by_digits keys sixteen ≡ some after)
    × IsValid by_digits after
    × ((key : ℕ)
        → hash_find_item by_digits after key
          ≡ sought by_digits (hash_find_item by_digits sixteen key) keys key)
unfolding table_of_size
hash_load_lem_example =
    hash_load_lem by_digits by_digits-IsHashing keys sixteen sixteen-IsValid (omega arith)
      (omega arith)

loaded :
    (after : HashTable ℕ) × (hash_load by_digits keys sixteen ≡ some after)
    × IsValid by_digits after
    × (after.size ≤ 2 ^ 31)
unfolding hash_load table_of_size
loaded =
    let (after, run, valid, _) =
      hash_load_lem by_digits by_digits-IsHashing keys sixteen sixteen-IsValid (omega arith)
        (omega arith) in
    let size : after.size ≡ 16 = sym (ap size_of run) in (after, run, valid, omega arith)

abbrev filled : HashTable ℕ
filled = loaded.0

abbrev filled-IsValid : IsValid by_digits filled
filled-IsValid = loaded.2

find_item-Holds_example :
    (r : Option ℕ) × (hash_find_item by_digits filled 5 ≡ some r)
    × Holds by_digits (HashTable.vec filled) 5 r
find_item-Holds_example = find_item-Holds by_digits by_digits-IsHashing filled 5 filled-IsValid

hash_insert_lem_example :
    (old : Option ℕ) × (after : HashTable ℕ) × (hash_insert by_digits filled 21 ≡ some (old, after))
    × (hash_find_item by_digits filled 21 ≡ some old)
    × IsValid by_digits after
    × ((key : ℕ)
        → hash_find_item by_digits after key
          ≡ (if key % 1000 == 21 then some (some 21) else hash_find_item by_digits filled key))
hash_insert_lem_example =
    hash_insert_lem by_digits by_digits-IsHashing filled 21 filled-IsValid loaded.3

hash_delete_lem_example :
    (old : Option ℕ) × (after : HashTable ℕ) × (hash_delete by_digits filled 5 ≡ some (old, after))
    × (hash_find_item by_digits filled 5 ≡ some old)
    × IsValid by_digits after
    × ((key : ℕ)
        → hash_find_item by_digits after key
          ≡ (if key % 1000 == 5 then some none else hash_find_item by_digits filled key))
hash_delete_lem_example = hash_delete_lem by_digits by_digits-IsHashing filled 5 filled-IsValid

rehash-IsValid_example :
    (after : HashTable ℕ) × (hash_rehash by_digits filled ≡ some after)
    × IsValid by_digits after
    × SameItems (HashTable.vec filled) after.vec
    × (after.size ≡ (
        if leb (HashTable.capacity filled) (HashTable.fill filled)
        then HashTable.size filled * 2
        else HashTable.size filled))
    × (after.fill ≡ HashTable.fill filled)
rehash-IsValid_example =
    rehash-IsValid by_digits by_digits-IsHashing filled (IsValid.laid filled-IsValid) loaded.3
