-- ===== src/Hash/Load.antt =====
-- hash_load, hash_dump and hash_delete_items of make-4.4/src/hash.c: a table filled, copied out, and emptied.
use gmake.Hash.Delete.{table_of_size-IsValid}
use gmake.Hash.Found.{item_inj}
use gmake.Hash.Rounds.{some_inj}
use gmake.Hash.Insert.{inserted}
use gmake.Hash.Lookup.{find_item-Holds}
use gmake.Hash.Probe.{IsHashing}
use gmake.Hash.Valid.{Has, IsValid, is_item}
use gmake.Hash.{
  Slot, empty, deleted, item, Hashing, HashTable, hash_find_item, table_of_size, hash_load,
  hash_dump, hash_map, hash_delete_items,
}
use gmake.Prelude.{
  ℕ, zero, suc, ◌+◌, ◌^◌, ◌≤◌, ◌≡◌, refl, ◌∙◌, ap, sym, inl, inr, List, [], ◌∷◌, Option, none, some,
  arith, Bool-cases, length, get_elem?, one, count, if◌then◌else◌,
}

length-hash_dump {ℓ} :
    {A : Type ℓ} (vec : List (Slot A)) → length (hash_dump vec) ≡ count is_item vec
unfolding hash_dump count one
length-hash_dump [] = refl
length-hash_dump (empty ∷ vec) = omega (arith, length-hash_dump vec)
length-hash_dump (deleted ∷ vec) = omega (arith, length-hash_dump vec)
length-hash_dump (item x ∷ vec) = omega (arith, length-hash_dump vec)

unfoldable pub call_each {ℓ ℓ'} : {A : Type ℓ} {S : Type ℓ'} → (A → S → S) → List A → S → S
call_each call [] s = s
call_each call (x ∷ items) s = let next = call x s in call_each call items next

hash_map-each {ℓ ℓ'} :
    {A : Type ℓ} {S : Type ℓ'} (call : A → S → S) (vec : List (Slot A)) (s : S)
    → hash_map call vec s ≡ call_each call (hash_dump vec) s
unfolding hash_map call_each hash_dump
hash_map-each call [] s = refl
hash_map-each call (empty ∷ vec) s = hash_map-each call vec s
hash_map-each call (deleted ∷ vec) s = hash_map-each call vec s
hash_map-each call (item x ∷ vec) s = hash_map-each call vec (call x s)

-- an item is dumped from the slot behind as many items as it is dumped at
dumped {ℓ} :
    {A : Type ℓ} (vec : List (Slot A)) (x : A)
    → Has vec x
    → (j : ℕ) × (get_elem? (hash_dump vec) j ≡ some x)
unfolding hash_dump
dumped [] x (i, e) = cc
dumped (empty ∷ vec) x (zero, e) = cc
dumped (deleted ∷ vec) x (zero, e) = cc
dumped (item y ∷ vec) x (zero, e) = (0, ap some (item_inj e))
dumped (empty ∷ vec) x (suc i, e) = dumped vec x (i, e)
dumped (deleted ∷ vec) x (suc i, e) = dumped vec x (i, e)
dumped (item y ∷ vec) x (suc i, e) = let (j, at) = dumped vec x (i, e) in (suc j, at)

-- what is dumped is in the vector
from_slot {ℓ} :
    {A : Type ℓ} (vec : List (Slot A)) (x : A) (j : ℕ)
    → get_elem? (hash_dump vec) j ≡ some x
    → Has vec x
unfolding hash_dump
from_slot [] x j e = cc
from_slot (empty ∷ vec) x j e = let (i, at) = from_slot vec x j e in (suc i, at)
from_slot (deleted ∷ vec) x j e = let (i, at) = from_slot vec x j e in (suc i, at)
from_slot (item y ∷ vec) x zero e = (0, ap item (some_inj e))
from_slot (item y ∷ vec) x (suc j) e = let (i, at) = from_slot vec x j e in (suc i, at)

-- Of a valid table hash_dump copies as many items as the table counts, so that the vector of ht_fill + 1
-- pointers that it allocates is not overrun, and hash_map calls its function for these items in their order.
-- An item is among them just if it is in a slot.
pub hash_dump-fill {ℓ ℓ'} :
    {A : Type ℓ} {S : Type ℓ'} (h : Hashing A) (ht : HashTable A) (call : A → S → S) (s : S)
    → IsValid h ht
    → (length (hash_dump ht.vec) ≡ ht.fill)
      × (hash_map call ht.vec s ≡ call_each call (hash_dump ht.vec) s)
      × ((x : A)
          → (Has ht.vec x → (j : ℕ) × (get_elem? (hash_dump ht.vec) j ≡ some x))
            × ((j : ℕ) → get_elem? (hash_dump ht.vec) j ≡ some x → Has ht.vec x))
hash_dump-fill h ht call s v = (
  length-hash_dump ht.vec ∙ sym v.laid.filled,
  hash_map-each call ht.vec s,
  λ x. (dumped ht.vec x, from_slot ht.vec x),
)

module _ {ℓ} {A : Type ℓ} (h : Hashing A) where
  -- the last of the items that is equal to the key, or else an old one
  unfoldable pub last_equal : List A → A → Option A → Option A
  last_equal [] key old = old
  last_equal (x ∷ items) key old =
      let next = if h.compare_eq key x then some x else old in last_equal items key next

  unfoldable pub sought : Option (Option A) → List A → A → Option (Option A)
  unfolding last_equal
  sought none items key = none
  sought (some old) items key = some (last_equal items key old)

  sought-cons :
      (r r' : Option (Option A)) (x : A) (items : List A) (key : A) (old : Option A)
      → r' ≡ (if h.compare_eq key x then some (some x) else r)
      → r ≡ some old
      → sought r' items key ≡ sought r (x ∷ items) key
  unfolding sought last_equal
  sought-cons r r' x items key old e d = elim (Bool-cases (h.compare_eq key x)) [
    | inl same ↦ let next : r' ≡ some (some x) = rw same at e in rw (next, d, same) refl
    | inr other ↦ let next : r' ≡ r = rw other at e in rw (next, d, other) refl
  ]

module _ {ℓ} {A : Type ℓ} (h : Hashing A) (laws : IsHashing h) where
  -- With functions that keep their promises and a valid table of at most 2^31 slots, which the items leave with
  -- at most 10^9 of them: hash_load returns with a valid table, where a key finds the last of the items that
  -- is equal to it, and what it found before where there is none.
  pub hash_load_lem :
      (items : List A) (ht : HashTable A)
      → IsValid h ht
      → ht.size ≤ 2 ^ 31
      → ht.fill + length items ≤ 10 ^ 9
      → (after : HashTable A) × (hash_load h items ht ≡ some after)
        × IsValid h after
        × ((key : A) → hash_find_item h after key ≡ sought h (hash_find_item h ht key) items key)
  unfolding hash_load
  hash_load_lem [] ht v half room = (
    ht,
    refl,
    v,
    λ key.
        let (r, run, _) = find_item-Holds h laws ht key v in
        rw run (unfold sought last_equal in refl),
  )
  hash_load_lem (x ∷ items) ht v half room =
      let (old, next, run, _, valid, seen, fill, size) = inserted h laws ht x v half in
      let small : next.size ≤ 2 ^ 31 = elim size [ inl e ↦ rw e half | inr full ↦ omega arith ] in
      let (after, more, good, found) = hash_load_lem items next valid small (omega arith) in
      (
        after,
        rw (run, hash_load) more,
        good,
        λ key.
            let (r, was, _) = find_item-Holds h laws ht key v in
            found key ∙ sought-cons h _ _ x items key r (seen key) was,
      )

  -- hash_delete_items leaves a valid table valid, of the same size, and empty.
  pub hash_delete_items_lem :
      (ht : HashTable A)
      → IsValid h ht
      → IsValid h (hash_delete_items ht)
        × ((key : A) → hash_find_item h (hash_delete_items ht) key ≡ some none)
  unfolding hash_delete_items table_of_size
  hash_delete_items_lem ht v =
      let l = v.laid in
      let (valid, none_there) =
        table_of_size-IsValid h laws l.exponent ht.size l.small l.power l.big in
      let same : table_of_size ht.size ≡ hash_delete_items ht =
        ap (λ c. record (table_of_size ht.size) { capacity = c }) (sym l.loaded) in
      (rw (sym same) valid, rw (sym same) none_there)
