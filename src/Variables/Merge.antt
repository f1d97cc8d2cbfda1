-- ===== src/Variables/Merge.antt =====
-- merge_variable_sets of make-4.4/src/variable.c. The two sets are apart, and the variables that are freed are those of
-- the set that is merged into the other.
use gmake.Hash.{Slot, deleted, item, occupant, hash_find_slot, hash_insert_at}
use gmake.Prelude.{ℕ, List, [], ◌∷◌, Option, none, some, get_or}
use gmake.Variables.{Variable, VariableSet, Store, naming, counted_change}

-- an item of the other set, at the slot of its name
unfoldable pub merge_at : Store → Variable → ℕ → Option Variable → Option Store
unfolding hash_insert_at
merge_at s from_var slot (some v) = some s
merge_at s from_var slot none = elim (hash_insert_at naming s.set.table from_var slot) [
  | none ↦ none
  | some (at, table) ↦ some (counted_change s table)
]

unfoldable pub merge_item : Store → Variable → Option Store
unfolding hash_find_slot occupant merge_at
merge_item s from_var = elim (hash_find_slot naming s.set.table from_var) [
  | none ↦ none
  | some slot ↦ merge_at s from_var slot (occupant (get_or s.set.table.vec slot Slot.empty))
]

-- the loop over the slots of the other set; `none` for a call that does not return
unfoldable pub merge_slots : Store → List (Slot Variable) → Option Store
unfolding merge_item
merge_slots s [] = some s
merge_slots s (Slot.empty ∷ vec) = merge_slots s vec
merge_slots s (deleted ∷ vec) = merge_slots s vec
merge_slots s (item v ∷ vec) = elim (merge_item s v) [
  | none ↦ none
  | some next ↦ merge_slots next vec
]

unfoldable pub merge_variable_sets : Store → VariableSet → Option Store
unfolding merge_slots
merge_variable_sets to_set from_set = merge_slots to_set from_set.table.vec
