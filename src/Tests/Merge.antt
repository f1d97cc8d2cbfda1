-- ===== src/Tests/Merge.antt =====
-- Two sets of variables that are merged.
use gmake.Hash.{item, deleted, table_of_size}
use gmake.Hash.Valid.{IsValid}
use gmake.Jhash.{jhash}
use gmake.Prelude.{◌≡◌, refl, [], ◌∷◌, Option, none, some, Bytes, codes, arith}
use gmake.Tests.Variables.{
  cc_name, empty_set, empty_store, empty_set-IsReady, cc_variable, cc_table, cc_store,
  cc_store-IsReady,
}
use gmake.Variables.{Variable, Store, variable_key, naming, lookup_variable_in_set}
use gmake.Variables.Merge.{merge_slots, merge_variable_sets}
use gmake.Variables.Merged.{or_else, merge_variable_sets_lem}

abbrev value_in : Option Store → Bytes → Bytes
value_in none name = []
value_in (some s) name = elim (lookup_variable_in_set name s.set) [
  | none ↦ []
  | some none ↦ []
  | some (some v) ↦ v.value
]

abbrev other_variable : Variable
other_variable = record (variable_key (codes "LD")) { value = codes "lld" }

-- the first variable of a name is kept
abbrev merged : Option Store
merged =
    merge_slots empty_store
      (item cc_variable ∷ deleted ∷ item other_variable ∷ item (variable_key cc_name) ∷ [])

kept_run : value_in merged cc_name ≡ codes "clang"
unfolding merge_slots table_of_size jhash lookup_variable_in_set
kept_run = refl

added_run : value_in merged (codes "LD") ≡ codes "lld"
unfolding merge_slots table_of_size jhash lookup_variable_in_set
added_run = refl

merge_variable_sets_lem_example :
    (after : Store) × (merge_variable_sets empty_store cc_store.set ≡ some after)
    × IsValid naming after.set.table
    × ((n : Bytes)
        → (r : Option Variable) × (lookup_variable_in_set n cc_store.set ≡ some r)
          × (lookup_variable_in_set n after.set ≡ or_else (lookup_variable_in_set n empty_set) r))
merge_variable_sets_lem_example =
    let fill = cc_table.4 in
    merge_variable_sets_lem empty_store cc_store.set empty_set-IsReady cc_store-IsReady.valid
      (unfold table_of_size in omega arith)
