-- ===== src/Tests/Variables.antt =====
-- The variables and their scopes at concrete definitions.
use gmake.Hash.{HashTable, table_of_size, hash_load}
use gmake.Hash.Delete.{table_of_size-IsValid}
use gmake.Hash.Load.{hash_load_lem}
use gmake.Hash.Valid.{IsValid}
use gmake.Jhash.{jhash}
use gmake.Prelude.{
  ℕ, ◌^◌, ◌≤◌, ◌≡◌, refl, sym, ap, true, false, List, [], ◌∷◌, ◌++◌, Option, none, some, Bytes,
  codes, ◌=?◌, if◌then◌else◌, arith,
}
use gmake.Scopes.{
  Scope, Scopes, from_global, current_variable_set_list, search_scopes, push_new_variable_scope,
  pop_variable_scope,
}
use gmake.Scopes.Nested.{variable_of, with_current, pop_push_lem}
use gmake.Scopes.Search.{AllValid, Innermost, search_scopes-Innermost}
use gmake.Variables.{
  Variable, o_env, o_file, o_command, VariableSet, Store, variable_key, naming,
  define_variable_in_set, undefine_variable_in_set, lookup_variable_in_set,
}
use gmake.Variables.Define.{naming-IsHashing, IsReady, Outcome, define_variable_in_set_lem}
use gmake.Variables.Undefine.{left_of, undefine_variable_in_set_lem}

abbrev pub cc_name : Bytes
cc_name = codes "CC"

abbrev pub empty_set : VariableSet
empty_set = record { table = table_of_size 16; is_global = true }

abbrev pub empty_store : Store
empty_store = record { set = empty_set; variable_changenum = 0 }

pub empty_set-IsReady : IsReady empty_set
unfolding table_of_size
empty_set-IsReady = record {
  valid = (table_of_size-IsValid naming naming-IsHashing 4 16 (omega arith) refl (omega arith)).0;
  half = omega arith;
}

-- a set with a variable of the command line
size_of : Option (HashTable Variable) → ℕ
size_of none = 0
size_of (some table) = table.size

abbrev pub cc_variable : Variable
cc_variable = record (variable_key cc_name) { value = codes "clang"; origin = o_command }

fill_of : Option (HashTable Variable) → ℕ
fill_of none = 0
fill_of (some table) = table.fill

pub cc_table :
    (table : HashTable Variable) × (hash_load naming (cc_variable ∷ []) empty_set.table
      ≡ some table)
    × IsValid naming table
    × (table.size ≤ 2 ^ 31)
    × (table.fill ≡ 1)
unfolding hash_load table_of_size size_of fill_of jhash
cc_table =
    let (table, run, valid, _) =
      hash_load_lem naming naming-IsHashing (cc_variable ∷ []) empty_set.table
        empty_set-IsReady.valid (omega arith) (omega arith) in
    let size : table.size ≡ 16 = sym (ap size_of run) in
    (table, run, valid, omega arith, sym (ap fill_of run))

abbrev pub cc_store : Store
cc_store = record empty_store { set = record empty_set { table = cc_table.0 } }

pub cc_store-IsReady : IsReady cc_store.set
cc_store-IsReady = record { valid = cc_table.2; half = cc_table.3 }

-- a definition in the environment, one on the command line, and then one in a makefile, which does not count
abbrev value_of : Option Variable → Bytes
value_of none = []
value_of (some v) = v.value

value_behind : Store → Bytes
unfolding define_variable_in_set
value_behind s = elim (define_variable_in_set false cc_name (codes "gcc") o_env true none s) [
  | none ↦ []
  | some (v, s1) ↦
      elim (define_variable_in_set false cc_name (codes "clang") o_command true none s1) [
        | none ↦ []
        | some (v2, s2) ↦
            elim (define_variable_in_set false cc_name (codes "tcc") o_file true none s2) [
              | none ↦ []
              | some (v3, s3) ↦ v3.value
            ]
      ]
]

value_run : value_behind empty_store ≡ codes "clang"
unfolding value_behind table_of_size jhash
value_run = refl

define_variable_in_set_lem_example :
    (old : Option Variable) × (v : Variable) × (after : Store) × (define_variable_in_set false
        cc_name
        (codes "gcc")
        o_file
        true
        none
        cc_store
      ≡ some (v, after))
    × (lookup_variable_in_set cc_name cc_store.set ≡ some old)
    × Outcome false cc_name (codes "gcc") o_file true none v old
    × IsValid naming after.set.table
    × ((n : Bytes)
        → lookup_variable_in_set n after.set
          ≡ (if n =? cc_name then some (some v) else lookup_variable_in_set n cc_store.set))
define_variable_in_set_lem_example =
    define_variable_in_set_lem false cc_name (codes "gcc") o_file true none cc_store
      cc_store-IsReady

undefine_variable_in_set_lem_example :
    (old : Option Variable) × (after : Store) × (undefine_variable_in_set false cc_name o_file
        cc_store
      ≡ some after)
    × (lookup_variable_in_set cc_name cc_store.set ≡ some old)
    × IsValid naming after.set.table
    × ((n : Bytes)
        → lookup_variable_in_set n after.set ≡ (
            if n =? cc_name
            then some (left_of false cc_name o_file old)
            else lookup_variable_in_set n cc_store.set))
undefine_variable_in_set_lem_example =
    undefine_variable_in_set_lem false cc_name o_file cc_store cc_store-IsReady

abbrev outer : Scope
outer = record { set = cc_store.set; next_is_parent = false }

abbrev inner : Scope
inner = record { set = record empty_set { is_global = false }; next_is_parent = true }

abbrev two_scopes : Scopes
two_scopes = record { locals = inner ∷ []; global_setlist = outer; globals = [] }

search_scopes-Innermost_example :
    (r : Option (ℕ × Variable)) × (search_scopes false (inner ∷ outer ∷ []) cc_name 0 ≡ some r)
    × Innermost false (inner ∷ outer ∷ []) cc_name r
unfolding AllValid
search_scopes-Innermost_example =
    search_scopes-Innermost (inner ∷ outer ∷ []) cc_name (empty_set-IsReady.valid, (cc_table.2, tt))

pop_push_lem_example :
    ((t : VariableSet)
      → pop_variable_scope (with_current t (push_new_variable_scope two_scopes)) ≡ some two_scopes)
    × ((name : Bytes)
        → variable_of (
            search_scopes false
              (current_variable_set_list (push_new_variable_scope two_scopes))
              name
              0)
          ≡ variable_of (search_scopes false (current_variable_set_list two_scopes) name 0))
    × ((file : List Scope) (name : Bytes)
        → variable_of
            (search_scopes false (file ++ from_global (push_new_variable_scope two_scopes)) name 0)
          ≡ variable_of (search_scopes false (file ++ from_global two_scopes) name 0))
pop_push_lem_example = pop_push_lem two_scopes refl
