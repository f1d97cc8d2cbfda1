-- ===== src/Scopes.antt =====
-- make-4.4/src/variable.c: the list of variable sets that lookup_variable goes through, and the scopes that are
-- pushed onto it and popped.
pub mod Search
pub mod Nested
use gmake.Hash.{Slot, empty, deleted, item, HashTable, hash_init, hash_find_slot, hash_dump}
use gmake.Prelude.{
  ℕ, zero, suc, ◌-◌, Bool, true, false, not, ◌&&◌, ◌||◌, List, [], ◌∷◌, ◌++◌, Option, none, some,
  Bytes, ◌==◌, ◌=?◌, codes, if◌then◌else◌, length, set, take,
}
use gmake.Variables.{Variable, VariableSet, naming, variable_key, lookup_variable_in_set}

-- struct variable_set_list: a list of sets, each with next_is_parent
pub record Scope : Type 0 where
  pub set : VariableSet
  pub next_is_parent : Bool

-- The list in front of global_setlist, and the list from global_setlist on. current_variable_set_list is the first
-- element; it is global_setlist where nothing is in front of it. The list of a file leads to global_setlist too.
pub record Scopes : Type 0 where
  pub locals : List Scope
  pub global_setlist : Scope
  pub globals : List Scope

abbrev pub from_global : Scopes → List Scope
from_global s = s.global_setlist ∷ s.globals

-- current_variable_set_list
unfoldable pub current_variable_set_list : Scopes → List Scope
current_variable_set_list s = s.locals ++ from_global s

-- `v && (!is_parent || !v->private_var)`
abbrev pub is_visible : Bool → Variable → Bool
is_visible is_parent v = not is_parent || not v.private_var

-- the loop of lookup_variable: the number of the set and the variable; the outer `none` for a call that does not return
unfoldable pub search_scopes : Bool → List Scope → Bytes → ℕ → Option (Option (ℕ × Variable))
unfolding lookup_variable_in_set
search_scopes is_parent [] name place = some none
search_scopes is_parent (s ∷ rest) name place =
    let further = search_scopes (is_parent || s.next_is_parent) rest name (suc place) in
    elim (lookup_variable_in_set name s.set) [
      | none ↦ none
      | some none ↦ further
      | some (some v) ↦ if is_visible is_parent v then some (some (place, v)) else further
    ]

-- the names in the order of their slots, each with a blank
unfoldable pub names_of : List Variable → Bytes
names_of [] = []
names_of (v ∷ rest) = let more = names_of rest in v.name ++ 32 ∷ more

-- global_variable_set, which is in every list
unfoldable pub global_variables : List Scope → List Variable
unfolding hash_dump
global_variables [] = []
global_variables (s ∷ rest) =
    let further = global_variables rest in
    if s.set.is_global then hash_dump s.set.table.vec else further

-- lookup_special_var, with variable_changenum and last_changenum: the value of .VARIABLES is made again where the global
-- variables have changed. The last blank becomes the NUL; there is a global variable by then.
unfoldable pub lookup_special_var : List Variable → ℕ → ℕ → Variable → Variable × ℕ
unfolding names_of
lookup_special_var global variable_changenum last_changenum v =
    let names = names_of global in
    if not (variable_changenum == last_changenum) && v.name =? codes ".VARIABLES"
    then (record v { value = take (length names - 1) names }, variable_changenum)
    else (v, last_changenum)

-- `var->value = p`, in the set where the variable was found
unfoldable pub write_value : Variable → Scope → Scope
unfolding hash_find_slot
write_value v s = elim (hash_find_slot naming s.set.table v) [
  | none ↦ s
  | some slot ↦ record s {
    set = record s.set { table = record s.set.table { vec = set s.set.table.vec slot (item v) } };
  }
]

unfoldable pub write_at : ℕ → Variable → List Scope → List Scope
unfolding write_value
write_at place v [] = []
write_at zero v (s ∷ rest) = write_value v s ∷ rest
write_at (suc place) v (s ∷ rest) = s ∷ write_at place v rest

-- what lookup_variable returns, the sets behind it, and last_changenum
unfoldable pub lookup_variable :
    ℕ → ℕ → List Scope → Bytes → Option (Option Variable × List Scope × ℕ)
unfolding search_scopes lookup_special_var global_variables write_at
lookup_variable variable_changenum last_changenum scopes name =
    elim (search_scopes false scopes name 0) [
      | none ↦ none
      | some none ↦ some (none, scopes, last_changenum)
      | some (some (place, v)) ↦ elim v.special [
        | true ↦
            let (found, changenum) =
              lookup_special_var (global_variables scopes) variable_changenum last_changenum v in
            some (some found, write_at place found scopes, changenum)
        | false ↦ some (some v, scopes, last_changenum)
      ]
    ]

-- SMALL_SCOPE_VARIABLE_BUCKETS
abbrev pub small_scope : ℕ
small_scope = 13

-- the set and the link of create_new_variable_set
unfoldable pub create_new_variable_set : Scope
unfolding hash_init
create_new_variable_set = record {
  set = record { table = hash_init small_scope; is_global = false };
  next_is_parent = false;
}

unfoldable pub push_scope : List Scope → Scopes → Scopes
unfolding create_new_variable_set
push_scope [] s = record s {
  global_setlist = record s.global_setlist { set = create_new_variable_set.set };
  globals = record create_new_variable_set { set = s.global_setlist.set } ∷ s.globals;
}
push_scope (l ∷ locals) s = record s { locals = create_new_variable_set ∷ s.locals }

unfoldable pub push_new_variable_scope : Scopes → Scopes
unfolding push_scope
push_new_variable_scope s = push_scope s.locals s

-- `none` where the assertion fails, that a list is behind the first element
unfoldable pub pop_scope : List Scope → List Scope → Scopes → Option Scopes
pop_scope (l ∷ locals) globals s = some (record s { locals = locals })
pop_scope [] [] s = none
pop_scope [] (g ∷ globals) s = some (record s { global_setlist = g; globals = globals })

unfoldable pub pop_variable_scope : Scopes → Option Scopes
unfolding pop_scope
pop_variable_scope s = pop_scope s.locals s.globals s
