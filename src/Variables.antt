-- ===== src/Variables.antt =====
-- make-4.4/src/variable.c: the sets of variables, and their definitions by origin. The parts that only VMS compiles
-- are left out.
pub mod Merge
pub mod Merged
pub mod Define
pub mod Undefine
use gmake.Hash.{
  Slot, item, Hashing, HashTable, occupant, hash_init, hash_find_slot, hash_find_item,
  hash_insert_at, hash_delete_at, hash_dump,
}
use gmake.Jhash.{jhash}
use gmake.Prelude.{
  ℕ, zero, suc, ◌+◌, ◌-◌, ◌%◌, ◌^◌, Bool, true, false, not, ◌&&◌, ◌||◌, List, [], ◌∷◌, ◌++◌, Option,
  none, some, Bytes, ltb, leb, ◌==◌, ◌=?◌, codes, if◌then◌else◌, length, set, take, get_or,
}

pub data VariableOrigin : Type 0 where
  o_default o_env o_file o_env_override o_command o_override o_automatic o_invalid : VariableOrigin

pub data VariableFlavor : Type 0 where
  f_bogus f_simple f_recursive f_expand f_append f_conditional f_shell f_append_value :
      VariableFlavor

pub data VariableExport : Type 0 where
  v_default v_export v_noexport v_ifset : VariableExport

-- floc, the place of a definition; a null `filenm` is `none`
pub record Floc : Type 0 where
  pub filenm : Option Bytes
  pub lineno : ℕ
  pub offset : ℕ

-- `length` is that of the name
pub record Variable : Type 0 where
  pub name : Bytes
  pub value : Bytes
  pub fileinfo : Floc
  pub recursive : Bool
  pub append : Bool
  pub conditional : Bool
  pub per_target : Bool
  pub special : Bool
  pub exportable : Bool
  pub expanding : Bool
  pub private_var : Bool
  pub exp_count : ℕ
  pub flavor : VariableFlavor
  pub origin : VariableOrigin
  pub export : VariableExport

-- `(int) origin`
abbrev pub int_of_origin : VariableOrigin → ℕ
int_of_origin o_default = 0
int_of_origin o_env = 1
int_of_origin o_file = 2
int_of_origin o_env_override = 3
int_of_origin o_command = 4
int_of_origin o_override = 5
int_of_origin o_automatic = 6
int_of_origin o_invalid = 7

abbrev pub no_floc : Floc
no_floc = record { filenm = none; lineno = 0; offset = 0 }

-- `xcalloc`, with the name set: var_key of a look-up, and a new variable
abbrev pub variable_key : Bytes → Variable
variable_key name = record {
  name = name;
  value = [];
  fileinfo = no_floc;
  recursive = false;
  append = false;
  conditional = false;
  per_target = false;
  special = false;
  exportable = false;
  expanding = false;
  private_var = false;
  exp_count = 0;
  flavor = f_bogus;
  origin = o_default;
  export = v_default;
}

-- variable_hash_1, variable_hash_2 and variable_hash_cmp. Two pointers to one variable have one name, and so the
-- test of pointers in hash_find_slot makes no difference.
abbrev pub naming : Hashing Variable
naming = record {
  hash_1 = λ v. jhash v.name;
  hash_2 = λ v. 0;
  compare_eq = λ x y. x.name =? y.name;
  same_pointer = λ x y. false;
}

-- a set, with whether it is global_variable_set
pub record VariableSet : Type 0 where
  pub table : HashTable Variable
  pub is_global : Bool

-- a set, and variable_changenum
pub record Store : Type 0 where
  pub set : VariableSet
  pub variable_changenum : ℕ

-- `if (env_overrides && origin == o_env) origin = o_env_override`
abbrev pub with_overrides : Bool → VariableOrigin → VariableOrigin
with_overrides true o_env = o_env_override
with_overrides _ origin = origin

-- `*name != '_' && (*name < 'A' || *name > 'Z') && (*name < 'a' || *name > 'z')` is false
abbrev pub starts_name : ℕ → Bool
starts_name c = c == 95 || (leb 65 c && leb c 90) || (leb 97 c && leb c 122)

abbrev pub continues_name : ℕ → Bool
continues_name c = starts_name c || (leb 48 c && leb c 57)

unfoldable pub all_continue : Bytes → Bool
all_continue [] = true
all_continue (c ∷ name) = let rest = all_continue name in continues_name c && rest

unfoldable pub is_exportable : Bytes → Bool
unfolding all_continue
is_exportable [] = false
is_exportable (c ∷ name) = starts_name c && all_continue name

-- a definition of a variable that is there
unfoldable pub redefine : Bool → Bytes → VariableOrigin → Bool → Option Floc → Variable → Variable
redefine env_overrides value origin recursive flocp v =
    let kept = with_overrides env_overrides v.origin in
    if leb (int_of_origin kept) (int_of_origin origin)
    then record v {
      value = value;
      fileinfo = elim flocp [ none ↦ record v.fileinfo { filenm = none } | some place ↦ place ];
      origin = origin;
      recursive = recursive;
    }
    else record v { origin = kept }

-- a new variable: hash_insert_at is called when only its name is set, and reads no more
unfoldable pub new_variable : Bytes → Bytes → VariableOrigin → Bool → Option Floc → Variable
unfolding is_exportable
new_variable name value origin recursive flocp = record (variable_key name) {
  value = value;
  fileinfo = elim flocp [ none ↦ no_floc | some place ↦ place ];
  origin = origin;
  recursive = recursive;
  exportable = is_exportable name;
}

-- a change of the global set
abbrev pub counted_change : Store → HashTable Variable → Store
counted_change s table = record s {
  set = record s.set { table = table };
  variable_changenum =
      if s.set.is_global then (s.variable_changenum + 1) % 2 ^ 64 else s.variable_changenum;
}

unfoldable pub define_at :
    Bool
    → Bytes
    → Bytes
    → VariableOrigin
    → Bool
    → Option Floc
    → Store
    → ℕ
    → Option Variable
    → Option (Variable × Store)
unfolding redefine new_variable hash_insert_at
define_at env_overrides name value origin recursive flocp s slot (some v) =
    let changed = redefine env_overrides value origin recursive flocp v in
    let table = record s.set.table { vec = set s.set.table.vec slot (item changed) } in
    some (changed, record s { set = record s.set { table = table } })
define_at env_overrides name value origin recursive flocp s slot none =
    let v = new_variable name value origin recursive flocp in
    elim (hash_insert_at naming s.set.table v slot) [
      | none ↦ none
      | some (at, table) ↦ some (v, counted_change s table)
    ]

-- `none` for a call that does not return
unfoldable pub define_variable_in_set :
    Bool → Bytes → Bytes → VariableOrigin → Bool → Option Floc → Store → Option (Variable × Store)
unfolding hash_find_slot occupant define_at
define_variable_in_set env_overrides name value origin recursive flocp s =
    elim (hash_find_slot naming s.set.table (variable_key name)) [
      | none ↦ none
      | some slot ↦
          define_at env_overrides name value (with_overrides env_overrides origin) recursive flocp s
            slot (occupant (get_or s.set.table.vec slot Slot.empty))
    ]

unfoldable pub undefine_at : Bool → VariableOrigin → Store → ℕ → Option Variable → Store
unfolding hash_delete_at
undefine_at env_overrides origin s slot none = s
undefine_at env_overrides origin s slot (some v) =
    let kept = with_overrides env_overrides v.origin in
    let changed = set s.set.table.vec slot (item (record v { origin = kept })) in
    let table = record s.set.table { vec = changed } in
    if leb (int_of_origin kept) (int_of_origin origin)
    then counted_change s (hash_delete_at table slot).1
    else record s { set = record s.set { table = table } }

unfoldable pub undefine_variable_in_set : Bool → Bytes → VariableOrigin → Store → Option Store
unfolding hash_find_slot occupant undefine_at
undefine_variable_in_set env_overrides name origin s =
    elim (hash_find_slot naming s.set.table (variable_key name)) [
      | none ↦ none
      | some slot ↦ some (
          undefine_at env_overrides (with_overrides env_overrides origin) s slot
            (occupant (get_or s.set.table.vec slot Slot.empty)))
    ]

unfoldable pub lookup_variable_in_set : Bytes → VariableSet → Option (Option Variable)
unfolding hash_find_item
lookup_variable_in_set name s = hash_find_item naming s.table (variable_key name)
