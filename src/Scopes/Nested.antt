-- ===== src/Scopes/Nested.antt =====
-- push_new_variable_scope and pop_variable_scope of make-4.4/src/variable.c.
use gmake.Hash.Delete.{table_of_size-IsValid}
use gmake.Hash.Valid.{IsValid}
use gmake.Hash.{hash_init, hash_find_item}
use gmake.Prelude.{
  ℕ, suc, ◌≡◌, refl, ◌∙◌, ap, sym, inl, inr, Bool, false, ◌||◌, List, [], ◌∷◌, ◌++◌, Option, none,
  some, Bytes, if◌then◌else◌, arith, Bool-cases, Option-cases,
}
use gmake.Scopes.{
  Scope, Scopes, from_global, current_variable_set_list, is_visible, search_scopes,
  create_new_variable_set, push_scope, push_new_variable_scope, pop_scope, pop_variable_scope,
}
use gmake.Variables.{Variable, VariableSet, naming, variable_key, lookup_variable_in_set}
use gmake.Variables.Define.{naming-IsHashing}

new_set-IsValid :
    IsValid naming create_new_variable_set.set.table
    × ((key : Variable) → hash_find_item naming create_new_variable_set.set.table key ≡ some none)
unfolding create_new_variable_set hash_init
new_set-IsValid =
    table_of_size-IsValid naming naming-IsHashing 4 16 (omega arith) refl (omega arith)

-- another set in the first place of current_variable_set_list: a definition in the current scope
abbrev pub with_current : VariableSet → Scopes → Scopes
with_current t s = elim s.locals [
  | [] ↦ record s { global_setlist = record s.global_setlist { set = t } }
  | l ∷ locals ↦ record s { locals = record l { set = t } ∷ locals }
]

-- the variable that a search finds, in whatever set
unfoldable pub variable_of : Option (Option (ℕ × Variable)) → Option (Option Variable)
variable_of none = none
variable_of (some none) = some none
variable_of (some (some (place, v))) = some (some v)

-- the same without the numbers of the sets
seen_in : Bool → List Scope → Bytes → Option (Option Variable)
seen_in is_parent [] name = some none
seen_in is_parent (s ∷ rest) name =
    let further = seen_in (is_parent || s.next_is_parent) rest name in
    elim (lookup_variable_in_set name s.set) [
      | none ↦ none
      | some none ↦ further
      | some (some v) ↦ if is_visible is_parent v then some (some v) else further
    ]

variable_of-search :
    (is_parent : Bool) (scopes : List Scope) (name : Bytes) (n : ℕ)
    → variable_of (search_scopes is_parent scopes name n) ≡ seen_in is_parent scopes name
unfolding search_scopes seen_in variable_of
variable_of-search is_parent [] name n = refl
variable_of-search is_parent (s ∷ rest) name n =
    let later = variable_of-search (is_parent || s.next_is_parent) rest name (suc n) in
    elim (Option-cases (lookup_variable_in_set name s.set)) [
      | inl e ↦ rw (e, search_scopes, seen_in) refl
      | inr (none, e) ↦ rw (e, search_scopes, seen_in) later
      | inr (some v, e) ↦ elim (Bool-cases (is_visible is_parent v)) [
        | inl t ↦ rw (e, search_scopes, seen_in) rw t refl
        | inr t ↦ rw (e, search_scopes, seen_in) rw t later
      ]
    ]

seen_in-append :
    (before xs ys : List Scope) (name : Bytes)
    → ((p : Bool) → seen_in p xs name ≡ seen_in p ys name)
    → (is_parent : Bool)
    → seen_in is_parent (before ++ xs) name ≡ seen_in is_parent (before ++ ys) name
unfolding seen_in
seen_in-append [] xs ys name same is_parent = same is_parent
seen_in-append (s ∷ before) xs ys name same is_parent =
    let later = seen_in-append before xs ys name same (is_parent || s.next_is_parent) in
    elim (Option-cases (lookup_variable_in_set name s.set)) [
      | inl e ↦ rw (e, seen_in) refl
      | inr (none, e) ↦ rw (e, seen_in) later
      | inr (some v, e) ↦
          rw (e, seen_in)
            (ap (λ further. if is_visible is_parent v then some (some v) else further) later)
    ]

-- a new set in front
seen_in-new :
    (rest : List Scope) (name : Bytes) (link is_parent : Bool)
    → link ≡ false
    → seen_in is_parent (record create_new_variable_set { next_is_parent = link } ∷ rest) name
      ≡ seen_in is_parent rest name
unfolding seen_in lookup_variable_in_set
seen_in-new rest name link is_parent e =
    let nothing = new_set-IsValid.1 (variable_key name) in
    let same : (is_parent || link) ≡ is_parent = ground arith in
    rw (nothing, seen_in) (ap (λ p. seen_in p rest name) same)

module _ (g : Scope) (globals : List Scope) where
  abbrev scopes : List Scope → Scopes
  scopes locals = record { locals = locals; global_setlist = g; globals = globals }

  pop_push :
      (locals : List Scope) (t : VariableSet)
      → g.next_is_parent ≡ false
      → pop_variable_scope (with_current t (push_new_variable_scope (scopes locals)))
        ≡ some (scopes locals)
  unfolding pop_variable_scope push_new_variable_scope push_scope pop_scope create_new_variable_set
  pop_push [] t e =
      ap (λ b. some (record (scopes []) { global_setlist = record g { next_is_parent = b } }))
        (sym e)
  pop_push (l ∷ locals) t e = refl

  seen_global :
      (locals : List Scope) (name : Bytes) (p : Bool)
      → g.next_is_parent ≡ false
      → seen_in p (from_global (push_new_variable_scope (scopes locals))) name
        ≡ seen_in p (g ∷ globals) name
  unfolding push_new_variable_scope push_scope
  seen_global [] name p e =
      seen_in-new _ name g.next_is_parent p e
      ∙ ap (λ b. seen_in p (record g { next_is_parent = b } ∷ globals) name) (sym e)
  seen_global (l ∷ locals) name p e = refl

  seen_current :
      (locals : List Scope) (name : Bytes)
      → g.next_is_parent ≡ false
      → seen_in false (current_variable_set_list (push_new_variable_scope (scopes locals))) name
        ≡ seen_in false (current_variable_set_list (scopes locals)) name
  unfolding push_new_variable_scope push_scope current_variable_set_list
  seen_current [] name e = seen_global [] name false e
  seen_current (l ∷ locals) name e = seen_in-new (l ∷ locals ++ g ∷ globals) name false false refl

-- Where the link of global_setlist does not lead to a parent target: a scope that is pushed hides nothing, in the
-- current list and in that of a file. Whatever is defined in it, the scopes are those before when it is popped.
pub pop_push_lem :
    (s : Scopes)
    → s.global_setlist.next_is_parent ≡ false
    → ((t : VariableSet) → pop_variable_scope (with_current t (push_new_variable_scope s)) ≡ some s)
      × ((name : Bytes)
          → variable_of
              (search_scopes false (current_variable_set_list (push_new_variable_scope s)) name 0)
            ≡ variable_of (search_scopes false (current_variable_set_list s) name 0))
      × ((file : List Scope) (name : Bytes)
          → variable_of
              (search_scopes false (file ++ from_global (push_new_variable_scope s)) name 0)
            ≡ variable_of (search_scopes false (file ++ from_global s) name 0))
pop_push_lem s e = (
  λ t. pop_push s.global_setlist s.globals s.locals t e,
  λ name.
      variable_of-search false (current_variable_set_list (push_new_variable_scope s)) name 0
      ∙ seen_current s.global_setlist s.globals s.locals name e
      ∙ sym (variable_of-search false (current_variable_set_list s) name 0),
  λ file name.
      variable_of-search false (file ++ from_global (push_new_variable_scope s)) name 0
      ∙ seen_in-append file (from_global (push_new_variable_scope s)) (from_global s) name
          (λ p. seen_global s.global_setlist s.globals s.locals name p e) false
      ∙ sym (variable_of-search false (file ++ from_global s) name 0),
)
