-- ===== src/Variables/Define.antt =====
-- define_variable_in_set and undefine_variable_in_set of make-4.4/src/variable.c against the look-ups.
use gmake.Hash.{Slot, empty, deleted, item, occupant, hash_find_slot, hash_find_item}
use gmake.Hash.Insert.{stopped_at}
use gmake.Hash.Lookup.{finds_valid}
use gmake.Hash.Probe.{IsHashing}
use gmake.Hash.Rounds.{Stops, some_inj}
use gmake.Hash.Update.{Put, insert_at-Put, overwrite-Put}
use gmake.Hash.Valid.{IsValid}
use gmake.Jhash.{jhash}
use gmake.Prelude.{
  ℕ, ◌^◌, ◌≤◌, ◌<◌, ◌≡◌, refl, ◌∙◌, ap, sym, inl, inr, Bool, true, Option, none, some, Bytes, leb,
  ◌=?◌, =?_refl, =?_sound, if◌then◌else◌, arith, Bool-cases, get_or, set,
}
use gmake.Variables.{
  Variable, VariableOrigin, Floc, VariableSet, Store, variable_key, naming, with_overrides,
  int_of_origin, redefine, new_variable, counted_change, define_at, define_variable_in_set,
  lookup_variable_in_set,
}

pub naming-IsHashing : IsHashing naming
naming-IsHashing = record {
  equal_refl = λ x. =?_refl x.name;
  equal_sym = λ x y e. (let same = =?_sound x.name y.name e in rw same (=?_refl y.name));
  equal_trans = λ x y z e d.
      (let same = =?_sound x.name y.name e ∙ =?_sound y.name z.name d in rw same (=?_refl z.name));
  equal-hash_1 = λ x y e. ap jhash (=?_sound x.name y.name e);
  equal-hash_2 = λ x y e. refl;
  same_equal = λ x y e. cc;
}

-- a set that is a valid table of at most 2^31 slots
pub record IsReady (s : VariableSet) : Type 0 where
  pub valid : IsValid naming s.table
  pub half : s.table.size ≤ 2 ^ 31

-- a definition: a new variable, or the old one changed
abbrev pub defined :
    Bool → Bytes → Bytes → VariableOrigin → Bool → Option Floc → Option Variable → Variable
defined env_overrides name value origin recursive flocp none =
    new_variable name value (with_overrides env_overrides origin) recursive flocp
defined env_overrides name value origin recursive flocp (some v) =
    redefine env_overrides value (with_overrides env_overrides origin) recursive flocp v

name-redefine :
    (e : Bool) (value : Bytes) (origin : VariableOrigin) (r : Bool) (flocp : Option Floc)
    (v : Variable)
    → Variable.name (redefine e value origin r flocp v) ≡ v.name
unfolding redefine
name-redefine e value origin r flocp v = ground arith

name-defined :
    (e : Bool) (name value : Bytes) (origin : VariableOrigin) (r : Bool) (flocp : Option Floc)
    (old : Option Variable)
    → ((v : Variable) → old ≡ some v → v.name ≡ name)
    → Variable.name (defined e name value origin r flocp old) ≡ name
name-defined e name value origin r flocp none same = unfold new_variable in refl
name-defined e name value origin r flocp (some v) same =
    name-redefine e value (with_overrides e origin) r flocp v ∙ same v refl

pub occupant-item {ℓ} :
    {A : Type ℓ} (slot : Slot A) (u : A) → occupant slot ≡ some u → slot ≡ item u
unfolding occupant
occupant-item empty u e = cc
occupant-item deleted u e = cc
occupant-item (item y) u e = ap item (some_inj e)

pub found_name :
    (s : VariableSet) (name : Bytes) (slot : ℕ) (v : Variable)
    → Stops naming s.table.vec (variable_key name) slot
    → get_or s.table.vec slot empty ≡ item v
    → v.name ≡ name
found_name s name slot v stops at = sym (
    =?_sound name v.name
      (stopped_at naming naming-IsHashing s.table.vec (variable_key name) v slot stops at))

pub looked :
    (s : VariableSet) (name : Bytes) (slot : ℕ) (old : Option Variable)
    → hash_find_slot naming s.table (variable_key name) ≡ some slot
    → occupant (get_or s.table.vec slot empty) ≡ old
    → lookup_variable_in_set name s ≡ some old
unfolding lookup_variable_in_set hash_find_item
looked s name slot old run at = rw (run, hash_find_item) (ap some at)

module _ (e : Bool) (name value : Bytes) (origin : VariableOrigin) (r : Bool)
    (flocp : Option Floc) where
  -- what is seen behind a definition
  pub record Defines (s : Store) (v : Variable) (after : Store) (old : Option Variable)
      : Type 0 where
    pub was : lookup_variable_in_set name s.set ≡ some old
    pub made : v ≡ defined e name value origin r flocp old
    pub valid : IsValid naming after.set.table
    pub seen :
        (n : Bytes)
        → lookup_variable_in_set n after.set
          ≡ (if n =? name then some (some v) else lookup_variable_in_set n s.set)

  Put-Defines :
      (s after : Store) (v : Variable) (old : Option Variable)
      → v ≡ defined e name value origin r flocp old
      → v.name ≡ name
      → lookup_variable_in_set name s.set ≡ some old
      → Put naming s.set.table after.set.table v old
      → Defines s v after old
  unfolding lookup_variable_in_set
  Put-Defines s after v old made named was put = record {
    was = was;
    made = made;
    valid = put.valid;
    seen = λ n.
        put.seen (variable_key n)
        ∙ ap (λ m. if n =? m then some (some v) else lookup_variable_in_set n s.set) named;
  }

  definition_at :
      (s : Store) (slot : ℕ) (old : Option Variable)
      → IsReady s.set
      → hash_find_slot naming s.set.table (variable_key name) ≡ some slot
      → Stops naming s.set.table.vec (variable_key name) slot
      → occupant (get_or s.set.table.vec slot empty) ≡ old
      → (v : Variable) × (after : Store) × (define_at e name value
            (with_overrides e origin)
            r
            flocp
            s
            slot
            old
          ≡ some (v, after))
        × Defines s v after old
  unfolding define_at
  definition_at s slot none ready run stops at =
      let v = defined e name value origin r flocp none in
      let named : v.name ≡ name = unfold new_variable in refl in
      let equal : (name =? v.name) ≡ true = rw named (=?_refl name) in
      let (there, table, done, puts) =
        insert_at-Put naming naming-IsHashing s.set.table (variable_key name) v slot ready.valid
          ready.half equal run in
      (
        v,
        counted_change s table,
        rw (done, define_at) refl,
        Put-Defines s (counted_change s table) v none refl named
            (looked s.set name slot none run at) (rw at at puts),
      )
  definition_at s slot (some u) ready run stops at =
      let v = defined e name value origin r flocp (some u) in
      let here = occupant-item (get_or s.set.table.vec slot empty) u at in
      let named : v.name ≡ name =
        name-redefine e value (with_overrides e origin) r flocp u
        ∙ found_name s.set name slot u stops here in
      let equal : (name =? v.name) ≡ true = rw named (=?_refl name) in
      let table = record s.set.table { vec = set s.set.table.vec slot (item v) } in
      let after = record s { set = record s.set { table = table } } in
      (
        v,
        after,
        refl,
        Put-Defines s after v (some u) refl named (looked s.set name slot (some u) run at) (
            overwrite-Put naming naming-IsHashing s.set.table (variable_key name) v u slot
              ready.valid ready.half equal run here),
      )

  definition :
      (s : Store)
      → IsReady s.set
      → (old : Option Variable) × (v : Variable) × (after : Store) × (define_variable_in_set e name
            value origin r flocp s
          ≡ some (v, after))
        × Defines s v after old
  unfolding define_variable_in_set
  definition s ready =
      let (slot, run, low, stops) =
        finds_valid naming naming-IsHashing s.set.table (variable_key name) ready.valid in
      let old = occupant (get_or s.set.table.vec slot empty) in
      let (v, after, done, made) = definition_at s slot old ready run stops refl in
      (old, v, after, rw (run, define_variable_in_set) done, made)

  -- The outcome is the definition given, or one of a stronger origin that was there. With -e, an origin in the
  -- environment counts as o_env_override.
  pub data Outcome (v : Variable) : Option Variable → Type 0 where
    created : v ≡ new_variable name value (with_overrides e origin) r flocp → Outcome v none
    replaced :
        {u : Variable}
        → int_of_origin (with_overrides e u.origin) ≤ int_of_origin (with_overrides e origin)
        → v.value ≡ value
        → v.recursive ≡ r
        → v.origin ≡ with_overrides e origin
        → Outcome v (some u)
    kept :
        {u : Variable}
        → int_of_origin (with_overrides e origin) < int_of_origin (with_overrides e u.origin)
        → v ≡ record u { origin = with_overrides e u.origin }
        → Outcome v (some u)

  outcome :
      (old : Option Variable) (v : Variable)
      → v ≡ defined e name value origin r flocp old
      → Outcome v old
  unfolding redefine
  outcome none v made = created made
  outcome (some u) v made =
      let old = int_of_origin (with_overrides e u.origin) in
      let new = int_of_origin (with_overrides e origin) in
      elim (Bool-cases (leb old new)) [
        | inl t ↦
            let same = rw t at made in
            replaced (ground arith) (ap (λ w. w.value) same) (ap (λ w. w.recursive) same)
              (ap (λ w. w.origin) same)
        | inr t ↦ let same = rw t at made in kept (ground arith) same
      ]

  -- On a valid set of at most 2^31 slots, define_variable_in_set returns, and the set stays valid. The variable is new where
  -- none had the name; an old one takes the value where the origin given is as strong as its own, and is kept where it is
  -- weaker. Then the name is found with the variable returned, and every other name with what it was found with.
  pub define_variable_in_set_lem :
      (s : Store)
      → IsReady s.set
      → (old : Option Variable) × (v : Variable) × (after : Store) × (define_variable_in_set e name
            value origin r flocp s
          ≡ some (v, after))
        × (lookup_variable_in_set name s.set ≡ some old)
        × Outcome v old
        × IsValid naming after.set.table
        × ((n : Bytes)
            → lookup_variable_in_set n after.set
              ≡ (if n =? name then some (some v) else lookup_variable_in_set n s.set))
  define_variable_in_set_lem s ready =
      let (old, v, after, done, d) = definition s ready in
      (old, v, after, done, d.was, outcome old v d.made, d.valid, d.seen)
