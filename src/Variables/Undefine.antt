-- ===== src/Variables/Undefine.antt =====
-- undefine_variable_in_set of make-4.4/src/variable.c against the look-ups.
use gmake.Hash.{empty, item, occupant, hash_find_slot, hash_find_item}
use gmake.Hash.Lookup.{finds_valid}
use gmake.Hash.Rounds.{Stops}
use gmake.Hash.Update.{overwrite-Put, delete_at-seen}
use gmake.Hash.Valid.{IsValid}
use gmake.Prelude.{
  ℕ, ◌<◌, ◌≡◌, refl, ◌∙◌, ap, inl, inr, Bool, true, false, Option, none, some, Bytes, leb, ◌=?◌,
  =?_refl, =?_sound, if◌then◌else◌, arith, Bool-cases, get_or, set, length, get_or-set_self,
}
use gmake.Variables.{
  Variable, VariableOrigin, Store, variable_key, naming, with_overrides, int_of_origin, undefine_at,
  undefine_variable_in_set, lookup_variable_in_set,
}
use gmake.Variables.Define.{naming-IsHashing, IsReady, occupant-item, found_name, looked}

if_twice {ℓ} :
    {A : Type ℓ} {x y : A} (b : Bool) (p q z : A)
    → x ≡ (if b then p else y)
    → y ≡ (if b then q else z)
    → x ≡ (if b then p else z)
if_twice true p q z e d = e
if_twice false p q z e d = e ∙ d

module _ (e : Bool) (name : Bytes) (origin : VariableOrigin) where
  -- what the name is found with behind the call
  abbrev pub left_of : Option Variable → Option Variable
  left_of none = none
  left_of (some v) =
      if leb (int_of_origin (with_overrides e v.origin)) (int_of_origin (with_overrides e origin))
      then none
      else some (record v { origin = with_overrides e v.origin })

  undefines_at :
      (s : Store) (slot : ℕ) (old : Option Variable)
      → IsReady s.set
      → hash_find_slot naming s.set.table (variable_key name) ≡ some slot
      → slot < length s.set.table.vec
      → Stops naming s.set.table.vec (variable_key name) slot
      → occupant (get_or s.set.table.vec slot empty) ≡ old
      → IsValid naming (Store.set (undefine_at e (with_overrides e origin) s slot old)).table
        × ((n : Bytes)
            → lookup_variable_in_set n
                (Store.set (undefine_at e (with_overrides e origin) s slot old))
              ≡ (if n =? name then some (left_of old) else lookup_variable_in_set n s.set))
  unfolding undefine_at lookup_variable_in_set
  undefines_at s slot none ready run low stops at = (
    ready.valid,
    λ n. elim (Bool-cases (n =? name)) [
      | inl t ↦
          let same = =?_sound n name t in
          rw t (ap (λ m. lookup_variable_in_set m s.set) same ∙ looked s.set name slot none run at)
      | inr t ↦ rw t refl
    ],
  )
  undefines_at s slot (some u) ready run low stops at =
      let here = occupant-item (get_or s.set.table.vec slot empty) u at in
      let same = found_name s.set name slot u stops here in
      let v = record u { origin = with_overrides e u.origin } in
      let equal : (name =? u.name) ≡ true = rw same (=?_refl name) in
      let table = record s.set.table { vec = set s.set.table.vec slot (item v) } in
      let puts =
        overwrite-Put naming naming-IsHashing s.set.table (variable_key name) v u slot ready.valid
          ready.half equal run here in
      let seen : (n : Bytes)
          → hash_find_item naming table (variable_key n)
            ≡ (if n =? name then some (some v) else lookup_variable_in_set n s.set) =
        λ n.
          (puts.seen (variable_key n)
            ∙ ap
                (λ m.
                  if n =? m
                  then some (some v)
                  else hash_find_item naming s.set.table (variable_key n))
                same) in
      elim (Bool-cases (
        leb (int_of_origin (with_overrides e u.origin))
          (int_of_origin (with_overrides e origin)))) [
            | inl t ↦
                let written : get_or table.vec slot empty ≡ item v =
                  get_or-set_self s.set.table.vec slot (item v) empty low in
                let (valid, gone) =
                  delete_at-seen naming naming-IsHashing table v slot puts.valid written in
                rw t (
                  valid,
                  λ n.
                      if_twice (n =? name) (some none) (some (some v))
                        (lookup_variable_in_set n s.set)
                        (gone (variable_key n)
                          ∙ ap
                              (λ m.
                                if n =? m
                                then some none
                                else hash_find_item naming table (variable_key n))
                              same)
                        (seen n),
                )
            | inr t ↦ rw t (puts.valid, seen)
          ]

  -- On a valid set of at most 2^31 slots, undefine_variable_in_set returns, and the set stays valid. The name is found no
  -- more where the origin given is as strong as that of its definition, which is kept where it is stronger; with -e, an
  -- origin in the environment counts as o_env_override. What the other names are found with stays.
  pub undefine_variable_in_set_lem :
      (s : Store)
      → IsReady s.set
      → (old : Option Variable) × (after : Store) × (undefine_variable_in_set e name origin s
          ≡ some after)
        × (lookup_variable_in_set name s.set ≡ some old)
        × IsValid naming after.set.table
        × ((n : Bytes)
            → lookup_variable_in_set n after.set
              ≡ (if n =? name then some (left_of old) else lookup_variable_in_set n s.set))
  unfolding undefine_variable_in_set
  undefine_variable_in_set_lem s ready =
      let (slot, run, low, stops) =
        finds_valid naming naming-IsHashing s.set.table (variable_key name) ready.valid in
      let old = occupant (get_or s.set.table.vec slot empty) in
      let inside : slot < length s.set.table.vec = omega (arith, ready.valid.laid.allocated) in
      let (valid, seen) = undefines_at s slot old ready run inside stops refl in
      (
        old,
        undefine_at e (with_overrides e origin) s slot old,
        rw (run, undefine_variable_in_set) refl,
        looked s.set name slot old run refl,
        valid,
        seen,
      )
