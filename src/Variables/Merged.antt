-- ===== src/Variables/Merged.antt =====
-- The look-ups behind merge_variable_sets of make-4.4/src/variable.c.
use gmake.Hash.{Slot, deleted, item, occupant, hash_find_slot}
use gmake.Hash.Contents.{Has-cons}
use gmake.Hash.Found.{item_inj}
use gmake.Hash.Lookup.{finds_valid, Holds-find_item}
use gmake.Hash.Update.{find_same, insert_at-grown}
use gmake.Hash.Valid.{Holds, IsValid, is_item}
use gmake.Prelude.{
  ℕ, suc, ◌+◌, ◌^◌, ◌≤◌, ◌≡◌, refl, ◌∙◌, ap, sym, inl, inr, Bool, true, false, List, [], ◌∷◌,
  Option, none, some, Bytes, ◌=?◌, =?_sound, =?_refl, if◌then◌else◌, arith, get_or, count, one,
  Bool-cases,
}
use gmake.Variables.{
  Variable, VariableSet, Store, variable_key, naming, counted_change, lookup_variable_in_set,
}
use gmake.Variables.Define.{naming-IsHashing, IsReady, looked}
use gmake.Variables.Merge.{merge_at, merge_item, merge_slots, merge_variable_sets}

-- the first item of a name
unfoldable pub first_named : Bytes → List (Slot Variable) → Option Variable
first_named name [] = none
first_named name (Slot.empty ∷ vec) = first_named name vec
first_named name (deleted ∷ vec) = first_named name vec
first_named name (item v ∷ vec) =
    let further = first_named name vec in if name =? v.name then some v else further

-- what a look-up finds in the one set, or else in the other
unfoldable pub or_else : Option (Option Variable) → Option Variable → Option (Option Variable)
or_else none other = none
or_else (some none) other = some other
or_else (some (some v)) other = some (some v)

Holds-cons :
    (w : Slot Variable) (vec : List (Slot Variable)) (key : Variable) (r : Option Variable)
    → ((x : Variable) → w ≡ item x → (key.name =? x.name) ≡ false)
    → Holds naming vec key r
    → Holds naming (w ∷ vec) key r
unfolding Holds
Holds-cons w vec key none other holds =
    λ x has. elim (Has-cons w vec x has) [ inl e ↦ other x e | inr there ↦ holds x there ]
Holds-cons w vec key (some x) other ((i, at), e) = ((suc i, at), e)

first_named-Holds :
    (name : Bytes) (vec : List (Slot Variable))
    → Holds naming vec (variable_key name) (first_named name vec)
unfolding first_named
first_named-Holds name [] = unfold Holds in λ x has. (let e = has.1 in cc)
first_named-Holds name (Slot.empty ∷ vec) =
    Holds-cons Slot.empty vec (variable_key name) (first_named name vec) (λ x e. cc)
      (first_named-Holds name vec)
first_named-Holds name (deleted ∷ vec) =
    Holds-cons deleted vec (variable_key name) (first_named name vec) (λ x e. cc)
      (first_named-Holds name vec)
first_named-Holds name (item v ∷ vec) = elim (Bool-cases (name =? v.name)) [
  | inl e ↦ rw (e, first_named) (unfold Holds in ((0, refl), e))
  | inr e ↦
      rw (e, first_named)
        (Holds-cons (item v) vec (variable_key name) (first_named name vec)
          (λ x d. (let same = item_inj d in ap (λ u. name =? Variable.name u) (sym same) ∙ e))
          (first_named-Holds name vec))
]

or_else-none : (r : Option (Option Variable)) → or_else r none ≡ r
unfolding or_else
or_else-none none = refl
or_else-none (some none) = refl
or_else-none (some (some v)) = refl

or_else-if :
    (r : Option (Option Variable)) (b : Bool) (v : Variable) (further : Option Variable)
    → or_else (or_else r (if b then some v else none)) further
      ≡ or_else r (if b then some v else further)
unfolding or_else
or_else-if none b v further = refl
or_else-if (some none) true v further = refl
or_else-if (some none) false v further = refl
or_else-if (some (some u)) b v further = refl

-- a set that goes on being valid, and the variable that a name has in it
record Goes (s : Store) (v : Variable) (after : Store) : Type 0 where
  valid : IsValid naming after.set.table
  half : after.set.table.size ≤ 2 ^ 31
  fill : after.set.table.fill ≤ s.set.table.fill + 1
  seen :
      (n : Bytes)
      → lookup_variable_in_set n after.set
        ≡ or_else (lookup_variable_in_set n s.set) (if n =? v.name then some v else none)

merge_at-Goes :
    (s : Store) (v : Variable) (slot : ℕ) (old : Option Variable)
    → IsValid naming s.set.table
    → s.set.table.size ≤ 2 ^ 31
    → s.set.table.fill + 1 ≤ 10 ^ 9
    → hash_find_slot naming s.set.table v ≡ some slot
    → occupant (get_or s.set.table.vec slot Slot.empty) ≡ old
    → lookup_variable_in_set v.name s.set ≡ some old
    → (after : Store) × (merge_at s v slot old ≡ some after) × Goes s v after
unfolding merge_at or_else
merge_at-Goes s v slot (some u) valid half room run at was = (
  s,
  refl,
  record {
    valid = valid;
    half = half;
    fill = omega arith;
    seen = λ n. elim (Bool-cases (n =? v.name)) [
      | inl e ↦
          let named = ap (λ m. lookup_variable_in_set m s.set) (=?_sound n v.name e) ∙ was in
          named ∙ sym (ap (λ r. or_else r (if n =? v.name then some v else none)) named)
      | inr e ↦ rw e (sym (or_else-none _))
    ];
  },
)
merge_at-Goes s v slot none valid half room run at was =
    let (there, table, done, puts, fill, small) =
      insert_at-grown naming naming-IsHashing s.set.table v slot valid half room run in
    (
      counted_change s table,
      rw (done, merge_at) refl,
      record {
        valid = puts.valid;
        half = small;
        fill = fill;
        seen = λ n. elim (Bool-cases (n =? v.name)) [
          | inl e ↦
              let named = ap (λ m. lookup_variable_in_set m s.set) (=?_sound n v.name e) ∙ was in
              unfold lookup_variable_in_set in
              puts.seen (variable_key n) ∙ rw e (sym (ap (λ r. or_else r (some v)) named))
          | inr e ↦
              unfold lookup_variable_in_set in
              puts.seen (variable_key n) ∙ rw e (sym (or_else-none _))
        ];
      },
    )

merge_item-Goes :
    (s : Store) (v : Variable)
    → IsValid naming s.set.table
    → s.set.table.size ≤ 2 ^ 31
    → s.set.table.fill + 1 ≤ 10 ^ 9
    → (after : Store) × (merge_item s v ≡ some after) × Goes s v after
unfolding merge_item
merge_item-Goes s v valid half room =
    let (slot, run, low, stops) = finds_valid naming naming-IsHashing s.set.table v valid in
    let old = occupant (get_or s.set.table.vec slot Slot.empty) in
    let key =
      find_same naming naming-IsHashing s.set.table v (variable_key v.name) slot (=?_refl v.name)
        run in
    rw (run, merge_item)
      (merge_at-Goes s v slot old valid half room run refl (looked s.set v.name slot old key refl))

merge_slots-seen :
    (s : Store) (vec : List (Slot Variable))
    → IsValid naming s.set.table
    → s.set.table.size ≤ 2 ^ 31
    → s.set.table.fill + count is_item vec ≤ 10 ^ 9
    → (after : Store) × (merge_slots s vec ≡ some after)
      × IsValid naming after.set.table
      × ((n : Bytes)
          → lookup_variable_in_set n after.set
            ≡ or_else (lookup_variable_in_set n s.set) (first_named n vec))
unfolding merge_slots first_named count one
merge_slots-seen s [] valid half room = (s, refl, valid, λ n. sym (or_else-none _))
merge_slots-seen s (Slot.empty ∷ vec) valid half room =
    merge_slots-seen s vec valid half (omega arith)
merge_slots-seen s (deleted ∷ vec) valid half room = merge_slots-seen s vec valid half (omega arith)
merge_slots-seen s (item v ∷ vec) valid half room =
    let (next, run, goes) = merge_item-Goes s v valid half (omega arith) in
    let fill = goes.fill in
    let (after, more, good, seen) = merge_slots-seen next vec goes.valid goes.half (omega arith) in
    (
      after,
      rw (run, merge_slots) more,
      good,
      λ n.
          seen n
          ∙ ap (λ r. or_else r (first_named n vec)) (goes.seen n)
          ∙ or_else-if (lookup_variable_in_set n s.set) (n =? v.name) v (first_named n vec),
    )

-- merge_variable_sets of two valid sets, of which the one that goes on has a table of at most 2^31 slots, and which have
-- at most 10^9 variables: the call returns with a valid table, in which a name has the variable that it had
-- there, or else the one of the other set, if any.
pub merge_variable_sets_lem :
    (to_set : Store) (from_set : VariableSet)
    → IsReady to_set.set
    → IsValid naming from_set.table
    → to_set.set.table.fill + from_set.table.fill ≤ 10 ^ 9
    → (after : Store) × (merge_variable_sets to_set from_set ≡ some after)
      × IsValid naming after.set.table
      × ((n : Bytes)
          → (r : Option Variable) × (lookup_variable_in_set n from_set ≡ some r)
            × (lookup_variable_in_set n after.set
                ≡ or_else (lookup_variable_in_set n to_set.set) r))
unfolding merge_variable_sets
merge_variable_sets_lem to_set from_set ready valid room =
    let filled = valid.laid.filled in
    let (after, run, good, seen) =
      merge_slots-seen to_set from_set.table.vec ready.valid ready.half (omega arith) in
    (
      after,
      run,
      good,
      λ n. (
        first_named n from_set.table.vec,
        unfold lookup_variable_in_set in
            Holds-find_item naming naming-IsHashing from_set.table (variable_key n)
              (first_named n from_set.table.vec) valid (first_named-Holds n from_set.table.vec),
        seen n,
      ),
    )
