-- ===== src/Flavors.antt =====
-- The first part of do_variable_definition in make-4.4/src/variable.c: the value that an assignment gives a variable,
-- by its flavor. allocated_variable_expand and shell_result are parameters that act on a state, and what stands in
-- `v->value` is read in a state, since an expansion may define the variable anew.
pub mod Append
use gmake.Prelude.{
  ℕ, Bool, true, false, not, ◌&&◌, List, [], ◌∷◌, ◌++◌, Option, none, some, Bytes, ◌==◌,
  if◌then◌else◌, length,
}
use gmake.Variables.{
  Variable, VariableFlavor, f_bogus, f_simple, f_recursive, f_expand, f_append, f_conditional,
  f_shell, f_append_value,
}

-- What the call of define_variable_in_set is given: the value, `flavor == f_recursive || flavor == f_expand`, and `append`
-- and `conditional` for the variable. `kept` is the label done with the variable found; `aborts` the call of abort.
pub data Assigned : Type 0 where
  kept aborts : Assigned
  assigned : Bytes → Bool → Bool → Bool → Assigned

-- the loop of f_expand
unfoldable pub double_dollars : Bytes → Bytes
double_dollars [] = []
double_dollars (c ∷ t) =
    let rest = double_dollars t in if c == b'$' then b'$' ∷ c ∷ rest else c ∷ rest

-- the old and the new value, with a blank between them where there is an old one
unfoldable pub paste : Bytes → Bytes → Bytes
paste old val = if length old == 0 then val else old ++ (b' ' ∷ val)

-- `append`
abbrev pub appends : Bool → Option Variable → Bool
appends target_var none = target_var
appends target_var (some v) = target_var && v.append

-- `old` is what stands in `v->value` when the text is pasted to it
unfoldable pub append_value : Bytes → Bytes → Bool → Bool → Assigned
unfolding paste
append_value val old recursive append =
    if length val == 0 then kept else assigned (paste old val) recursive append false

module _ {ℓ} {S : Type ℓ} (value_of : Variable → S → Bytes)
    (allocated_variable_expand shell_result : Bytes → S → Bytes × S) where
  -- f_append and f_append_value; the test is `flavor != f_append_value`
  unfoldable pub append_flavor : Bool → Bool → Option Variable → Bytes → S → Assigned × S
  unfolding append_value
  append_flavor expands target_var none value s =
      (assigned value true (appends target_var none) false, s)
  append_flavor expands target_var (some v) value s =
      let append = appends target_var (some v) in
      let (val, after) = allocated_variable_expand value s in
      if v.recursive
      then (append_value value (value_of v s) true append, s)
      else if expands
      then (append_value val (value_of v after) false append, after)
      else (append_value value (value_of v s) false append, s)

  -- `old` is what the look-up of f_conditional, f_append or f_append_value returns: for the latter two in a target that
  -- of lookup_variable_in_set, or else that of lookup_variable
  unfoldable pub flavor_value : VariableFlavor → Bool → Option Variable → Bytes → S → Assigned × S
  unfolding double_dollars append_flavor
  flavor_value f_bogus target_var old value s = (aborts, s)
  flavor_value f_simple target_var old value s =
      let (p, after) = allocated_variable_expand value s in (assigned p false false false, after)
  flavor_value f_recursive target_var old value s = (assigned value true false false, s)
  flavor_value f_expand target_var old value s =
      let (t, after) = allocated_variable_expand value s in
      (assigned (double_dollars t) true false false, after)
  flavor_value f_append target_var old value s = append_flavor true target_var old value s
  flavor_value f_conditional target_var none value s = (assigned value true false true, s)
  flavor_value f_conditional target_var (some v) value s = (kept, s)
  flavor_value f_shell target_var old value s =
      let (q, expanded) = allocated_variable_expand value s in
      let (p, after) = shell_result q expanded in (assigned p true false false, after)
  flavor_value f_append_value target_var old value s = append_flavor false target_var old value s
