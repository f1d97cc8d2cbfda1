-- ===== src/Shuffle.antt =====
-- make-4.4/src/shuffle.c: the arrays that the modes of --shuffle permute, and the order that
-- shuffle_deps gives to a list of prerequisites; make_rand of make-4.4/src/misc.c. A pointer into
-- the list is a position.
pub mod Arrays
pub mod Count
pub mod Deps
use Prim.Native.Nat.{bit_xor}
use gmake.Prelude.{
  ℕ, zero, suc, ◌+◌, ◌-◌, ◌*◌, ◌/◌, ◌%◌, ◌^◌, Bool, true, false, ◌||◌, List, [], ◌∷◌, Option, none,
  some, ◌==◌, if◌then◌else◌, length, get_elem?, set,
}

-- `t = a[i]; a[i] = a[j]; a[j] = t;`
unfoldable pub swap {ℓ} : {A : Type ℓ} → List A → ℕ → ℕ → List A
swap a i j = elim (get_elem? a i) [
  | none ↦ a
  | some t ↦ elim (get_elem? a j) [ none ↦ a | some u ↦ set (set a i u) j t ]
]

-- the rounds of the loop that are left, from round i on; `len` is the length
unfoldable pub reverse_rounds {ℓ} : {A : Type ℓ} → ℕ → ℕ → ℕ → List A → List A
unfolding swap
reverse_rounds len zero i a = a
reverse_rounds len (suc rounds) i a = reverse_rounds len rounds (i + 1) (swap a i (len - 1 - i))

unfoldable pub reverse_shuffle_array {ℓ} : {A : Type ℓ} → List A → List A
unfolding reverse_rounds
reverse_shuffle_array a = reverse_rounds (length a) (length a / 2) 0 a

unfoldable pub identity_shuffle_array {ℓ} : {A : Type ℓ} → List A → List A
identity_shuffle_array a = a

-- make_rand: `mk_state` behind the call is also what it returns; `seed` stands for the clock and the
-- process number, which a state of 0 is replaced by
unfoldable pub make_rand : ℕ → ℕ → ℕ
make_rand seed mk_state =
    let start = if mk_state == 0 then seed % 2 ^ 32 else mk_state in
    let a = bit_xor start (start * 2 ^ 13 % 2 ^ 32) in
    let b = bit_xor a (a / 2 ^ 17) in bit_xor b (b * 2 ^ 5 % 2 ^ 32)

-- the rounds of the loop that are left, from round i on, with `mk_state`
unfoldable pub random_rounds {ℓ} : {A : Type ℓ} → ℕ → ℕ → ℕ → ℕ → ℕ → List A → List A × ℕ
unfolding swap make_rand
random_rounds seed len zero i mk_state a = (a, mk_state)
random_rounds seed len (suc rounds) i mk_state a =
    let r = make_rand seed mk_state in
    let j = r % len in
    let b = if i == j then a else swap a i j in random_rounds seed len rounds (i + 1) r b

unfoldable pub random_shuffle_array {ℓ} : {A : Type ℓ} → ℕ → ℕ → List A → List A × ℕ
unfolding random_rounds
random_shuffle_array seed mk_state a = random_rounds seed (length a) (length a) 0 mk_state a

-- `enum shuffle_mode`, without sm_none, with which nothing is shuffled
pub data ShuffleMode : Type 0 where
  sm_random sm_reverse sm_identity : ShuffleMode

-- `config.shuffler (da, ndeps)`, with `mk_state`
unfoldable pub shuffler {ℓ} : {A : Type ℓ} → ℕ → ShuffleMode → ℕ → List A → List A × ℕ
unfolding random_shuffle_array reverse_shuffle_array identity_shuffle_array
shuffler seed sm_random mk_state a = random_shuffle_array seed mk_state a
shuffler seed sm_reverse mk_state a = (reverse_shuffle_array a, mk_state)
shuffler seed sm_identity mk_state a = (identity_shuffle_array a, mk_state)

-- what a shuffle reads and writes of a `struct dep`; `shuf` is a position in the chain
pub record Dep : Type 0 where
  pub wait_here : Bool
  pub shuf : Option ℕ

unfoldable pub any_wait : List Dep → Bool
any_wait [] = false
any_wait (d ∷ deps) = d.wait_here || any_wait deps

-- `*dp = dep`: the places of n deps, from i on
unfoldable pub places : ℕ → ℕ → List ℕ
places i zero = []
places i (suc n) = i ∷ places (i + 1) n

-- `dep->shuf = *dp`
unfoldable pub write_back : List Dep → List ℕ → List Dep
write_back [] da = []
write_back (d ∷ deps) [] = d ∷ deps
write_back (d ∷ deps) (p ∷ da) = record d { shuf = some p } ∷ write_back deps da

unfoldable pub shuffle_deps : ℕ → ShuffleMode → ℕ → List Dep → List Dep × ℕ
unfolding shuffler any_wait places write_back
shuffle_deps seed mode mk_state deps =
    let (da, after) = shuffler seed mode mk_state (places 0 (length deps)) in
    if any_wait deps
    then (deps, mk_state)
    else if length deps == 0
    then (deps, mk_state)
    else (write_back deps da, after)
