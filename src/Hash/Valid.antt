-- ===== src/Hash/Valid.antt =====
-- The invariant of a table of make-4.4/src/hash.c, and what a look-up sees of it.
use gmake.Hash.Cycle.{pow2, pow2_pos}
use gmake.Hash.Found.{IsFound, find}
use gmake.Hash.Probe.{probe_returns}
use gmake.Hash.Rounds.{Stops, Vacant, Within, probe-Stops, probe-lt}
use gmake.Hash.{Slot, empty, deleted, item, Hashing, HashTable, capacity_of}
use gmake.Prelude.{
  ℕ, suc, ◌%◌, ◌^◌, ◌+◌, ◌-◌, ◌≤◌, ◌<◌, ◌≡◌, refl, Bool, true, false, List, [], ◌∷◌, Option, none,
  some, arith, get_or, set, length, one, count, count-set, get_elem?-get_or,
}

module _ {ℓ} {A : Type ℓ} where
  abbrev pub is_empty : Slot A → Bool
  is_empty empty = true
  is_empty deleted = false
  is_empty (item x) = false

  abbrev pub is_item : Slot A → Bool
  is_item empty = false
  is_item deleted = false
  is_item (item x) = true

  pub count-set_or :
      (test : Slot A → Bool) (vec : List (Slot A)) (s : ℕ) (v : Slot A)
      → s < length vec
      → count test (set vec s v) + one (test (get_or vec s empty)) ≡ count test vec + one (test v)
  count-set_or test vec s v b =
      count-set test vec s (get_or vec s empty) v (get_elem?-get_or vec s empty b)

  empty_somewhere :
      (vec : List (Slot A))
      → 0 < count is_empty vec
      → (e : ℕ) × (e < length vec) × (get_or vec e empty ≡ empty)
  unfolding count one
  empty_somewhere [] h = absurd (omega arith)
  empty_somewhere (empty ∷ vec) h = (0, omega arith, refl)
  empty_somewhere (deleted ∷ vec) h =
      let (e, b, at) = empty_somewhere vec (omega arith) in (suc e, omega arith, at)
  empty_somewhere (item x ∷ vec) h =
      let (e, b, at) = empty_somewhere vec (omega arith) in (suc e, omega arith, at)

  pub counts-le : (vec : List (Slot A)) → count is_item vec + count is_empty vec ≤ length vec
  unfolding count one
  counts-le [] = omega arith
  counts-le (empty ∷ vec) = omega (arith, counts-le vec)
  counts-le (deleted ∷ vec) = omega (arith, counts-le vec)
  counts-le (item x ∷ vec) = omega (arith, counts-le vec)

  -- an item in a vector
  abbrev pub Has : List (Slot A) → A → Type ℓ
  Has vec x = (i : ℕ) × (get_or vec i empty ≡ item x)

module _ {ℓ} {A : Type ℓ} (h : Hashing A) where
  -- The size is a power of two up to 2^32 and 16 at least; the counters count; and every item is found.
  pub record IsLaid (ht : HashTable A) : Type ℓ where
    pub exponent : ℕ
    pub small : exponent ≤ 32
    pub power : ht.size ≡ pow2 exponent
    pub big : 16 ≤ ht.size
    pub allocated : length ht.vec ≡ ht.size
    pub loaded : ht.capacity ≡ capacity_of ht.size
    pub filled : ht.fill ≡ count is_item ht.vec
    pub emptied : ht.empty_slots ≡ count is_empty ht.vec
    pub found : IsFound h ht.size ht.vec

  -- and a sixteenth of the slots at least is empty
  pub record IsValid (ht : HashTable A) : Type ℓ where
    pub laid : IsLaid ht
    pub roomy : ht.size - ht.capacity ≤ ht.empty_slots

  -- what a look-up of a key in a vector is to return
  unfoldable pub Holds : List (Slot A) → A → Option A → Type ℓ
  Holds vec key none = (x : A) → Has vec x → h.compare_eq key x ≡ false
  Holds vec key (some x) = Has vec x × (h.compare_eq key x ≡ true)

  -- the loop on a vector with an empty slot
  pub finds :
      (k : ℕ) (vec : List (Slot A)) (key : A)
      → k ≤ 32
      → length vec ≡ pow2 k
      → 0 < count is_empty vec
      → (s : ℕ) × (find h vec (pow2 k) key ≡ some s) × (s < pow2 k) × Stops h vec key s
  finds k vec key b len room =
      let (e, low, at) = empty_somewhere vec room in
      let (s, run) = probe_returns h k vec key (h.hash_1 key % 2 ^ 32) e b (omega arith) at in
      (
        s,
        run,
        probe-lt h vec (pow2 k) key (pow2 k) _ none s (pow2_pos k) (unfold Within in tt) run,
        probe-Stops h vec (pow2 k) key (pow2 k) _ none s (unfold Vacant in tt) run,
      )
