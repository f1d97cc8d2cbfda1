-- ===== src/Hash/Rehash.antt =====
-- hash_rehash of make-4.4/src/hash.c: the items of a table, moved to a vector of the same size or of twice the size.
use gmake.Hash.Cycle.{pow2}
use gmake.Hash.Found.{IsFound, calloc-IsFound, get_or-calloc}
use gmake.Hash.Lookup.{one_place, finds_valid}
use gmake.Hash.Probe.{IsHashing}
use gmake.Hash.Rebuild.{Apart, Distinct, Room, reinsert-Rebuilt}
use gmake.Hash.Valid.{Has, IsLaid, IsValid, is_empty, is_item, counts-le}
use gmake.Hash.{
  Slot, empty, deleted, item, Hashing, HashTable, calloc, capacity_of, rehash_into, hash_rehash,
  rehash_if_loaded,
}
use gmake.Prelude.{
  ℕ, zero, suc, ◌+◌, ◌-◌, ◌*◌, ◌/◌, ◌^◌, ◌≤◌, ◌<◌, ◌≡◌, ◌≢◌, refl, ◌∙◌, ap, sym, ◌⊎◌, inl, inr,
  false, List, [], ◌∷◌, some, arith, Bool-cases, get_or, length, one, count, ltb, leb,
  if◌then◌else◌,
}

pub length-calloc {ℓ} : (A : Type ℓ) (n : ℕ) → length (calloc {A = A} n) ≡ n
unfolding calloc
length-calloc A zero = refl
length-calloc A (suc n) = omega (arith, length-calloc A n)

pub count-calloc {ℓ} : (A : Type ℓ) (n : ℕ) → count is_empty (calloc {A = A} n) ≡ n
unfolding calloc count one
count-calloc A zero = refl
count-calloc A (suc n) = omega (arith, count-calloc A n)

pub items-calloc {ℓ} : (A : Type ℓ) (n : ℕ) → count is_item (calloc {A = A} n) ≡ 0
unfolding calloc count one
items-calloc A zero = refl
items-calloc A (suc n) = omega (arith, items-calloc A n)

-- the same items
abbrev pub SameItems {ℓ} : {A : Type ℓ} → List (Slot A) → List (Slot A) → Type ℓ
SameItems {A = A} vec vec' = (x : A) → (Has vec x → Has vec' x) × (Has vec' x → Has vec x)

-- a size that is kept, or that the items account for
abbrev pub Grown {ℓ} : {A : Type ℓ} → HashTable A → HashTable A → Type 0
Grown ht after =
    (after.fill ≡ ht.fill) × ((after.size ≡ ht.size) ⊎ (after.size * 15 ≤ ht.fill * 32))

pub nothing_in_calloc {ℓ} : {A : Type ℓ} (n : ℕ) (x : A) → Has (calloc n) x → ⊥
nothing_in_calloc n x (i, e) = let clash = sym (get_or-calloc n i) ∙ e in cc

pow2_bound : (k : ℕ) → k ≤ 32 → pow2 k ≤ 2 ^ 31 → k < 32
pow2_bound k b h = elim (Bool-cases (ltb k 32)) [
  | inl e ↦ ground arith
  | inr e ↦ let top : k ≡ 32 = ground arith in let size = ap pow2 top in absurd (omega arith)
]

module _ {ℓ} {A : Type ℓ} (h : Hashing A) where
  shift_items :
      (v : Slot A) (vec : List (Slot A))
      → ((i j : ℕ) (x y : A)
          → i ≢ j
          → get_or (v ∷ vec) i empty ≡ item x
          → get_or (v ∷ vec) j empty ≡ item y
          → h.compare_eq x y ≡ false)
      → (i j : ℕ) (x y : A) → i ≢ j
      → get_or vec i empty ≡ item x
      → get_or vec j empty ≡ item y
      → h.compare_eq x y ≡ false
  shift_items v vec apart i j x y away at there =
      apart (suc i) (suc j) x y (λ e. omega arith) at there

  Distinct_lem :
      (vec : List (Slot A))
      → ((i j : ℕ) (x y : A)
          → i ≢ j
          → get_or vec i empty ≡ item x
          → get_or vec j empty ≡ item y
          → h.compare_eq x y ≡ false)
      → Distinct h vec
  unfolding Distinct
  Distinct_lem [] apart = tt
  Distinct_lem (empty ∷ vec) apart = Distinct_lem vec (shift_items empty vec apart)
  Distinct_lem (deleted ∷ vec) apart = Distinct_lem vec (shift_items deleted vec apart)
  Distinct_lem (item x ∷ vec) apart = (
    λ y (j, there). apart 0 (suc j) x y (λ e. omega arith) refl there,
    Distinct_lem vec (shift_items (item x) vec apart),
  )

  module _ (laws : IsHashing h) where
    IsFound-Distinct : (size : ℕ) (vec : List (Slot A)) → IsFound h size vec → Distinct h vec
    unfolding IsFound
    IsFound-Distinct size vec found = Distinct_lem vec λ i j x y away at there.
        elim (Bool-cases (h.compare_eq x y)) [
          | inl e ↦
              let run = found i x at in
              absurd (away (one_place h laws size i j vec x y found run there e))
          | inr e ↦ e
        ]

    calloc-Room :
        (size : ℕ) (old : List (Slot A))
        → Distinct h old
        → count is_item old < size
        → Room h old (calloc size) size
    unfolding Apart
    calloc-Room size old distinct b = record {
      found = calloc-IsFound h laws size size;
      tight =
          let e = count-calloc A size in
          let d = items-calloc A size in let l = length-calloc A size in omega arith;
      allocated = length-calloc A size;
      room = let e = count-calloc A size in omega arith;
      distinct = distinct;
      apart = λ x y mine has. absurd (nothing_in_calloc size y has);
    }

    -- a new vector of a size that leaves room
    rehash_into-IsValid :
        (k size : ℕ) (ht : HashTable A)
        → k ≤ 32
        → size ≡ pow2 k
        → 16 ≤ size
        → ht.fill + size / 16 ≤ size
        → IsLaid h ht
        → (after : HashTable A) × (rehash_into h ht size (capacity_of size) ≡ some after)
          × IsValid h after
          × SameItems ht.vec after.vec
          × (after.size ≡ size)
          × (after.fill ≡ ht.fill)
    unfolding rehash_into
    rehash_into-IsValid k size ht b p big room l =
        let distinct = IsFound-Distinct ht.size ht.vec l.found in
        let items = l.filled in
        let (vec, run, r) =
          reinsert-Rebuilt h laws k size ht.vec (calloc size) b p
            (calloc-Room size ht.vec distinct (omega arith)) in
        let n = r.length_kept ∙ length-calloc A size in
        let counted : count is_item vec ≡ ht.fill = omega (arith, r.counted, items-calloc A size) in
        (
          record {
            vec = vec;
            size = size;
            capacity = capacity_of size;
            fill = ht.fill;
            empty_slots = size - ht.fill;
          },
          rw (run, rehash_into) refl,
          record {
            laid = record {
              exponent = k;
              small = b;
              power = p;
              big = big;
              allocated = n;
              loaded = refl;
              filled = sym counted;
              emptied = omega (arith, r.tight);
              found = r.found;
            };
            roomy = omega arith;
          },
          λ x. (
            r.moved x,
            λ has. elim (r.nothing_else x has) [
              | inl mine ↦ absurd (nothing_in_calloc size x mine)
              | inr old ↦ old
            ],
          ),
          refl,
          refl,
        )

    -- A table of at most 2^31 slots is moved to a valid table with the same items, of twice the size where it
    -- is full and of the same size where it is not.
    pub rehash-IsValid :
        (ht : HashTable A)
        → IsLaid h ht
        → ht.size ≤ 2 ^ 31
        → (after : HashTable A) × (hash_rehash h ht ≡ some after)
          × IsValid h after
          × SameItems ht.vec after.vec
          × (after.size ≡ (if leb ht.capacity ht.fill then ht.size * 2 else ht.size))
          × (after.fill ≡ ht.fill)
    unfolding hash_rehash
    rehash-IsValid ht l half =
        let power = l.power in
        let below = pow2_bound l.exponent l.small (omega arith) in
        let loaded = l.loaded in
        let filled = l.filled in
        let big = l.big in
        let len = l.allocated in
        let most = counts-le ht.vec in
        elim (Bool-cases (leb ht.capacity ht.fill)) [
          | inl e ↦
              let double : ht.size * 2 ≡ pow2 (suc l.exponent) = omega arith in
              let (after, run, valid, same, size, fill) =
                rehash_into-IsValid (suc l.exponent) (ht.size * 2) ht (omega arith) double
                  (omega arith) (omega arith) l in
              (after, rw (e, hash_rehash) run, valid, same, rw e size, fill)
          | inr e ↦
              let free : ht.fill < ht.capacity = ground arith in
              let (after, run, valid, same, size, fill) =
                rehash_into-IsValid l.exponent ht.size ht l.small power big (omega arith) l in
              (after, rw (e, hash_rehash) (rw loaded run), valid, same, rw e size, fill)
        ]

    -- a table is doubled only when it is full
    twice :
        (ht after : HashTable A)
        → IsLaid h ht
        → after.size ≡ (if leb ht.capacity ht.fill then ht.size * 2 else ht.size)
        → (after.size ≡ ht.size) ⊎ (after.size * 15 ≤ ht.fill * 32)
    twice ht after l size = elim (Bool-cases (leb ht.capacity ht.fill)) [
      | inl e ↦
          let double : after.size ≡ ht.size * 2 = rw e at size in
          let full : ht.capacity ≤ ht.fill = ground arith in inr (omega (arith, l.loaded))
      | inr e ↦ inl (rw e at size)
    ]

    -- the end of hash_insert_at
    pub rehash_if_loaded-IsValid :
        (ht : HashTable A) (x : A) (slot : ℕ)
        → IsLaid h ht
        → ht.size ≤ 2 ^ 31
        → (at : ℕ) × (after : HashTable A) × (rehash_if_loaded h ht x slot ≡ some (at, after))
          × IsValid h after
          × SameItems ht.vec after.vec
          × Grown ht after
    unfolding rehash_if_loaded
    rehash_if_loaded-IsValid ht x slot l half =
        elim (Bool-cases (ltb ht.empty_slots (ht.size - ht.capacity))) [
          | inl e ↦
              let (after, run, valid, same, size, fill) = rehash-IsValid ht l half in
              let (at, found, _, _) = finds_valid h laws after x valid in
              (
                at,
                after,
                rw (e, rehash_if_loaded) rw (run, found) refl,
                valid,
                same,
                (fill, twice ht after l size),
              )
          | inr e ↦ (
            slot,
            ht,
            rw (e, rehash_if_loaded) refl,
            record { laid = l; roomy = ground arith },
            λ x. (λ has. has, λ has. has),
            (refl, inl refl),
          )
        ]
