-- ===== src/Shuffle/Arrays.antt =====
-- What the arrays of make-4.4/src/shuffle.c hold after a shuffle.
use gmake.Prelude.{
  ℕ, zero, suc, ◌+◌, ◌-◌, ◌/◌, ◌≤◌, ◌<◌, ◌≡◌, ◌≢◌, refl, ◌∙◌, ap, sym, ◌⊎◌, List, [], ◌∷◌, some,
  ◌==◌, length, get_elem?, set, arith, inl, inr, Bool-cases, Option-cases, length-set,
  get_elem?-set_self, get_elem?-set_ne,
}
use gmake.Shuffle.{swap, reverse_rounds, reverse_shuffle_array}

module _ {ℓ} {A : Type ℓ} where
  pub get_elem?-length : (xs : List A) (i : ℕ) → i < length xs → (x : A) × (get_elem? xs i ≡ some x)
  get_elem?-length [] i h = absurd (omega arith)
  get_elem?-length (x ∷ xs) zero h = (x, refl)
  get_elem?-length (x ∷ xs) (suc i) h = get_elem?-length xs i (omega arith)

  pub swap_at :
      (a : List A) (i j : ℕ) (t u : A)
      → get_elem? a i ≡ some t
      → get_elem? a j ≡ some u
      → swap a i j ≡ set (set a i u) j t
  unfolding swap
  swap_at a i j t u e d = rw (e, d, swap) refl

  pub length-swap : (a : List A) (i j : ℕ) → length (swap a i j) ≡ length a
  unfolding swap
  length-swap a i j = elim (Option-cases (get_elem? a i)) [
    | inl e ↦ rw (e, swap) refl
    | inr (t, e) ↦ elim (Option-cases (get_elem? a j)) [
      | inl d ↦ rw (e, d, swap) refl
      | inr (u, d) ↦ rw (e, d, swap) (length-set (set a i u) j t ∙ length-set a i u)
    ]
  ]

  -- the three positions of a swap
  swap-target :
      (a : List A) (i j : ℕ)
      → i < length a
      → j < length a
      → get_elem? (swap a i j) j ≡ get_elem? a i
  swap-target a i j h k =
      let (t, e) = get_elem?-length a i h in
      let (u, d) = get_elem?-length a j k in
      ap (λ b. get_elem? b j) (swap_at a i j t u e d)
      ∙ get_elem?-set_self (set a i u) j t (omega (arith, length-set a i u))
      ∙ sym e

  swap-source :
      (a : List A) (i j : ℕ)
      → i < length a
      → j < length a
      → i ≢ j
      → get_elem? (swap a i j) i ≡ get_elem? a j
  swap-source a i j h k n =
      let (t, e) = get_elem?-length a i h in
      let (u, d) = get_elem?-length a j k in
      ap (λ b. get_elem? b i) (swap_at a i j t u e d)
      ∙ get_elem?-set_ne (set a i u) j i t (λ q. n (sym q))
      ∙ get_elem?-set_self a i u h
      ∙ sym d

  swap-other :
      (a : List A) (i j k : ℕ)
      → i < length a
      → j < length a
      → k ≢ i
      → k ≢ j
      → get_elem? (swap a i j) k ≡ get_elem? a k
  swap-other a i j k h l m n =
      let (t, e) = get_elem?-length a i h in
      let (u, d) = get_elem?-length a j l in
      ap (λ b. get_elem? b k) (swap_at a i j t u e d)
      ∙ get_elem?-set_ne (set a i u) j k t (λ q. n (sym q))
      ∙ get_elem?-set_ne a i k u (λ q. m (sym q))

  reverse_rounds-outside :
      (len rounds i k : ℕ) (a : List A)
      → length a ≡ len
      → i + rounds ≡ len / 2
      → (k < i) ⊎ (len ≤ k + i)
      → get_elem? (reverse_rounds len rounds i a) k ≡ get_elem? a k
  unfolding reverse_rounds
  reverse_rounds-outside len zero i k a h r o = refl
  reverse_rounds-outside len (suc rounds) i k a h r o =
      reverse_rounds-outside len rounds (i + 1) k (swap a i (len - 1 - i))
        (length-swap a i (len - 1 - i) ∙ h) (omega arith)
        (elim o [ inl p ↦ inl (omega arith) | inr p ↦ inr (omega arith) ])
      ∙ swap-other a i (len - 1 - i) k (omega arith) (omega arith)
          (elim o [ inl p ↦ λ q. omega arith | inr p ↦ λ q. omega arith ])
          (elim o [ inl p ↦ λ q. omega arith | inr p ↦ λ q. omega arith ])

  -- Rounds i and on mirror the positions from i to the mirror of i, and leave the others.
  reverse_rounds-inside :
      (len rounds i k : ℕ) (a : List A)
      → length a ≡ len
      → i + rounds ≡ len / 2
      → i ≤ k
      → k + i < len
      → get_elem? (reverse_rounds len rounds i a) k ≡ get_elem? a (len - 1 - k)
  unfolding reverse_rounds
  reverse_rounds-inside len zero i k a h r l m = ap (get_elem? a) (omega arith)
  reverse_rounds-inside len (suc rounds) i k a h r l m =
      let j = len - 1 - i in
      let swapped : length (swap a i j) ≡ len = length-swap a i j ∙ h in
      elim (Bool-cases (k == i)) [
        | inl e ↦
            reverse_rounds-outside len rounds (i + 1) k (swap a i j) swapped (omega arith)
              (inl (ground arith))
            ∙ ap (get_elem? (swap a i j)) (ground arith)
            ∙ swap-source a i j (omega arith) (omega arith) (λ q. omega arith)
            ∙ ap (get_elem? a) (ground arith)
        | inr e ↦ elim (Bool-cases (k == j)) [
          | inl d ↦
              reverse_rounds-outside len rounds (i + 1) k (swap a i j) swapped (omega arith)
                (inr (ground arith))
              ∙ ap (get_elem? (swap a i j)) (ground arith)
              ∙ swap-target a i j (omega arith) (omega arith)
              ∙ ap (get_elem? a) (ground arith)
          | inr d ↦
              reverse_rounds-inside len rounds (i + 1) k (swap a i j) swapped (omega arith)
                (ground arith) (ground arith)
              ∙ swap-other a i j (len - 1 - k) (omega arith) (omega arith) (λ q. ground arith)
                  (λ q. ground arith)
        ]
      ]

  pub length-reverse_rounds :
      (len rounds i : ℕ) (a : List A) → length (reverse_rounds len rounds i a) ≡ length a
  unfolding reverse_rounds
  length-reverse_rounds len zero i a = refl
  length-reverse_rounds len (suc rounds) i a =
      length-reverse_rounds len rounds (i + 1) (swap a i (len - 1 - i))
      ∙ length-swap a i (len - 1 - i)

  -- Lists with the same elements at the same positions.
  same_list :
      (xs ys : List A)
      → length xs ≡ length ys
      → ((k : ℕ) → k < length xs → get_elem? xs k ≡ get_elem? ys k)
      → xs ≡ ys
  same_list [] [] e h = refl
  same_list [] (y ∷ ys) e h = absurd (omega arith)
  same_list (x ∷ xs) [] e h = absurd (omega arith)
  same_list (x ∷ xs) (y ∷ ys) e h =
      let first : x ≡ y = (let p = h 0 (omega arith) in cc) in
      ap (λ z. z ∷ xs) first
      ∙ ap (λ zs. y ∷ zs) (same_list xs ys (omega arith) (λ k l. h (suc k) (omega arith)))

  mirrored :
      (a : List A) (k : ℕ)
      → k < length a
      → get_elem? (reverse_shuffle_array a) k ≡ get_elem? a (length a - 1 - k)
  unfolding reverse_shuffle_array
  mirrored a k h =
      reverse_rounds-inside (length a) (length a / 2) 0 k a refl (omega arith) (omega arith)
        (omega arith)

  length-reverse_shuffle_array : (a : List A) → length (reverse_shuffle_array a) ≡ length a
  unfolding reverse_shuffle_array
  length-reverse_shuffle_array a = length-reverse_rounds (length a) (length a / 2) 0 a

  -- The reversed array has as many elements, each at the mirror of its place, and reversed again
  -- it is the array.
  pub reverse_shuffle_array-mirror :
      (a : List A)
      → (length (reverse_shuffle_array a) ≡ length a)
        × ((k : ℕ)
            → k < length a
            → get_elem? (reverse_shuffle_array a) k ≡ get_elem? a (length a - 1 - k))
        × (reverse_shuffle_array (reverse_shuffle_array a) ≡ a)
  reverse_shuffle_array-mirror a =
      let b = reverse_shuffle_array a in
      let n = length-reverse_shuffle_array a in
      let m = length-reverse_shuffle_array b in
      (
        n,
        mirrored a,
        same_list (reverse_shuffle_array b) a (m ∙ n) (λ k h.
            mirrored b k (omega arith)
            ∙ mirrored a (length b - 1 - k) (omega arith)
            ∙ ap (get_elem? a) (omega arith)),
      )
