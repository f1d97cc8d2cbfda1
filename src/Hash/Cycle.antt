-- ===== src/Hash/Cycle.antt =====
-- The probe sequence of make-4.4/src/hash.c: an odd step through a power of two comes to every slot.
use Prim.Native.Nat.{◌∣◌}
use gmake.Prelude.{
  ℕ, zero, suc, ◌+◌, ◌-◌, ◌*◌, ◌/◌, ◌%◌, ◌^◌, ◌≤◌, ◌<◌, ◌≡◌, ◌∙◌, ap, sym, inl, inr, arith, ◌==◌,
  false, Bool-cases,
}
use native.Mathlib.Nat.{
  add-mod, add-mod-mod, mul-add-mod_self_right, mod-eq_of_lt, mod-lt, div-add-mod', add-mod_right,
  add-mul-div_left, add-mul-mod_self_left, dvd_refl, dvd-mul_right_of_dvd, mod-mod_of_dvd,
}

abbrev pub pow2 : ℕ → ℕ
pow2 zero = 1
pow2 (suc k) = pow2 k * 2

pub pow2_pos : (k : ℕ) → 0 < pow2 k
pow2_pos zero = omega arith
pow2_pos (suc k) = omega (arith, pow2_pos k)

distribute : (a b n r : ℕ) → (a * 2 + b) * n + r ≡ a * (n * 2) + (b * n + r)
distribute a b n r = grind arith

bit_below : (b n r : ℕ) → b < 2 → r < n → b * n + r < n * 2
bit_below zero n r h k = omega arith
bit_below (suc zero) n r h k = omega arith
bit_below (suc (suc b)) n r h k = absurd (omega arith)

-- q times n and r, by twice n
rest_by_double : (q n r : ℕ) → r < n → (q * n + r) % (n * 2) ≡ q % 2 * n + r
rest_by_double q n r h =
    let halves : q ≡ q / 2 * 2 + q % 2 = omega arith in
    let small : q % 2 < 2 = omega arith in
    ap (λ x. (x * n + r) % (n * 2)) halves
    ∙ ap (λ x. x % (n * 2)) (distribute (q / 2) (q % 2) n r)
    ∙ mul-add-mod_self_right (q / 2) (n * 2) (q % 2 * n + r)
    ∙ mod-eq_of_lt (bit_below (q % 2) n r small h)

-- a remainder by twice n from the quotient and the remainder by n
mod-double : (x n : ℕ) → 0 < n → x % (n * 2) ≡ x / n % 2 * n + x % n
mod-double x n pos =
    ap (λ y. y % (n * 2)) (sym (div-add-mod' x n)) ∙ rest_by_double (x / n) n (x % n) (mod-lt x pos)

later_place : (j n d : ℕ) → (j + n) * d ≡ j * d + n * d
later_place j n d = grind arith

turned : (a d b : ℕ) → d % 2 ≡ 1 → (a % 2 == b % 2) ≡ false → (a + d) % 2 ≡ b % 2
turned a d b odd h = ground arith

double :
    (n d t j : ℕ)
    → 0 < n
    → d % 2 ≡ 1
    → j < n
    → j * d % n ≡ t % n
    → (i : ℕ) × (i < n * 2) × (i * d % (n * 2) ≡ t % (n * 2))
double n d t j pos odd h e = elim (Bool-cases (j * d / n % 2 == t / n % 2)) [
  | inl q ↦
      let same : j * d / n % 2 ≡ t / n % 2 = ground arith in
      (
        j,
        omega arith,
        mod-double (j * d) n pos
            ∙ ap (λ b. b * n + j * d % n) same
            ∙ ap (λ r. t / n % 2 * n + r) e
            ∙ sym (mod-double t n pos),
      )
  | inr q ↦ (
    j + n,
    omega arith,
    ap (λ x. x % (n * 2)) (later_place j n d)
        ∙ mod-double (j * d + n * d) n pos
        ∙ ap (λ k. k % 2 * n + (j * d + n * d) % n) (add-mul-div_left (j * d) d pos)
        ∙ ap (λ r. (j * d / n + d) % 2 * n + r) (add-mul-mod_self_left (j * d) n d ∙ e)
        ∙ (let parity : (j * d / n + d) % 2 ≡ t / n % 2 = turned (j * d / n) d (t / n) odd q in
            ap (λ b. b * n + t % n) parity)
        ∙ sym (mod-double t n pos),
  )
]

-- every remainder is that of a multiple of an odd step
multiple : (k d t : ℕ) → d % 2 ≡ 1 → (j : ℕ) × (j < pow2 k) × (j * d % pow2 k ≡ t % pow2 k)
multiple zero d t odd = (0, omega arith, omega arith)
multiple (suc k) d t odd =
    let (j, h, e) = multiple k d t odd in double (pow2 k) d t j (pow2_pos k) odd h e

-- The step comes to every slot from every place, within as many rounds as there are slots.
pub probe_covers :
    (k d start slot : ℕ)
    → d % 2 ≡ 1
    → slot < pow2 k
    → (j : ℕ) × (j < pow2 k) × ((start + j * d) % pow2 k ≡ slot)
probe_covers k d start slot odd h =
    let n = pow2 k in
    let t = slot + (n - start % n) in
    let (j, small, e) = multiple k d t odd in
    let low : start % n < n = mod-lt start (pow2_pos k) in
    let sum : start % n + t ≡ slot + n = omega arith in
    (
      j,
      small,
      add-mod start (j * d) n
          ∙ ap (λ r. (start % n + r) % n) e
          ∙ add-mod-mod (start % n) t n
          ∙ ap (λ x. x % n) sum
          ∙ add-mod_right slot n
          ∙ mod-eq_of_lt h,
    )

pow2-dvd : (k m : ℕ) → pow2 k ∣ pow2 (m + k)
pow2-dvd k zero = let e : 0 + k ≡ k = omega arith in rw (ap pow2 e) (dvd_refl (pow2 k))
pow2-dvd k (suc m) =
    let e : suc m + k ≡ suc (m + k) = omega arith in
    rw (ap pow2 e) (dvd-mul_right_of_dvd (pow2 k) (pow2-dvd k m) 2)

-- an unsigned int keeps its remainder by a power of two up to 2^32
pub mod-word : (k x : ℕ) → k ≤ 32 → x % 2 ^ 32 % pow2 k ≡ x % pow2 k
mod-word k x h =
    let e : 32 - k + k ≡ 32 = omega arith in
    let whole : pow2 k ∣ pow2 32 = rw (ap pow2 (sym e)) (pow2-dvd k (32 - k)) in
    mod-mod_of_dvd (pow2 k) x whole
