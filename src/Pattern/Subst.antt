-- ===== src/Pattern/Subst.antt =====
-- patsubst_expand_pat of make-4.4/src/function.c: its test of a word, which looks at the ends first,
-- against pattern_matches, and what it makes of a text.
use gmake.Pattern.{percent_matches, strneq, prefix_fails, suffix_fails, fails}
use gmake.Pattern.Match.{take-length, take-take, same}
use gmake.Prelude.{
  ℕ, zero, suc, ◌+◌, ◌-◌, ◌≤◌, ◌<◌, ◌≡◌, refl, ◌∙◌, ap, sym, Bool, true, not, ◌||◌, [], ◌∷◌, Bytes,
  ltb, ◌==◌, ==_refl, ◌=?◌, =?_sound, arith, inl, inr, Bool-cases, length, take, drop, get_or,
  length-drop,
}

get_or-take : (n i : ℕ) (s : Bytes) → i < n → get_or (take n s) i 0 ≡ get_or s i 0
get_or-take zero i s h = absurd (omega arith)
get_or-take (suc n) i [] h = refl
get_or-take (suc n) zero (c ∷ s) h = refl
get_or-take (suc n) (suc i) (c ∷ s) h = get_or-take n i s (omega arith)

get_or-drop : (n i : ℕ) (s : Bytes) → get_or (drop n s) i 0 ≡ get_or s (n + i) 0
get_or-drop zero i s = ap (λ k. get_or s k 0) (omega arith)
get_or-drop (suc n) i [] = refl
get_or-drop (suc n) i (c ∷ s) =
    get_or-drop n i s
    ∙ (let e : suc (n + i) ≡ suc n + i = omega arith in ap (λ k. get_or (c ∷ s) k 0) e)

strneq_get : (a b : Bytes) (n i : ℕ) → strneq a b n ≡ true → i < n → get_or a i 0 ≡ get_or b i 0
strneq_get a b n i h k =
    sym (get_or-take n i a k) ∙ ap (λ s. get_or s i 0) (=?_sound _ _ h) ∙ get_or-take n i b k

=?_comm : (a b : Bytes) → (a =? b) ≡ (b =? a)
=?_comm [] [] = refl
=?_comm [] (y ∷ b) = refl
=?_comm (x ∷ a) [] = refl
=?_comm (x ∷ a) (y ∷ b) = ground (arith, =?_comm a b)

same_byte : {x y : ℕ} → x ≡ y → (x == y) ≡ true
same_byte {x} e = ap (λ t. x == t) (sym e) ∙ ==_refl x

three_tests :
    (p q r s : Bool)
    → (s ≡ true → p ≡ true)
    → (s ≡ true → q ≡ true)
    → (s ≡ true → r ≡ true)
    → (p ≡ true → q ≡ true → r ≡ true → s ≡ true)
    → (not p || not q || not r) ≡ not s
three_tests p q r s hp hq hr hs = ground arith

take_snoc :
    (n : ℕ) (a b : Bytes)
    → n < length a
    → n < length b
    → take n a ≡ take n b
    → get_or a n 0 ≡ get_or b n 0
    → take (suc n) a ≡ take (suc n) b
take_snoc n [] b ha hb e g = absurd (omega arith)
take_snoc n (x ∷ a) [] ha hb e g = absurd (omega arith)
take_snoc zero (x ∷ a) (y ∷ b) ha hb e g = ap (λ c. c ∷ []) g
take_snoc (suc n) (x ∷ a) (y ∷ b) ha hb e g =
    let first : x ≡ y = cc in
    let rest : take n a ≡ take n b = cc in
    ap (λ c. c ∷ take (suc n) a) first
    ∙ ap (λ t. y ∷ t) (take_snoc n a b (omega arith) (omega arith) rest g)

take-drop_one :
    (n : ℕ) (a b : Bytes) → take (suc n) a ≡ take (suc n) b → take n (drop 1 a) ≡ take n (drop 1 b)
take-drop_one n [] [] e = refl
take-drop_one n [] (y ∷ b) e = cc
take-drop_one n (x ∷ a) [] e = cc
take-drop_one n (x ∷ a) (y ∷ b) e = cc

take-from_rest :
    (n : ℕ) (a b : Bytes)
    → 0 < length a
    → 0 < length b
    → get_or b 0 0 ≡ get_or a 0 0
    → take n (drop 1 b) ≡ take n (drop 1 a)
    → take (suc n) a ≡ take (suc n) b
take-from_rest n [] b ha hb e g = absurd (omega arith)
take-from_rest n (x ∷ a) [] ha hb e g = absurd (omega arith)
take-from_rest n (x ∷ a) (y ∷ b) ha hb e g = cc

byte_eq : (x y : ℕ) → (x == y) ≡ true → x ≡ y
byte_eq x y h = ground arith

-- the test of the first byte, the last and the rest, and that of the last byte, the first and the
-- rest, against the test of all
module _ (a b : Bytes) (n : ℕ) (ha : n < length a) (hb : n < length b) where
  every_byte :
      (i : ℕ) → i < suc n → strneq a b (suc n) ≡ true → (get_or b i 0 == get_or a i 0) ≡ true
  every_byte i h e = same_byte (sym (strneq_get a b (suc n) i e h))

  ends_first :
      (not (get_or b 0 0 == get_or a 0 0)
        || not (get_or b n 0 == get_or a n 0)
        || not (strneq (drop 1 b) (drop 1 a) n))
      ≡ not (strneq a b (suc n))
  ends_first =
      three_tests _ _ _ _ (every_byte 0 (omega arith)) (every_byte n (omega arith))
        (λ e. same (sym (take-drop_one n a b (=?_sound _ _ e))))
        (λ p q r.
          same (take-from_rest n a b (omega arith) (omega arith) (byte_eq _ _ p) (=?_sound _ _ r)))

  last_first :
      (not (get_or b n 0 == get_or a n 0)
        || not (get_or b 0 0 == get_or a 0 0)
        || not (strneq b a n))
      ≡ not (strneq a b (suc n))
  last_first =
      three_tests _ _ _ _ (every_byte n (omega arith)) (every_byte 0 (omega arith))
        (λ e. same (
          sym (take-take n (suc n) b (omega arith))
          ∙ ap (take n) (sym (=?_sound _ _ e))
          ∙ take-take n (suc n) a (omega arith)))
        (λ p q r. same (take_snoc n a b ha hb (sym (=?_sound _ _ r)) (sym (byte_eq _ _ p))))

prefix_fails-strneq :
    (prefix suffix t : Bytes)
    → length prefix ≤ length t
    → prefix_fails prefix suffix t ≡ not (strneq prefix t (length prefix))
unfolding prefix_fails
prefix_fails-strneq [] suffix t h = refl
prefix_fails-strneq (c ∷ p) suffix t h =
    let n : suc (length p) - 1 ≡ length p = omega arith in
    let some_bytes : ltb 0 (suc (length p)) ≡ true = ground arith in
    rw (some_bytes, n) (ends_first (c ∷ p) t (length p) (omega arith) (omega arith))

drop_all : (t : Bytes) → drop (length t) t ≡ []
drop_all [] = refl
drop_all (c ∷ t) = drop_all t

suffix_fails-strneq :
    (prefix suffix t : Bytes)
    → length suffix ≤ length t
    → suffix_fails prefix suffix t ≡ not (suffix =? drop (length t - length suffix) t)
unfolding suffix_fails
suffix_fails-strneq prefix [] t h =
    ap (λ s. not ([] =? s)) (sym (ap (λ k. drop k t) (omega arith) ∙ drop_all t))
suffix_fails-strneq prefix (c ∷ p) t h =
    let k = length t - suc (length p) in
    let n : suc (length p) - 1 ≡ length p = omega arith in
    let some_bytes : ltb 0 (suc (length p)) ≡ true = ground arith in
    let long : length (drop k t) ≡ suc (length p) = omega (arith, length-drop k t) in
    let last : get_or t (length t - 1) 0 ≡ get_or (drop k t) (length p) 0 =
      sym (get_or-drop k (length p) t ∙ ap (λ i. get_or t i 0) (omega arith)) in
    let first : get_or t k 0 ≡ get_or (drop k t) 0 0 =
      sym (get_or-drop k 0 t ∙ ap (λ i. get_or t i 0) (omega arith)) in
    rw (some_bytes, n, last, first)
      (last_first (c ∷ p) (drop k t) (length p) (omega arith) (omega arith)
        ∙ ap not (
            ap (λ s. s =? take (suc (length p)) (drop k t)) (take-length (c ∷ p))
            ∙ ap (λ s. c ∷ p =? s)
                (ap (λ i. take i (drop k t)) (sym long) ∙ take-length (drop k t))))

-- the test that looks at the ends first, and the plain one
pub fails-matches :
    (prefix suffix t : Bytes) → fails prefix suffix t ≡ not (percent_matches prefix suffix t)
unfolding fails percent_matches
fails-matches prefix suffix t = elim (Bool-cases (ltb (length t) (length prefix + length suffix))) [
  | inl e ↦ rw e refl
  | inr e ↦
      let h : length prefix + length suffix ≤ length t = ground arith in
      rw
        (
          e,
          prefix_fails-strneq prefix suffix t (omega arith),
          suffix_fails-strneq prefix suffix t (omega arith),
        )
        (ground arith)
]
