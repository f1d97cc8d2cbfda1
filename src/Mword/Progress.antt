-- ===== src/Mword/Progress.antt =====
-- get_next_mword of make-4.4/src/read.c: every call but at the end of the line moves on.
use gmake.Mword.{
  WordType, w_eol, w_static, w_variable, w_colon, w_dcolon, w_ampcolon, w_ampdcolon, w_semicolon,
  w_varassign, Mword, word_from, operator, word_at, colon_at, ampersand_at, assign_at, mword_at,
  get_next_mword, skip_one, head,
}
use gmake.Mword.Loop.{Starts, Starts-shorter}
use gmake.Prelude.{
  ◌&&◌, ◌=?◌, =?_sound, ◌∙◌, ap, ℕ, suc, ◌-◌, ◌≤◌, ◌<◌, ◌≡◌, ◌≢◌, refl, Bool, true, false, ◌||◌,
  ◌⊎◌, [], ◌∷◌, Bytes, ◌==◌, if◌then◌else◌, length, get_or, arith, inl, inr, Bool-cases,
}
use gmake.Text.{is_space, next_token}
use gmake.Text.Tokens.{next_token-head}

-- what a call returns where a word or an operator is
pub record Advances (beg : Bytes) (m : Mword) : Type 0 where
  pub not_end : m.wtype ≢ w_eol
  pub start : m.startp ≡ beg
  pub nonempty : 0 < m.length_out
  pub inside : m.length_out ≤ length beg

found_word :
    (c : ℕ) (p rest : Bytes) (v : Bool)
    → length rest < suc (length p)
    → Advances (c ∷ p) (record {
      wtype = if v then w_variable else w_static;
      startp = c ∷ p;
      length_out = suc (length p) - length rest;
    })
found_word c p rest true h = record {
  not_end = λ e. cc;
  start = refl;
  nonempty = omega arith;
  inside = omega arith;
}
found_word c p rest false h = record {
  not_end = λ e. cc;
  start = refl;
  nonempty = omega arith;
  inside = omega arith;
}

word_at-Advances : (c : ℕ) (p : Bytes) → Starts c p → Advances (c ∷ p) (word_at (c ∷ p))
unfolding word_at
word_at-Advances c p h =
    let w = word_from (suc (length (c ∷ p))) false (c ∷ p) in
    found_word c p w.1 w.0 (Starts-shorter (length (c ∷ p)) c p h)

operator-Advances :
    (w : WordType) (c n : ℕ) (p : Bytes)
    → w ≢ w_eol
    → 0 < n
    → n ≤ suc (length p)
    → Advances (c ∷ p) (operator w (c ∷ p) n)
unfolding operator
operator-Advances w c n p h k l = record { not_end = h; start = refl; nonempty = k; inside = l }

-- a byte that is there
longer_one : (p : Bytes) (c : ℕ) → 0 < c → (head p == c) ≡ true → 0 < length p
longer_one [] c h e = ground arith
longer_one (x ∷ p) c h e = omega arith

longer_two : (p : Bytes) (c : ℕ) → 0 < c → (head (skip_one p) == c) ≡ true → 1 < length p
unfolding skip_one
longer_two [] c h e = ground arith
longer_two (x ∷ p) c h e = omega (arith, longer_one p c h e)

longer_beyond :
    (p : Bytes) (beyond : ℕ)
    → (p ≡ b':' ∷ [] → beyond ≢ b'=')
    → 0 < length p
    → (head p == b':') ≡ true
    → (get_or (skip_one p) 1 (if length p == 1 then beyond else 0) == b'=') ≡ true
    → 1 < length p
unfolding skip_one
longer_beyond [] beyond h k d e = absurd (omega arith)
longer_beyond (x ∷ []) beyond h k d e =
    let colon : x ≡ b':' = ground arith in
    let other = h (ap (λ c. c ∷ []) colon) in absurd (ground arith)
longer_beyond (x ∷ y ∷ p) beyond h k d e = omega arith

colon_at-Advances :
    (c beyond : ℕ) (p : Bytes)
    → (p ≡ b':' ∷ [] → beyond ≢ b'=')
    → Advances (c ∷ p) (colon_at beyond (c ∷ p) p)
unfolding colon_at
colon_at-Advances c beyond p h = elim (Bool-cases (head p == b'=')) [
  | inl e ↦
      let k = longer_one p b'=' (omega arith) e in
      rw e (operator-Advances w_varassign c 2 p (λ q. cc) (omega arith) (omega arith))
  | inr e ↦ elim (Bool-cases (head p == b':')) [
    | inl d ↦
        let k = longer_one p b':' (omega arith) d in
        elim (Bool-cases (get_or (skip_one p) 1 (if length p == 1 then beyond else 0) == b'=')) [
          | inl g ↦
              let l = longer_beyond p beyond h k d g in
              rw (e, d, g)
                (operator-Advances w_varassign c 3 p (λ q. cc) (omega arith) (omega arith))
          | inr g ↦
              rw (e, d, g) (operator-Advances w_dcolon c 2 p (λ q. cc) (omega arith) (omega arith))
        ]
    | inr d ↦ rw (e, d) (operator-Advances w_colon c 1 p (λ q. cc) (omega arith) (omega arith))
  ]
]

ampersand_at-Advances :
    (c : ℕ) (p : Bytes) → is_space c ≡ false → c ≡ b'&' → Advances (c ∷ p) (ampersand_at (c ∷ p) p)
unfolding ampersand_at
ampersand_at-Advances c p s a = elim (Bool-cases (head p == b':')) [
  | inl e ↦
      let k = longer_one p b':' (omega arith) e in
      elim (Bool-cases (head (skip_one p) == b':')) [
        | inl d ↦
            let l = longer_two p b':' (omega arith) d in
            rw (e, d) (operator-Advances w_ampdcolon c 3 p (λ q. cc) (omega arith) (omega arith))
        | inr d ↦
            rw (e, d) (operator-Advances w_ampcolon c 2 p (λ q. cc) (omega arith) (omega arith))
      ]
  | inr e ↦ rw e (
      word_at-Advances c p (record {
        solid = s;
        not_equals = omega arith;
        not_colon = omega arith;
        not_ampersand = λ _. ground arith;
        not_assign = λ q. elim q [ inl g ↦ absurd (omega arith) | inr g ↦ absurd (omega arith) ];
      }))
]

plain_word :
    (c : ℕ) (p : Bytes)
    → is_space c ≡ false
    → c ≢ b'='
    → c ≢ b':'
    → c ≢ b'&'
    → (c ≡ b'+' ⊎ c ≡ b'?' → (head p == b'=') ≡ false)
    → Advances (c ∷ p) (word_at (c ∷ p))
plain_word c p s h k l m = word_at-Advances c p (record {
  solid = s;
  not_equals = h;
  not_colon = k;
  not_ampersand = λ e. absurd (l e);
  not_assign = λ q. let f = m q in ground arith;
})

assign_at-Advances :
    (c : ℕ) (p : Bytes)
    → is_space c ≡ false
    → c ≢ b'='
    → c ≢ b':'
    → c ≢ b'&'
    → Advances (c ∷ p) (assign_at (c ∷ p) p)
unfolding assign_at
assign_at-Advances c p s h k l = elim (Bool-cases (head p == b'=')) [
  | inl e ↦
      let long = longer_one p b'=' (omega arith) e in
      rw e (operator-Advances w_varassign c 2 p (λ q. cc) (omega arith) (omega arith))
  | inr e ↦ rw e (plain_word c p s h k l (λ _. e))
]

mword_at-Advances :
    (beyond c : ℕ) (p : Bytes)
    → (c ≡ b':' → p ≡ b':' ∷ [] → beyond ≢ b'=')
    → is_space c ≡ false
    → Advances (c ∷ p) (mword_at beyond (c ∷ p))
unfolding mword_at
mword_at-Advances beyond c p h s = elim (Bool-cases (c == b';')) [
  | inl e ↦ rw e (operator-Advances w_semicolon c 1 p (λ q. cc) (omega arith) (omega arith))
  | inr e1 ↦ elim (Bool-cases (c == b'=')) [
    | inl e ↦ rw (e1, e) (operator-Advances w_varassign c 1 p (λ q. cc) (omega arith) (omega arith))
    | inr e2 ↦ elim (Bool-cases (c == b':')) [
      | inl e ↦ rw (e1, e2, e) (colon_at-Advances c beyond p (h (ground arith)))
      | inr e3 ↦ elim (Bool-cases (c == b'&')) [
        | inl e ↦ rw (e1, e2, e3, e) (ampersand_at-Advances c p s (ground arith))
        | inr e4 ↦ elim (Bool-cases (c == b'+' || c == b'?' || c == b'!')) [
          | inl e ↦
              rw (e1, e2, e3, e4, e)
                (assign_at-Advances c p s (ground arith) (ground arith) (ground arith))
          | inr e ↦
              rw (e1, e2, e3, e4, e)
                (plain_word c p s (ground arith) (ground arith) (ground arith)
                  (λ q. absurd (ground arith)))
        ]
      ]
    ]
  ]
]

-- `::` and no more
abbrev pub two_colons : Bytes
two_colons = b':' ∷ b':' ∷ []

head_inj : {c d : ℕ} {s t : Bytes} → c ∷ s ≡ d ∷ t → (c ≡ d) × (s ≡ t)
head_inj e = (cc, cc)

-- At `::` with an `=` behind the end, the operator takes that as its third byte.
overruns : (beg : Bytes) → beg ≡ two_colons → mword_at b'=' beg ≡ operator w_varassign beg 3
unfolding mword_at colon_at skip_one
overruns beg e = rw e refl

mword_at-progress :
    (beyond : ℕ) (s beg : Bytes)
    → next_token s ≡ beg
    → ((mword_at beyond beg).wtype ≡ w_eol) × (beg ≡ [])
      ⊎ Advances beg (mword_at beyond beg)
      ⊎ ((beyond ≡ b'=') × (beg ≡ two_colons) × (mword_at beyond beg ≡ operator w_varassign beg 3))
unfolding mword_at
mword_at-progress beyond s [] e = inl (refl, refl)
mword_at-progress beyond s (c ∷ p) e = elim (Bool-cases (beyond == b'=' && (c ∷ p) =? two_colons)) [
  | inl both ↦
      let last : beyond ≡ b'=' = ground arith in
      let text = =?_sound (c ∷ p) two_colons (ground arith) in
      inr (inr (last, text, ap (λ b. mword_at b (c ∷ p)) last ∙ overruns (c ∷ p) text))
  | inr apart ↦ inr (
      inl (
        mword_at-Advances beyond c p
          (λ colon rest last.
            (let text : (c ∷ p) =? two_colons ≡ true = rw colon rw rest refl in
              let there : beyond == b'=' ≡ true = ground arith in
              let lost : true ≡ false = rw (there, text) at apart in cc))
          (next_token-head s c p e)))
]

-- A call finds the end of the line exactly where nothing but whitespace is left; else it returns a word or an operator
-- that starts at the first byte that is no whitespace, has a byte at least, and does not reach beyond the end.
-- Only where `::` and no more is left, and the byte behind the NUL is an `=`, it returns an assignment operator of three
-- bytes, which reaches beyond the end.
pub get_next_mword-progress :
    (beyond : ℕ) (buffer : Bytes)
    → ((get_next_mword beyond buffer).wtype ≡ w_eol) × (next_token buffer ≡ [])
      ⊎ Advances (next_token buffer) (get_next_mword beyond buffer)
      ⊎ ((beyond ≡ b'=')
          × (next_token buffer ≡ two_colons)
          × (get_next_mword beyond buffer ≡ operator w_varassign (next_token buffer) 3))
unfolding get_next_mword
get_next_mword-progress beyond buffer = mword_at-progress beyond buffer (next_token buffer) refl
