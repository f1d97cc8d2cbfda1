-- ===== src/Escapes.antt =====
-- make-4.4/src/read.c, unescape_char: backslashes in front of one byte are taken away.
use gmake.Pattern.{backslashes}
use gmake.Pattern.Quotes.{quote_from}
use gmake.Prelude.{
  ℕ, zero, suc, ◌+◌, ◌*◌, ◌/◌, ◌%◌, ◌≡◌, ◌≢◌, refl, ◌∙◌, ap, sym, true, false, not, ◌||◌, [], ◌∷◌,
  ◌++◌, append-nil, Bytes, ◌==◌, if◌then◌else◌, arith, inl, inr, Bool-cases,
}

-- the loop, l backslashes behind the last other byte; an odd number of them in front of `c` is halved
unfoldable pub unescape_from : ℕ → ℕ → Bytes → Bytes
unfolding backslashes
unescape_from c l [] = backslashes l
unescape_from c l (e ∷ s) =
    let more = unescape_from c (suc l) s in
    let rest = unescape_from c 0 s in
    if e == b'\\'
    then more
    else if not (e == c) || l % 2 == 0
    then backslashes l ++ e ∷ rest
    else backslashes (l / 2) ++ e ∷ rest

unfoldable pub unescape_char : Bytes → ℕ → Bytes
unfolding unescape_from
unescape_char string c = unescape_from c 0 string

unescape_once : (c l : ℕ) (s : Bytes) → unescape_from c l (b'\\' ∷ s) ≡ unescape_from c (suc l) s
unfolding unescape_from
unescape_once c l s = refl

unescape-backslashes :
    (c l m : ℕ) (s : Bytes) → unescape_from c l (backslashes m ++ s) ≡ unescape_from c (m + l) s
unfolding backslashes
unescape-backslashes c l zero s = ap (λ k. unescape_from c k s) (omega arith)
unescape-backslashes c l (suc m) s =
    unescape_once c l (backslashes m ++ s)
    ∙ unescape-backslashes c (suc l) m s
    ∙ ap (λ k. unescape_from c k s) (omega arith)

odd_run : (n : ℕ) → (suc (n * 2) % 2 == 0) ≡ false
odd_run n = ground arith

odd_half : (n : ℕ) → suc (n * 2) / 2 ≡ n
odd_half n = omega arith

escaped_byte :
    (c n e : ℕ) (s : Bytes)
    → (e == b'\\') ≡ false
    → (e == c) ≡ true
    → unescape_from c 0 (backslashes (suc (n * 2)) ++ e ∷ s)
      ≡ backslashes n ++ e ∷ unescape_from c 0 s
unfolding unescape_from
escaped_byte c n e s h k =
    unescape-backslashes c 0 (suc (n * 2)) (e ∷ s)
    ∙ (let none_yet : suc (n * 2) + 0 ≡ suc (n * 2) = omega arith in
        let odd = odd_run n in let half = odd_half n in rw (none_yet, h, k, odd, half) refl)

other_byte :
    (c n e : ℕ) (s : Bytes)
    → (e == b'\\') ≡ false
    → (e == c) ≡ false
    → unescape_from c 0 (backslashes n ++ e ∷ s) ≡ backslashes n ++ e ∷ unescape_from c 0 s
unfolding unescape_from
other_byte c n e s h k =
    unescape-backslashes c 0 n (e ∷ s)
    ∙ (let none_yet : n + 0 ≡ n = omega arith in rw (none_yet, h, k) refl)

more_backslashes : (n : ℕ) (s : Bytes) → backslashes (suc n) ++ s ≡ backslashes n ++ b'\\' ∷ s
unfolding backslashes
more_backslashes zero s = refl
more_backslashes (suc n) s = ap (λ t. b'\\' ∷ t) (more_backslashes n s)

same_byte : (a b : ℕ) → (a == b) ≡ true → b ≡ a
same_byte a b h = ground arith

quoted-unescape :
    (c n : ℕ) (s : Bytes)
    → c ≢ b'\\'
    → unescape_from c 0 (quote_from c (λ k. k) n s) ≡ backslashes n ++ s
unfolding quote_from unescape_from
quoted-unescape c n [] h =
    ap (unescape_from c 0) (sym (append-nil (backslashes n)))
    ∙ unescape-backslashes c 0 n []
    ∙ (let none_yet : n + 0 ≡ n = omega arith in rw none_yet (sym (append-nil (backslashes n))))
quoted-unescape c n (e ∷ s) h =
    let rest = quoted-unescape c 0 s h in
    elim (Bool-cases (e == c)) [
      | inl d ↦
          let plain : (e == b'\\') ≡ false = ground arith in
          rw d (
            escaped_byte c n e (quote_from c (λ k. k) 0 s) plain d
            ∙ ap (λ t. backslashes n ++ e ∷ t) rest)
      | inr d ↦ elim (Bool-cases (e == b'\\')) [
        | inl g ↦
            rw (d, g)
              (quoted-unescape c (suc n) s h
                ∙ more_backslashes n s
                ∙ ap (λ x. backslashes n ++ x ∷ s) (same_byte e b'\\' g))
        | inr g ↦
            rw (d, g)
              (other_byte c n e (quote_from c (λ k. k) 0 s) g d
                ∙ ap (λ t. backslashes n ++ e ∷ t) rest)
      ]
    ]

-- If `c` is no backslash: a text in which every `c` is quoted, the backslashes in front of it doubled and one more added, is
-- read back as the text.
pub unescape_char-quote :
    (c : ℕ) (s : Bytes) → c ≢ b'\\' → unescape_char (quote_from c (λ k. k) 0 s) c ≡ s
unfolding unescape_char backslashes
unescape_char-quote c s h = quoted-unescape c 0 s h
