-- ===== src/Words/Single.antt =====
-- strip, firstword, lastword, words and findstring of make-4.4/src/function.c.
use gmake.Prelude.{
  ℕ, zero, suc, ◌+◌, ◌%◌, ◌^◌, ◌<◌, ◌≡◌, ◌⊎◌, refl, ◌∙◌, ap, sym, true, false, List, [], ◌∷◌, ◌++◌,
  Option, none, some, inl, inr, Bytes, arith, length, Bool-cases, Option-cases,
}
use gmake.Text.{next_token, token, end_of_token, token_at, find_next_token, tokens_within, tokens}
use gmake.Text.Output.{Output, start, finish, put, finish-foldl}
use gmake.Text.Tokens.{join, next_token-head, tokens-none, tokens-some, tokens-join, tokens-IsWord}
use gmake.Words.{
  strip_from, strip_rounds, func_strip, first_word, func_firstword, last_word, func_lastword,
  func_words, starts_with, strstr, func_findstring,
}
use mathlib.Core.List.{foldl, filter_map-some}

put_each : Output → List Bytes → Output
put_each o ws = foldl (λ r w. put r (some w)) o ws

strip_from_word :
    (rounds : Bytes → Output → Output) (o : Output) (t : Bytes) (c : ℕ) (w : Bytes)
    → token t ≡ c ∷ w
    → strip_from rounds t o ≡ rounds (end_of_token t) (put o (some (c ∷ w)))
unfolding strip_from
strip_from_word rounds o t c w e = rw (e, strip_from)

strip_round :
    (f : ℕ) (o : Output) (s t : Bytes)
    → next_token s ≡ t
    → ((p : Bytes) (o : Output) → strip_rounds f p o ≡ put_each o (tokens_within f p))
    → strip_from (strip_rounds f) t o
      ≡ put_each o (elim (token_at t) [ none ↦ [] | some (w, rest) ↦ w ∷ tokens_within f rest ])
unfolding put_each token_at
strip_round f o s [] e ih = unfold strip_from token in refl
strip_round f o s (d ∷ t) e ih =
    let first : token (d ∷ t) ≡ d ∷ token t = unfold token in rw (next_token-head s d t e) in
    strip_from_word (strip_rounds f) o (d ∷ t) d (token t) first
    ∙ ih (end_of_token (d ∷ t)) (put o (some (d ∷ token t)))
    ∙ ap (λ w. put_each o (w ∷ tokens_within f (end_of_token (d ∷ t)))) (sym first)

strip_step :
    (f c : ℕ) (s : Bytes) (o : Output)
    → ((p : Bytes) (o : Output) → strip_rounds f p o ≡ put_each o (tokens_within f p))
    → strip_rounds (suc f) (c ∷ s) o ≡ put_each o (tokens_within (suc f) (c ∷ s))
unfolding strip_rounds tokens_within find_next_token
strip_step f c s o ih = strip_round f o (c ∷ s) (next_token (c ∷ s)) refl ih

strip_rounds-within :
    (f : ℕ) (p : Bytes) (o : Output) → strip_rounds f p o ≡ put_each o (tokens_within f p)
strip_rounds-within zero p o = unfold strip_rounds tokens_within put_each in refl
strip_rounds-within (suc f) [] o =
    unfold strip_rounds tokens_within put_each find_next_token next_token token_at in refl
strip_rounds-within (suc f) (c ∷ s) o = strip_step f c s o (strip_rounds-within f)

strip_out : (o p : Bytes) → func_strip o p ≡ o ++ join (tokens p)
unfolding func_strip tokens put_each
strip_out o p =
    ap finish (strip_rounds-within (suc (length p)) p (start o))
    ∙ finish-foldl some _ (λ r w. refl) _ o
    ∙ ap (λ ws. o ++ join ws) (filter_map-some (tokens_within (suc (length p)) p))

-- `strip` appends the words of its argument with one blank between neighbours; read back, the words
-- are those of the argument, and a second `strip` changes nothing.
pub strip_words :
    (o p : Bytes)
    → (func_strip o p ≡ o ++ join (tokens p))
      × (tokens (func_strip [] p) ≡ tokens p)
      × (func_strip [] (func_strip [] p) ≡ func_strip [] p)
strip_words o p =
    let same = ap tokens (strip_out [] p) ∙ tokens-join _ (tokens-IsWord p) in
    (strip_out o p, same, strip_out [] (func_strip [] p) ∙ ap join same ∙ sym (strip_out [] p))

last_word-append :
    (ws : List Bytes) (w : Bytes) (p : Option Bytes) → last_word (ws ++ w ∷ []) p ≡ some w
unfolding last_word
last_word-append [] w p = refl
last_word-append (v ∷ ws) w p = last_word-append ws w (some v)

firstword_out : (o s w : Bytes) (ws : List Bytes) → tokens s ≡ w ∷ ws → func_firstword o s ≡ o ++ w
unfolding func_firstword first_word
firstword_out o s w ws h = elim (Option-cases (find_next_token s)) [
  | inl e ↦ cc (tokens-none s e)
  | inr ((v, rest), e) ↦ rw (e, func_firstword) (cc (tokens-some s v rest e))
]

firstword_none : (o s : Bytes) → tokens s ≡ [] → func_firstword o s ≡ o
unfolding func_firstword first_word
firstword_none o s h = elim (Option-cases (find_next_token s)) [
  | inl e ↦ rw (e, func_firstword)
  | inr ((v, rest), e) ↦ cc (tokens-some s v rest e)
]

-- `firstword` appends the first of the words and `lastword` the last one; of a text with no word
-- both append nothing.
pub ends_words :
    (o s : Bytes)
    → ((w : Bytes) (ws : List Bytes) → tokens s ≡ w ∷ ws → func_firstword o s ≡ o ++ w)
      × ((w : Bytes) (ws : List Bytes) → tokens s ≡ ws ++ w ∷ [] → func_lastword o s ≡ o ++ w)
      × (tokens s ≡ [] → (func_firstword o s ≡ o) × (func_lastword o s ≡ o))
unfolding func_lastword
ends_words o s = (
  firstword_out o s,
  λ w ws h. rw (h, func_lastword, last_word-append ws w none),
  λ h. (firstword_none o s h, rw (h, func_lastword)),
)

count_rounds :
    (ws : List Bytes) (n : ℕ)
    → n < 2 ^ 32
    → foldl (λ i _. (i + 1) % 2 ^ 32) n ws ≡ (n + length ws) % 2 ^ 32
count_rounds [] n h = omega arith
count_rounds (w ∷ ws) n h = count_rounds ws ((n + 1) % 2 ^ 32) (omega arith) ∙ omega arith

-- `words` appends the print of the number of words, as an unsigned int of 32 bits.
pub words_count :
    (sprintf_u : ℕ → Bytes) (o s : Bytes)
    → func_words sprintf_u o s ≡ o ++ sprintf_u (length (tokens s) % 2 ^ 32)
unfolding func_words
words_count sprintf_u o s =
    ap (λ n. o ++ sprintf_u n) (count_rounds (tokens s) 0 (omega arith) ∙ omega arith)

starts_with-append : (p s : Bytes) → starts_with p (p ++ s) ≡ true
unfolding starts_with
starts_with-append [] s = refl
starts_with-append (c ∷ p) s = ground (arith, starts_with-append p s)

starts_with_sound : (p s : Bytes) → starts_with p s ≡ true → (r : Bytes) × (s ≡ p ++ r)
unfolding starts_with
starts_with_sound [] s h = (s, refl)
starts_with_sound (c ∷ p) [] h = cc
starts_with_sound (c ∷ p) (d ∷ s) h =
    let (r, e) = starts_with_sound p s (ground arith) in (r, ground arith)

-- A text holds another one.
abbrev pub Holds : Bytes → Bytes → Type 0
Holds text find = (pre : Bytes) × (post : Bytes) × (text ≡ pre ++ (find ++ post))

Finds : Bytes → Bytes → Option Bytes → Type 0
Finds text find none = ¬ Holds text find
Finds text find (some r) = Holds text find

not-Holds-cons :
    (c : ℕ) (text find : Bytes)
    → starts_with find (c ∷ text) ≡ false
    → ¬ Holds text find
    → ¬ Holds (c ∷ text) find
not-Holds-cons c text find no_start h ([], post, e) =
    cc (ap (starts_with find) e, starts_with-append find post)
not-Holds-cons c text find no_start h (d ∷ pre, post, e) = h (pre, post, ground arith)

Finds-cons :
    (c : ℕ) (text find : Bytes) (o : Option Bytes)
    → starts_with find (c ∷ text) ≡ false
    → Finds text find o
    → Finds (c ∷ text) find o
unfolding Finds
Finds-cons c text find none no_start h = not-Holds-cons c text find no_start h
Finds-cons c text find (some r) no_start (pre, post, e) = (c ∷ pre, post, ap (λ t. c ∷ t) e)

not-Holds-nil : (find : Bytes) → starts_with find [] ≡ false → ¬ Holds [] find
unfolding starts_with
not-Holds-nil [] h _ = cc
not-Holds-nil (c ∷ find) h ([], post, e) = cc
not-Holds-nil (c ∷ find) h (d ∷ pre, post, e) = cc

strstr-Finds : (text find : Bytes) → Finds text find (strstr text find)
unfolding strstr
strstr-Finds [] find = elim (Bool-cases (starts_with find [])) [
  | inl e ↦ let (r, p) = starts_with_sound find [] e in rw e (unfold Finds in ([], r, p))
  | inr e ↦ rw e (unfold Finds in not-Holds-nil find e)
]
strstr-Finds (c ∷ text) find = elim (Bool-cases (starts_with find (c ∷ text))) [
  | inl e ↦ let (r, p) = starts_with_sound find (c ∷ text) e in rw e (unfold Finds in ([], r, p))
  | inr e ↦ rw e (Finds-cons c text find (strstr text find) e (strstr-Finds text find))
]

findstring_case :
    (o find text : Bytes) (r : Option Bytes)
    → Finds text find r
    → strstr text find ≡ r
    → (Holds text find × (func_findstring o find text ≡ o ++ find))
      ⊎ ((¬ Holds text find) × (func_findstring o find text ≡ o))
unfolding Finds func_findstring
findstring_case o find text none h e = inr (h, rw (e, func_findstring))
findstring_case o find text (some r) h e = inl (h, rw (e, func_findstring))

-- `findstring` appends the string sought if the text holds it anywhere, and else nothing.
pub findstring_lem :
    (o find text : Bytes)
    → (Holds text find × (func_findstring o find text ≡ o ++ find))
      ⊎ ((¬ Holds text find) × (func_findstring o find text ≡ o))
findstring_lem o find text =
    findstring_case o find text (strstr text find) (strstr-Finds text find) refl
