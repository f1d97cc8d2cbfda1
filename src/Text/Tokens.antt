-- ===== src/Text/Tokens.antt =====
-- The words that the scan of make-4.4/src/misc.c finds: it ends, every word is a maximal run of
-- bytes that are no whitespace, and words written with blanks between them are read back.
use gmake.Prelude.{
  ℕ, zero, suc, ◌≤◌, ◌<◌, ◌≡◌, ◌≢◌, refl, ap, ◌∙◌, sym, true, false, inl, inr, List, [], ◌∷◌, ◌++◌,
  append-nil, none, some, arith, Bytes, length, All, Bool-cases, Option-cases,
}
use gmake.Text.{
  is_space, next_token, end_of_token, token, token_at, find_next_token, tokens_within, tokens,
}

-- bytes that are no whitespace
abbrev pub IsSolid : Bytes → Type 0
IsSolid = All (λ c. is_space c ≡ false)

pub record IsWord (w : Bytes) : Type 0 where
  pub filled : w ≢ []
  pub solid : IsSolid w

pub is_space-blank : is_space b' ' ≡ true
unfolding is_space
is_space-blank = refl

pub length-end_of_token : (s : Bytes) → length (end_of_token s) ≤ length s
unfolding end_of_token
length-end_of_token [] = omega arith
length-end_of_token (c ∷ s) = ground (arith, length-end_of_token s)

pub length-next_token : (s : Bytes) → length (next_token s) ≤ length s
unfolding next_token
length-next_token [] = omega arith
length-next_token (c ∷ s) = ground (arith, length-next_token s)

pub next_token-head : (s : Bytes) (c : ℕ) (r : Bytes) → next_token s ≡ c ∷ r → is_space c ≡ false
unfolding next_token
next_token-head [] c r h = ground arith
next_token-head (x ∷ s) c r h = ground (arith, next_token-head s c r)

pub token-IsSolid : (s : Bytes) → IsSolid (token s)
unfolding token
token-IsSolid [] = tt
token-IsSolid (c ∷ s) = elim (Bool-cases (is_space c)) [
  | inl e ↦ rw e tt
  | inr e ↦ rw e (e, token-IsSolid s)
]

pub token-append-end : (s : Bytes) → token s ++ end_of_token s ≡ s
unfolding token end_of_token
token-append-end [] = refl
token-append-end (c ∷ s) = ground (arith, token-append-end s)

-- what `find_next_token` returns
pub record Found (s w rest : Bytes) : Type 0 where
  pub word : IsWord w
  pub split : next_token s ≡ w ++ rest
  pub shorter : length rest < length s

token_at-Found :
    (s t w rest : Bytes) → next_token s ≡ t → token_at t ≡ some (w, rest) → Found s w rest
unfolding token_at token end_of_token
token_at-Found s [] w rest e h = ground arith
token_at-Found s (c ∷ t) w rest e h =
    let solid : is_space c ≡ false = next_token-head s c t e in
    let ew : w ≡ c ∷ token t = ground arith in
    let er : rest ≡ end_of_token t = ground arith in
    record {
      word = record { filled = λ p. cc; solid = rw ew (solid, token-IsSolid t) };
      split = e ∙ rw (ew, er, token-append-end t);
      shorter = ground (arith, ap length e, length-next_token s, length-end_of_token t);
    }

pub find_next_token-Found : (s w rest : Bytes) → find_next_token s ≡ some (w, rest) → Found s w rest
unfolding find_next_token
find_next_token-Found s w rest h = token_at-Found s (next_token s) w rest refl h

-- more rounds than bytes change nothing
tokens_within-enough :
    (f g : ℕ) (s : Bytes) → length s < f → length s < g → tokens_within f s ≡ tokens_within g s
unfolding tokens_within
tokens_within-enough zero g s h k = absurd (omega arith)
tokens_within-enough (suc f) zero s h k = absurd (omega arith)
tokens_within-enough (suc f) (suc g) s h k = elim (Option-cases (find_next_token s)) [
  | inl e ↦ rw (e, tokens_within)
  | inr ((w, rest), e) ↦
      let shorter = (find_next_token-Found s w rest e).shorter in
      rw (e, tokens_within)
        (ap (λ ws. w ∷ ws) (tokens_within-enough f g rest (omega arith) (omega arith)))
]

round :
    (f : ℕ) (s : Bytes)
    → tokens_within (suc f) s
      ≡ elim (find_next_token s) [ none ↦ [] | some (w, rest) ↦ w ∷ tokens_within f rest ]
unfolding tokens_within
round f s = refl

-- `tokens` is the loop: a round for every result of `find_next_token`, until the null result.
pub tokens_step :
    (s : Bytes)
    → tokens s ≡ elim (find_next_token s) [ none ↦ [] | some (w, rest) ↦ w ∷ tokens rest ]
unfolding tokens
tokens_step s = round (length s) s ∙ elim (Option-cases (find_next_token s)) [
  | inl e ↦ rw e
  | inr ((w, rest), e) ↦
      let shorter = (find_next_token-Found s w rest e).shorter in
      rw e (
        ap (λ ws. w ∷ ws)
          (tokens_within-enough (length s) (suc (length rest)) rest shorter (omega arith)))
]

-- the two cases of a round
pub tokens-none : (s : Bytes) → find_next_token s ≡ none → tokens s ≡ []
tokens-none s e = let step = tokens_step s in rw e at step

pub tokens-some :
    (s w rest : Bytes) → find_next_token s ≡ some (w, rest) → tokens s ≡ w ∷ tokens rest
tokens-some s w rest e = let step = tokens_step s in rw e at step

tokens_within-IsWord : (f : ℕ) (s : Bytes) → All IsWord (tokens_within f s)
unfolding tokens_within
tokens_within-IsWord zero s = tt
tokens_within-IsWord (suc f) s = elim (Option-cases (find_next_token s)) [
  | inl e ↦ rw (e, tokens_within) tt
  | inr ((w, rest), e) ↦
      rw (e, tokens_within) ((find_next_token-Found s w rest e).word, tokens_within-IsWord f rest)
]

-- Every word found is nonempty and holds no whitespace.
pub tokens-IsWord : (s : Bytes) → All IsWord (tokens s)
unfolding tokens
tokens-IsWord s = tokens_within-IsWord (suc (length s)) s

-- The scan skips whitespace in front of a word.
pub tokens-space : (c : ℕ) (s : Bytes) → is_space c ≡ true → tokens (c ∷ s) ≡ tokens s
tokens-space c s h =
    tokens_step (c ∷ s) ∙ unfold find_next_token next_token in rw h (sym (tokens_step s))

pub tokens-nil : tokens [] ≡ []
unfolding tokens tokens_within find_next_token next_token token_at
tokens-nil = refl

-- a word up to whitespace or the end
unfoldable pub Ends : Bytes → Type 0
Ends [] = Unit
Ends (c ∷ s) = is_space c ≡ true

token-append : (w r : Bytes) → IsSolid w → Ends r → token (w ++ r) ≡ w
unfolding token Ends
token-append [] [] h e = refl
token-append [] (c ∷ r) h e = rw e
token-append (c ∷ w) r (hc, h) e = rw hc (ap (λ t. c ∷ t) (token-append w r h e))

end_of_token-append : (w r : Bytes) → IsSolid w → Ends r → end_of_token (w ++ r) ≡ r
unfolding end_of_token Ends
end_of_token-append [] [] h e = refl
end_of_token-append [] (c ∷ r) h e = rw e
end_of_token-append (c ∷ w) r (hc, h) e = rw hc (end_of_token-append w r h e)

find_next_token-append : (w r : Bytes) → IsWord w → Ends r → find_next_token (w ++ r) ≡ some (w, r)
find_next_token-append [] r h e = absurd (h.filled refl)
find_next_token-append (c ∷ w) r h e =
    unfold find_next_token next_token token_at in
    rw (h.solid.0, token-append (c ∷ w) r h.solid e, end_of_token-append (c ∷ w) r h.solid e)

pub tokens-append : (w r : Bytes) → IsWord w → Ends r → tokens (w ++ r) ≡ w ∷ tokens r
tokens-append w r h e = tokens_step (w ++ r) ∙ rw (find_next_token-append w r h e)

-- A word that whitespace follows is the first word.
pub tokens-word-space :
    (w : Bytes) (c : ℕ) (r : Bytes)
    → IsWord w
    → is_space c ≡ true
    → tokens (w ++ c ∷ r) ≡ w ∷ tokens r
tokens-word-space w c r h e =
    tokens-append w (c ∷ r) h (unfold Ends in e) ∙ ap (λ ws. w ∷ ws) (tokens-space c r e)

-- A text that is one word.
pub tokens-word : (w : Bytes) → IsWord w → tokens w ≡ w ∷ []
tokens-word w h =
    ap tokens (sym (append-nil w))
    ∙ tokens-append w [] h (unfold Ends in tt)
    ∙ ap (λ ws. w ∷ ws) tokens-nil

-- words with one blank between neighbours
unfoldable pub join : List Bytes → Bytes
join [] = []
join (w ∷ []) = w
join (w ∷ v ∷ ws) = w ++ b' ' ∷ join (v ∷ ws)

-- Words written with blanks between them are read back.
pub tokens-join : (ws : List Bytes) → All IsWord ws → tokens (join ws) ≡ ws
unfolding join
tokens-join [] _ = tokens-nil
tokens-join (w ∷ []) (h, _) = tokens-word w h
tokens-join (w ∷ v ∷ ws) (h, hs) =
    tokens-word-space w b' ' (join (v ∷ ws)) h is_space-blank
    ∙ ap (λ t. w ∷ t) (tokens-join (v ∷ ws) hs)
