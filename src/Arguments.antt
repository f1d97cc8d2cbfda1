-- ===== src/Arguments.antt =====
-- make-4.4/src/function.c, find_next_argument: the comma that ends an argument of a function call.
use gmake.Prelude.{
  ℕ, suc, ◌-◌, ◌≡◌, ◌≢◌, refl, ◌∙◌, ap, sym, Bool, false, not, ◌||◌, ◌&&◌, [], ◌∷◌, ◌++◌,
  append_assoc, append-nil, Bytes, Option, none, some, ◌==◌, if◌then◌else◌, arith,
}

-- MAP_VARSEP|MAP_COMMA
is_argument_stop : ℕ → Bool
is_argument_stop c = c == b'(' || c == b'{' || c == b'}' || c == b')' || c == b','

module _ (startparen endparen : ℕ) where
  -- the loop, with `count` parentheses open; the text ends at `end`
  unfoldable pub next_argument : ℕ → Bytes → Option Bytes
  unfolding is_argument_stop
  next_argument count [] = none
  next_argument count (c ∷ ptr) =
      let same = next_argument count ptr in
      let deeper = next_argument (suc count) ptr in
      let shallower = next_argument (count - 1) ptr in
      if not (is_argument_stop c)
      then same
      else if c == startparen
      then deeper
      else if c == endparen
      then (if count == 0 then none else shallower)
      else if c == b',' && count == 0
      then some (c ∷ ptr)
      else same

  -- the place of the comma
  unfoldable pub find_next_argument : Bytes → Option Bytes
  unfolding next_argument
  find_next_argument ptr = next_argument 0 ptr

-- Text in which the parentheses of a call are balanced; at depth 0, with no comma but inside them.
pub data Balanced (startparen endparen : ℕ) : ℕ → Bytes → Type 0 where
  nothing : (depth : ℕ) → Balanced startparen endparen depth []
  other :
      (depth c : ℕ) (s : Bytes)
      → c ≢ startparen
      → c ≢ endparen
      → (depth ≡ 0 → c ≢ b',')
      → Balanced startparen endparen depth s
      → Balanced startparen endparen depth (c ∷ s)
  nested :
      (depth : ℕ) (s t : Bytes)
      → Balanced startparen endparen (suc depth) s
      → Balanced startparen endparen depth t
      → Balanced startparen endparen depth (startparen ∷ (s ++ endparen ∷ t))

-- the two kinds of parentheses
pub data Parens : ℕ → ℕ → Type 0 where
  round : Parens b'(' b')'
  curly : Parens b'{' b'}'

module _ (startparen endparen : ℕ) where
  next_other :
      (count c : ℕ) (s : Bytes)
      → c ≢ startparen
      → c ≢ endparen
      → (count ≡ 0 → c ≢ b',')
      → next_argument startparen endparen count (c ∷ s) ≡ next_argument startparen endparen count s
  unfolding next_argument
  next_other count c s h k l = ground arith

next_open :
    (a b count : ℕ) (s : Bytes)
    → Parens a b
    → next_argument a b count (a ∷ s) ≡ next_argument a b (suc count) s
unfolding next_argument
next_open _ _ count s round = refl
next_open _ _ count s curly = refl

next_close :
    (a b count : ℕ) (s : Bytes)
    → Parens a b
    → next_argument a b (suc count) (b ∷ s) ≡ next_argument a b count s
unfolding next_argument
next_close _ _ count s round =
    let not_zero : (suc count == 0) ≡ false = ground arith in
    let less : suc count - 1 ≡ count = omega arith in rw (not_zero, less) refl
next_close _ _ count s curly =
    let not_zero : (suc count == 0) ≡ false = ground arith in
    let less : suc count - 1 ≡ count = omega arith in rw (not_zero, less) refl

next_last : (a b : ℕ) (s : Bytes) → Parens a b → next_argument a b 0 (b ∷ s) ≡ none
unfolding next_argument
next_last _ _ s round = refl
next_last _ _ s curly = refl

next_comma : (a b : ℕ) (s : Bytes) → Parens a b → next_argument a b 0 (b',' ∷ s) ≡ some (b',' ∷ s)
unfolding next_argument
next_comma _ _ s round = refl
next_comma _ _ s curly = refl

-- balanced text is passed over
next-append :
    (a b depth : ℕ) (s rest : Bytes)
    → Parens a b
    → Balanced a b depth s
    → next_argument a b depth (s ++ rest) ≡ next_argument a b depth rest
next-append a b _ _ rest p (nothing depth) = refl
next-append a b _ _ rest p (other depth c s h k l t) =
    next_other a b depth c (s ++ rest) h k l ∙ next-append a b depth s rest p t
next-append a b _ _ rest p (nested depth s t hs ht) =
    next_open a b depth ((s ++ b ∷ t) ++ rest) p
    ∙ ap (next_argument a b (suc depth)) (append_assoc s (b ∷ t) rest)
    ∙ next-append a b (suc depth) s (b ∷ (t ++ rest)) p hs
    ∙ next_close a b depth (t ++ rest) p
    ∙ next-append a b depth t rest p ht

-- For the parentheses of either kind: an argument in which they are balanced, with no comma but
-- inside them, ends at the comma behind it; where the closing parenthesis of the call or the end
-- comes first, there is no further argument.
pub find_next_argument-Balanced :
    (a b : ℕ) (argument rest : Bytes)
    → Parens a b
    → Balanced a b 0 argument
    → (find_next_argument a b (argument ++ b',' ∷ rest) ≡ some (b',' ∷ rest))
      × (find_next_argument a b (argument ++ b ∷ rest) ≡ none)
      × (find_next_argument a b argument ≡ none)
unfolding find_next_argument next_argument
find_next_argument-Balanced a b argument rest p h = (
  next-append a b 0 argument (b',' ∷ rest) p h ∙ next_comma a b rest p,
  next-append a b 0 argument (b ∷ rest) p h ∙ next_last a b rest p,
  ap (next_argument a b 0) (sym (append-nil argument)) ∙ next-append a b 0 argument [] p h,
)
