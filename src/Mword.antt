-- ===== src/Mword.antt =====
-- make-4.4/src/read.c, get_next_mword: the next word or operator of a line of a makefile. The drive
-- letters of DOS paths are not compiled. A place in the buffer is the rest of it from there on.
pub mod Loop
pub mod Progress
use gmake.Prelude.{
  ℕ, zero, suc, ◌+◌, ◌-◌, Bool, true, false, ◌||◌, List, [], ◌∷◌, Bytes, ◌==◌, if◌then◌else◌,
  length, get_or,
}
use gmake.Text.{is_space, next_token}

-- `enum make_word_type`, without the one that should never happen
pub data WordType : Type 0 where
  w_eol w_static w_variable w_colon w_dcolon w_ampcolon w_ampdcolon w_semicolon w_varassign :
      WordType

-- the result, `*startp` and `*length`
pub record Mword : Type 0 where
  pub wtype : WordType
  pub startp : Bytes
  pub length_out : ℕ

-- `for (count=0; *p != '\0'; ++p)`: the place behind the closing parenthesis, or the end
unfoldable pub skip_reference : ℕ → ℕ → ℕ → Bytes → Bytes
skip_reference opener closer count [] = []
skip_reference opener closer count (c ∷ p) =
    let deeper = skip_reference opener closer (suc count) p in
    let shallower = skip_reference opener closer (count - 1) p in
    let same = skip_reference opener closer count p in
    if c == opener
    then deeper
    else if c == closer
    then (if count == 0 then p else shallower)
    else same

-- The label done_word, or the next byte of the word to look at; the word now holds a variable.
pub data Step : Type 0 where
  done_word : Step
  go : Bool → Bytes → Step

-- behind a `$`
unfoldable pub dollar : Bytes → Step
unfolding skip_reference
dollar [] = go false []
dollar (c ∷ p) =
    if c == b'$'
    then go false p
    else if c == b'('
    then go true (skip_reference b'(' b')' 0 p)
    else if c == b'{'
    then go true (skip_reference b'{' b'}' 0 p)
    else go true p

-- a byte at the head, 0 for the NUL
abbrev pub head : Bytes → ℕ
head s = get_or s 0 0

is_quotable : ℕ → Bool
is_quotable c = c == b':' || c == b';' || c == b'=' || c == b'\\'

unfoldable pub skip_one : Bytes → Bytes
skip_one [] = []
skip_one (c ∷ p) = p

-- a round of the `while` loop, at the byte `c`
unfoldable pub word_step : Bytes → Step
unfolding dollar is_quotable skip_one
word_step [] = done_word
word_step (c ∷ p) =
    if is_space c
    then done_word
    else if c == b'='
    then done_word
    else if c == b':'
    then done_word
    else if c == b'$'
    then dollar p
    else if c == b'?' || c == b'+'
    then (if head p == b'=' then done_word else go false p)
    else if c == b'\\'
    then go false (if is_quotable (head p) then skip_one p else p)
    else if c == b'&'
    then (if head p == b':' then done_word else go false p)
    else go false p

-- the loop: whether the word holds a variable, and the place behind it
unfoldable pub word_from : ℕ → Bool → Bytes → Bool × Bytes
unfolding word_step
word_from zero variable s = (variable, s)
word_from (suc fuel) variable s = elim (word_step s) [
  | done_word ↦ (variable, s)
  | go more rest ↦ word_from fuel (variable || more) rest
]

pub operator : WordType → Bytes → ℕ → Mword
operator w beg n = record { wtype = w; startp = beg; length_out = n }

-- Every round uses up a byte.
unfoldable pub word_at : Bytes → Mword
unfolding word_from
word_at beg =
    let (variable, rest) = word_from (suc (length beg)) false beg in
    record {
      wtype = if variable then w_variable else w_static;
      startp = beg;
      length_out = length beg - length rest;
    }

-- a `:`; `beyond` is the byte behind the NUL
colon_at : ℕ → Bytes → Bytes → Mword
unfolding operator
colon_at beyond beg p =
    if head p == b'='
    then operator w_varassign beg 2
    else if head p == b':'
    then (if get_or (skip_one p) 1 (if length p == 1 then beyond else 0) == b'='
        then operator w_varassign beg 3
        else operator w_dcolon beg 2)
    else operator w_colon beg 1

ampersand_at : Bytes → Bytes → Mword
unfolding operator word_at
ampersand_at beg p =
    if head p == b':'
    then (if head (skip_one p) == b':'
        then operator w_ampdcolon beg 3
        else operator w_ampcolon beg 2)
    else word_at beg

assign_at : Bytes → Bytes → Mword
unfolding operator word_at
assign_at beg p = if head p == b'=' then operator w_varassign beg 2 else word_at beg

-- the first `switch`
unfoldable pub mword_at : ℕ → Bytes → Mword
unfolding operator colon_at ampersand_at assign_at word_at
mword_at beyond [] = operator w_eol [] 1
mword_at beyond (c ∷ p) =
    if c == b';'
    then operator w_semicolon (c ∷ p) 1
    else if c == b'='
    then operator w_varassign (c ∷ p) 1
    else if c == b':'
    then colon_at beyond (c ∷ p) p
    else if c == b'&'
    then ampersand_at (c ∷ p) p
    else if c == b'+' || c == b'?' || c == b'!'
    then assign_at (c ∷ p) p
    else word_at (c ∷ p)

unfoldable pub get_next_mword : ℕ → Bytes → Mword
unfolding mword_at
get_next_mword beyond buffer = mword_at beyond (next_token buffer)
