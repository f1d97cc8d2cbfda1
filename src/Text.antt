-- ===== src/Text.antt =====
-- make-4.4/src/misc.c and the character classes of make-4.4/src/main.c and makeint.h: the scan for
-- whitespace-delimited words that every list function of make is built on. A `char *` is the rest
-- of the string from that place on; the end of the list is the NUL.
pub mod Tokens
pub mod Output
use gmake.Prelude.{
  ℕ, zero, suc, Bool, true, false, ◌&&◌, ◌||◌, List, [], ◌∷◌, Option, none, some, Bytes, leb, ◌==◌,
  if◌then◌else◌, length,
}

-- MAP_BLANK: space and TAB
unfoldable pub is_blank : ℕ → Bool
is_blank c = c == b' ' || c == 9

-- MAP_SPACE, with `isspace` of the C locale: TAB, LF, VT, FF, CR and space
unfoldable pub is_space : ℕ → Bool
unfolding is_blank
is_space c = is_blank c || (leb 9 c && leb c 13)

-- the first place that is no whitespace, or the end
unfoldable pub next_token : Bytes → Bytes
next_token [] = []
next_token (c ∷ s) = if is_space c then next_token s else c ∷ s

-- the first whitespace, or the end
unfoldable pub end_of_token : Bytes → Bytes
end_of_token [] = []
end_of_token (c ∷ s) = if is_space c then c ∷ s else end_of_token s

-- the bytes from a place up to `end_of_token` of it
unfoldable pub token : Bytes → Bytes
token [] = []
token (c ∷ s) = if is_space c then [] else c ∷ token s

-- `none` for a null result; else the token, and the place that *PTR is set to
unfoldable pub token_at : Bytes → Option (Bytes × Bytes)
unfolding token end_of_token
token_at [] = none
token_at (c ∷ s) = some (token (c ∷ s), end_of_token (c ∷ s))

unfoldable pub find_next_token : Bytes → Option (Bytes × Bytes)
unfolding token_at
find_next_token s = token_at (next_token s)

-- `while ((p = find_next_token (&s, &len)) != 0)`: the tokens of all the rounds
unfoldable pub tokens_within : ℕ → Bytes → List Bytes
tokens_within zero s = []
tokens_within (suc fuel) s = elim (find_next_token s) [
  | none ↦ []
  | some (w, rest) ↦ w ∷ tokens_within fuel rest
]

-- A round uses up a byte, so one more round than bytes is enough.
unfoldable pub tokens : Bytes → List Bytes
unfolding find_next_token tokens_within
tokens s = tokens_within (suc (length s)) s

unfoldable pub lindex : Bytes → ℕ → Option Bytes
lindex [] c = none
lindex (x ∷ s) c = if x == c then some (x ∷ s) else lindex s c
