-- ===== src/Tests/Pattern.antt =====
-- Patterns and substitution at concrete texts.
use gmake.Pattern.{
  find_char_unquote, find_percent, pattern_matches, subst_expand, patsubst_expand_pat,
  patsubst_expand,
}
use gmake.Pattern.Match.{Matches, pattern_matches-Matches}
use gmake.Pattern.Quotes.{quote_from, find_char_unquote-quote}
use gmake.Pattern.Words.{substituted, patsubst_expand_pat-words}
use gmake.Prelude.{◌*◌, ◌≡◌, ◌↔◌, refl, true, false, [], ◌∷◌, ◌++◌, none, some, codes, arith}
use gmake.Text.{is_space, next_token, end_of_token, token, tokens}
use gmake.Text.Tokens.{join}
use gmake.Words.{strstr}
use mathlib.Core.List.{filter_map}

quoted_run : find_percent (codes "a\\%b\\\\%c\\%d") ≡ (codes "a%b\\", some (codes "c\\%d"))
unfolding find_percent
quoted_run = refl

subst_run :
    subst_expand (codes "ee") (codes "EE") false [] (codes "feet on the street")
    ≡ codes "fEEt on the strEEt"
unfolding subst_expand strstr
subst_run = refl

by_word_run : subst_expand (codes "a") (codes "b") true [] (codes "a xa a ax") ≡ codes "b xa b ax"
unfolding subst_expand is_space next_token end_of_token strstr
by_word_run = refl

patsubst_run :
    patsubst_expand [] (codes " x.c.c  bar.c foo") (codes "%.c") (codes "%.o")
    ≡ codes "x.c.o bar.o foo"
unfolding patsubst_expand tokens is_space next_token end_of_token token
patsubst_run = refl

-- a word that comes out empty leaves two blanks between its neighbours
empty_word_run : patsubst_expand [] (codes "x ab y") (codes "a%b") (codes "%") ≡ codes "x  y"
unfolding patsubst_expand tokens is_space next_token end_of_token token
empty_word_run = refl

find_char_unquote-quote_example :
    (find_char_unquote (quote_from b'%' (λ n. n) 0 (codes "a\\%\\")) b'%' ≡ (codes "a\\%\\", none))
    × (find_char_unquote
          (quote_from b'%' (λ n. n * 2) 0 (codes "a\\%\\") ++ b'%' ∷ codes "\\%")
          b'%'
        ≡ (codes "a\\%\\", some (codes "\\%")))
find_char_unquote-quote_example =
    find_char_unquote-quote b'%' (codes "a\\%\\") (codes "\\%") (λ e. omega arith)

pattern_matches-Matches_example :
    (pattern_matches (codes "lib%.a") (codes "libc.a") ≡ true)
    ↔ Matches (find_percent (codes "lib%.a")) (codes "libc.a")
pattern_matches-Matches_example = pattern_matches-Matches (codes "lib%.a") (codes "libc.a")

patsubst_expand_pat-words_example :
    patsubst_expand_pat [] (codes "x ab acb") (codes "a", some (codes "b")) ([], some [])
    ≡ []
      ++ join (
          filter_map
            (substituted (codes "a") (codes "b") ([], some []))
            (tokens (codes "x ab acb")))
patsubst_expand_pat-words_example =
    patsubst_expand_pat-words [] (codes "x ab acb") (codes "a") (codes "b") ([], some [])
