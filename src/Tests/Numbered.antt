-- ===== src/Tests/Numbered.antt =====
-- func_word at concrete texts, with a reader of one digit for `strtoll`.
use gmake.Numbered.{pos, Strtoll, not_numeric, fatal, buffer, func_word}
use gmake.Prelude.{◌-◌, ◌≡◌, refl, false, [], ◌∷◌, Bytes, codes}
use gmake.Logic.{strip_whitespace}
use gmake.Text.{tokens, next_token, is_space, token, end_of_token}

abbrev one_digit : Bytes → Strtoll
one_digit [] = record { number = pos 0; endp = []; erange = false }
one_digit (c ∷ s) = record { number = pos (c - b'0'); endp = s; erange = false }

abbrev three_words : Bytes
three_words = codes " a  bc d"

word_run : func_word one_digit [] (codes " 2 ") three_words ≡ buffer (codes "bc")
unfolding func_word tokens next_token is_space token end_of_token strip_whitespace
word_run = refl

past_run : func_word one_digit [] (codes "4") three_words ≡ buffer []
unfolding func_word tokens next_token is_space token end_of_token strip_whitespace
past_run = refl

junk_run : func_word one_digit [] (codes "2x") three_words ≡ fatal not_numeric
unfolding func_word next_token is_space strip_whitespace
junk_run = refl
