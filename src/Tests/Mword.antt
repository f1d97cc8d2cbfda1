-- ===== src/Tests/Mword.antt =====
-- get_next_mword at concrete lines.
use gmake.Mword.{
  operator, w_eol, w_static, w_variable, w_dcolon, w_varassign, done_word, word_step, word_from,
  get_next_mword,
}
use gmake.Mword.Loop.{word_from-done}
use gmake.Mword.Progress.{two_colons, Advances, get_next_mword-progress}
use gmake.Prelude.{◌≡◌, ◌⊎◌, ℕ, refl, false, Bytes, codes, [], arith}
use gmake.Text.{is_space, next_token}

variable_run :
    get_next_mword 0 (codes "  $(foo bar).o: x")
    ≡ record { wtype = w_variable; startp = codes "$(foo bar).o: x"; length_out = 12 }
unfolding get_next_mword is_space next_token
variable_run = refl

escaped_run :
    get_next_mword 0 (codes "a\\:b c")
    ≡ record { wtype = w_static; startp = codes "a\\:b c"; length_out = 4 }
unfolding get_next_mword is_space next_token
escaped_run = refl

-- `::=` is a double colon, and `::x=` an assignment
dcolon_run :
    ((get_next_mword 0 (codes "::= x")).wtype ≡ w_dcolon)
    × ((get_next_mword 0 (codes "::x=")).wtype ≡ w_varassign)
unfolding get_next_mword is_space next_token
dcolon_run = (refl, refl)

-- a byte behind the end of the text is read
overrun_run : (get_next_mword b'=' (codes "::")).length_out ≡ 3
unfolding get_next_mword is_space next_token
overrun_run = refl

abbrev rule_line : Bytes
rule_line = codes " a$(b c)d: e"

abbrev last : ℕ
last = 0

get_next_mword-progress_example :
    ((get_next_mword last rule_line).wtype ≡ w_eol) × (next_token rule_line ≡ [])
    ⊎ Advances (next_token rule_line) (get_next_mword last rule_line)
    ⊎ ((last ≡ b'=')
        × (next_token rule_line ≡ two_colons)
        × (get_next_mword last rule_line ≡ operator w_varassign (next_token rule_line) 3))
get_next_mword-progress_example = get_next_mword-progress last rule_line

word_from-done_example :
    (word_step (word_from 20 false rule_line).1 ≡ done_word)
    × (word_from 20 false rule_line ≡ word_from 30 false rule_line)
word_from-done_example = word_from-done 20 30 false rule_line (omega arith) (omega arith)
