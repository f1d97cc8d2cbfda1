-- ===== src/Words.antt =====
-- make-4.4/src/function.c: the list functions that work word by word (addprefix, addsuffix, notdir,
-- suffix, dir, basename, join, strip, firstword, lastword, words, findstring). Each takes the buffer
-- in front of `o` and its expanded arguments, and returns the buffer in front of the result. The
-- branches for VMS, DOS paths and Amiga are not compiled.
pub mod Affix
pub mod Names
pub mod Single
use gmake.Prelude.{
  ℕ, zero, suc, ◌+◌, ◌%◌, ◌^◌, Bool, true, false, not, ◌||◌, ◌&&◌, List, [], ◌∷◌, ◌++◌, Option,
  none, some, Bytes, codes, ◌==◌, if◌then◌else◌, length, get_or, take, drop,
}
use gmake.Text.{is_space, next_token, token, end_of_token, find_next_token, tokens}
use gmake.Text.Output.{Output, start, variable_buffer_output, finish, for_tokens}
use mathlib.Core.List.{foldl}

abbrev blank : Bytes
blank = b' ' ∷ []

-- the body of the loop: `fix` is argv[0]
affix_round : Bytes → Bool → Output → Bytes → Output
affix_round fix is_addprefix o p =
    let before = if is_addprefix then variable_buffer_output o.buffer fix else o.buffer in
    let word = variable_buffer_output before p in
    let after = if not is_addprefix then variable_buffer_output word fix else word in
    record { buffer = variable_buffer_output after blank; doneany = true }

unfoldable pub func_addsuffix_addprefix : Bytes → Bytes → Bytes → Bytes → Bytes
unfolding affix_round finish
func_addsuffix_addprefix o fix list funcname =
    finish (for_tokens list (affix_round fix (get_or funcname 3 0 == b'p')) (start o))

-- `while (p >= p2 && ! STOP_SET (*p, stop)) --p;` from the place p2 + n - 1; the result is the
-- place's distance from p2, and one more: 0 stands for p2 - 1
unfoldable pub scan_back : (ℕ → Bool) → Bytes → ℕ → ℕ
scan_back stop p2 zero = zero
scan_back stop p2 (suc n) = if stop (get_or p2 n 0) then suc n else scan_back stop p2 n

unfoldable pub is_dirsep : ℕ → Bool
is_dirsep c = c == b'/'

-- MAP_DIRSEP|MAP_DOT
unfoldable pub is_dirsep_or_dot : ℕ → Bool
unfolding is_dirsep
is_dirsep_or_dot c = is_dirsep c || c == b'.'

word_and_blank : Output → Bytes → Output
word_and_blank o w = record {
  buffer = variable_buffer_output (variable_buffer_output o.buffer w) blank;
  doneany = true;
}

-- the body of the loop behind the scan
notdir_suffix_at : Bool → Output → Bytes → ℕ → Output
unfolding word_and_blank
notdir_suffix_at is_notdir o p2 zero = if is_notdir then word_and_blank o p2 else o
notdir_suffix_at is_notdir o p2 (suc p) =
    if is_notdir
    then word_and_blank o (drop (suc p) p2)
    else if not (get_or p2 p 0 == b'.')
    then o
    else word_and_blank o (drop p p2)

notdir_suffix_round : Bool → Output → Bytes → Output
unfolding notdir_suffix_at scan_back is_dirsep is_dirsep_or_dot
notdir_suffix_round is_suffix o p2 =
    let stop = if is_suffix then is_dirsep_or_dot else is_dirsep in
    notdir_suffix_at (not is_suffix) o p2 (scan_back stop p2 (length p2))

unfoldable pub func_notdir_suffix : Bytes → Bytes → Bytes → Bytes
unfolding notdir_suffix_round finish
func_notdir_suffix o list funcname =
    finish (for_tokens list (notdir_suffix_round (get_or funcname 0 0 == b's')) (start o))

-- the body of the loop behind the scan; a word holds no NUL, at which the scan also stops
basename_dir_at : Bool → Output → Bytes → ℕ → Output
unfolding word_and_blank
basename_dir_at is_dir o p2 zero =
    if is_dir then word_and_blank o (codes "./") else word_and_blank o p2
basename_dir_at is_dir o p2 (suc p) =
    if is_dir
    then word_and_blank o (take (suc p) p2)
    else if get_or p2 p 0 == b'.'
    then word_and_blank o (take p p2)
    else word_and_blank o p2

basename_dir_round : Bool → Output → Bytes → Output
unfolding basename_dir_at scan_back is_dirsep is_dirsep_or_dot
basename_dir_round is_basename o p2 =
    let stop = if is_basename then is_dirsep_or_dot else is_dirsep in
    basename_dir_at (not is_basename) o p2 (scan_back stop p2 (length p2))

unfoldable pub func_basename_dir : Bytes → Bytes → Bytes → Bytes
unfolding basename_dir_round finish
func_basename_dir o list funcname =
    finish (for_tokens list (basename_dir_round (get_or funcname 0 0 == b'b')) (start o))

-- the `do` loop of `func_join`, over the words that the two iterators have left
join_rounds : List Bytes → List Bytes → Output → Output
unfolding word_and_blank
join_rounds [] [] o = o
join_rounds (t ∷ ts) [] o = join_rounds ts [] (word_and_blank o t)
join_rounds [] (p ∷ ps) o = join_rounds [] ps (word_and_blank o p)
join_rounds (t ∷ ts) (p ∷ ps) o =
    join_rounds ts ps (word_and_blank (record o { buffer = variable_buffer_output o.buffer t }) p)

unfoldable pub func_join : Bytes → Bytes → Bytes → Bytes
unfolding join_rounds finish
func_join o list1 list2 = finish (join_rounds (tokens list1) (tokens list2) (start o))

-- a round of `func_strip` behind NEXT_TOKEN, with the rounds to come; the first case is the `break`
unfoldable pub strip_from : (Bytes → Output → Output) → Bytes → Output → Output
unfolding word_and_blank
strip_from rounds word_start o = elim (token word_start) [
  | [] ↦ o
  | c ∷ w ↦ rounds (end_of_token word_start) (word_and_blank o (c ∷ w))
]

unfoldable pub strip_rounds : ℕ → Bytes → Output → Output
strip_rounds zero p o = o
strip_rounds (suc fuel) [] o = o
strip_rounds (suc fuel) (c ∷ s) o = strip_from (strip_rounds fuel) (next_token (c ∷ s)) o

unfoldable pub func_strip : Bytes → Bytes → Bytes
unfolding strip_from strip_rounds finish
func_strip o p = finish (strip_rounds (suc (length p)) p (start o))

first_word : Option (Bytes × Bytes) → Bytes → Bytes
first_word none o = o
first_word (some (p, _)) o = variable_buffer_output o p

unfoldable pub func_firstword : Bytes → Bytes → Bytes
unfolding first_word
func_firstword o words = first_word (find_next_token words) o

last_word : List Bytes → Option Bytes → Option Bytes
last_word [] p = p
last_word (t ∷ ts) p = last_word ts (some t)

unfoldable pub func_lastword : Bytes → Bytes → Bytes
unfolding last_word
func_lastword o words = elim (last_word (tokens words) none) [
  | none ↦ o
  | some p ↦ variable_buffer_output o p
]

-- `sprintf` with "%u" is an argument; the counter is an unsigned int
unfoldable pub func_words : (ℕ → Bytes) → Bytes → Bytes → Bytes
func_words sprintf_u o words =
    variable_buffer_output o (sprintf_u (foldl (λ i _. (i + 1) % 2 ^ 32) 0 (tokens words)))

unfoldable pub starts_with : Bytes → Bytes → Bool
starts_with [] s = true
starts_with (c ∷ p) [] = false
starts_with (c ∷ p) (d ∷ s) = c == d && starts_with p s

-- the first place of a string where another one starts
unfoldable pub strstr : Bytes → Bytes → Option Bytes
unfolding starts_with
strstr [] needle = if starts_with needle [] then some [] else none
strstr (c ∷ s) needle = if starts_with needle (c ∷ s) then some (c ∷ s) else strstr s needle

unfoldable pub func_findstring : Bytes → Bytes → Bytes → Bytes
unfolding strstr
func_findstring o find text = elim (strstr text find) [
  | none ↦ o
  | some _ ↦ variable_buffer_output o find
]
