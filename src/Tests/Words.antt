-- ===== src/Tests/Words.antt =====
-- The list functions of make-4.4/src/function.c at concrete texts.
use gmake.Prelude.{◌≡◌, refl, Bytes, [], ◌++◌, map, none, some, codes}
use gmake.Text.{end_of_token, is_space, next_token, token, tokens}
use gmake.Text.Tokens.{IsWord, join}
use gmake.Words.{
  func_addsuffix_addprefix, func_notdir_suffix, func_basename_dir, func_join, func_strip, is_dirsep,
}
use gmake.Words.Names.{split_last, notdir_word, dir_word, notdir-dir_words, pieces-append}

abbrev sources : Bytes
sources = codes "  src/foo.c lib.d/bar\t hacks "

prefix_runs :
    func_addsuffix_addprefix [] (codes "x/") (codes " a  b") (codes "addprefix") ≡ codes "x/a x/b"
unfolding func_addsuffix_addprefix tokens next_token is_space
prefix_runs = refl

notdir_runs : func_notdir_suffix [] sources (codes "notdir") ≡ codes "foo.c bar hacks"
unfolding func_notdir_suffix tokens next_token is_space
notdir_runs = refl

suffix_runs : func_notdir_suffix [] sources (codes "suffix") ≡ codes ".c"
unfolding func_notdir_suffix tokens next_token is_space
suffix_runs = refl

dir_runs : func_basename_dir [] sources (codes "dir") ≡ codes "src/ lib.d/ ./"
unfolding func_basename_dir tokens next_token is_space
dir_runs = refl

basename_runs : func_basename_dir [] sources (codes "basename") ≡ codes "src/foo lib.d/bar hacks"
unfolding func_basename_dir tokens next_token is_space
basename_runs = refl

join_runs : func_join [] (codes "a b c") (codes "1 2") ≡ codes "a1 b2 c"
unfolding func_join tokens next_token is_space
join_runs = refl

strip_runs : func_strip [] sources ≡ codes "src/foo.c lib.d/bar hacks"
unfolding func_strip next_token is_space token end_of_token
strip_runs = refl

notdir-dir_words_example :
    (func_notdir_suffix [] sources (codes "notdir") ≡ [] ++ join (map notdir_word (tokens sources)))
    × (func_basename_dir [] sources (codes "dir") ≡ [] ++ join (map dir_word (tokens sources)))
notdir-dir_words_example = notdir-dir_words [] sources

abbrev one_name : Bytes
one_name = codes "d/e.c"

one_name-IsWord : IsWord one_name
unfolding is_space
one_name-IsWord = record { filled = λ e. cc; solid = (refl, (refl, (refl, (refl, (refl, tt))))) }

pieces-append_example :
    (func_basename_dir [] one_name (codes "dir") ++ func_notdir_suffix [] one_name (codes "notdir")
      ≡ elim (split_last is_dirsep one_name) [ none ↦ codes "./" ++ one_name | some _ ↦ one_name ])
    × (func_basename_dir [] one_name (codes "basename")
          ++ func_notdir_suffix [] one_name (codes "suffix")
        ≡ one_name)
pieces-append_example = pieces-append one_name one_name-IsWord
