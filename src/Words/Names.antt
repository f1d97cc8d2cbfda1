-- ===== src/Words/Names.antt =====
-- notdir, dir, suffix and basename of make-4.4/src/function.c: the backward scan of a word against
-- the split at the last directory separator, or the last separator or dot.
use gmake.Prelude.{
  ℕ, zero, suc, ◌≡◌, refl, ◌∙◌, ap, sym, Bool, true, false, [], ◌∷◌, ◌++◌, append-nil, append_assoc,
  map, Option, none, some, inl, inr, Bytes, codes, All, arith, length, get_or, take, drop,
  take-append_self, drop-append_self, Bool-cases, Option-cases, if◌then◌else◌, ◌==◌,
}
use gmake.Text.{tokens}
use gmake.Text.Output.{Output, put, finish-foldl}
use gmake.Text.Tokens.{IsWord, join, tokens-word}
use gmake.Words.{
  scan_back, is_dirsep, is_dirsep_or_dot, notdir_suffix_at, notdir_suffix_round, func_notdir_suffix,
  basename_dir_at, basename_dir_round, func_basename_dir,
}
use mathlib.Core.List.{filter_map, filter_map-eq-map}

-- the bytes before the last byte that `stop` holds of, this byte, and those behind it
unfoldable pub split_last : (ℕ → Bool) → Bytes → Option (Bytes × ℕ × Bytes)
split_last stop [] = none
split_last stop (c ∷ w) = elim (split_last stop w) [
  | some (a, d, b) ↦ some (c ∷ a, d, b)
  | none ↦ if stop c then some ([], c, w) else none
]

-- the scan one byte further to the right
shift : Bool → ℕ → ℕ
shift b zero = if b then 1 else 0
shift b (suc n) = suc (suc n)

scan_back-shift :
    (stop : ℕ → Bool) (c : ℕ) (w : Bytes) (k : ℕ)
    → scan_back stop (c ∷ w) (suc k) ≡ shift (stop c) (scan_back stop w k)
unfolding scan_back shift
scan_back-shift stop c w zero = refl
scan_back-shift stop c w (suc k) = elim (Bool-cases (stop (get_or w k 0))) [
  | inl e ↦ rw e
  | inr e ↦ rw e (scan_back-shift stop c w k)
]

-- what the split says of a word
pub record LastStop (stop : ℕ → Bool) (w a : Bytes) (d : ℕ) (b : Bytes) : Type 0 where
  pub whole : w ≡ a ++ d ∷ b
  pub scan : scan_back stop w (length w) ≡ suc (length a)
  pub stops : stop d ≡ true
  pub clear : All (λ c. stop c ≡ false) b

Split : (ℕ → Bool) → Bytes → Option (Bytes × ℕ × Bytes) → Type 0
Split stop w none = (scan_back stop w (length w) ≡ 0) × All (λ c. stop c ≡ false) w
Split stop w (some (a, d, b)) = LastStop stop w a d b

Split-cons :
    (stop : ℕ → Bool) (c : ℕ) (w : Bytes) (o : Option (Bytes × ℕ × Bytes))
    → Split stop w o
    → Split stop (c ∷ w) (elim o [
      | some (a, d, b) ↦ some (c ∷ a, d, b)
      | none ↦ if stop c then some ([], c, w) else none
    ])
unfolding Split
Split-cons stop c w (some (a, d, b)) h = record {
  whole = ap (λ t. c ∷ t) h.whole;
  scan = scan_back-shift stop c w (length w) ∙ unfold shift in rw h.scan;
  stops = h.stops;
  clear = h.clear;
}
Split-cons stop c w none (e, h) = elim (Bool-cases (stop c)) [
  | inl s ↦ rw s (record {
    whole = refl;
    scan = scan_back-shift stop c w (length w) ∙ unfold shift in rw (e, s);
    stops = s;
    clear = h;
  })
  | inr s ↦ rw s (scan_back-shift stop c w (length w) ∙ (unfold shift in rw (e, s)), (s, h))
]

split_last-Split : (stop : ℕ → Bool) (w : Bytes) → Split stop w (split_last stop w)
unfolding split_last
split_last-Split stop [] = unfold Split scan_back in (refl, tt)
split_last-Split stop (c ∷ w) = Split-cons stop c w (split_last stop w) (split_last-Split stop w)

get_or-append_self : (a b : Bytes) (d e : ℕ) → get_or (a ++ d ∷ b) (length a) e ≡ d
get_or-append_self [] b d e = refl
get_or-append_self (c ∷ a) b d e = get_or-append_self a b d e

take-append_suc : (a b : Bytes) (d : ℕ) → take (suc (length a)) (a ++ d ∷ b) ≡ a ++ d ∷ []
take-append_suc [] b d = refl
take-append_suc (c ∷ a) b d = ap (λ t. c ∷ t) (take-append_suc a b d)

drop-append_suc : (a b : Bytes) (d : ℕ) → drop (suc (length a)) (a ++ d ∷ b) ≡ b
drop-append_suc [] b d = refl
drop-append_suc (c ∷ a) b d = drop-append_suc a b d

-- What each function makes of a word, by the split.
abbrev pub notdir_part : Bytes → Option (Bytes × ℕ × Bytes) → Bytes
notdir_part w none = w
notdir_part w (some (a, d, b)) = b

abbrev pub dir_part : Option (Bytes × ℕ × Bytes) → Bytes
dir_part none = codes "./"
dir_part (some (a, d, b)) = a ++ d ∷ []

abbrev pub suffix_part : Option (Bytes × ℕ × Bytes) → Option Bytes
suffix_part none = none
suffix_part (some (a, d, b)) = if d == b'.' then some (d ∷ b) else none

abbrev pub basename_part : Bytes → Option (Bytes × ℕ × Bytes) → Bytes
basename_part w none = w
basename_part w (some (a, d, b)) = if d == b'.' then a else w

abbrev pub notdir_word : Bytes → Bytes
notdir_word w = notdir_part w (split_last is_dirsep w)

abbrev pub dir_word : Bytes → Bytes
dir_word w = dir_part (split_last is_dirsep w)

abbrev pub suffix_word : Bytes → Option Bytes
suffix_word w = suffix_part (split_last is_dirsep_or_dot w)

abbrev pub basename_word : Bytes → Bytes
basename_word w = basename_part w (split_last is_dirsep_or_dot w)

module _ (stop : ℕ → Bool) (w a b : Bytes) (d : ℕ) (h : LastStop stop w a d b) where
  stop_byte : get_or w (length a) 0 ≡ d
  stop_byte = ap (λ t. get_or t (length a) 0) h.whole ∙ get_or-append_self a b d 0

  through_stop : take (suc (length a)) w ≡ a ++ d ∷ []
  through_stop = ap (take (suc (length a))) h.whole ∙ take-append_suc a b d

  behind_stop : drop (suc (length a)) w ≡ b
  behind_stop = ap (drop (suc (length a))) h.whole ∙ drop-append_suc a b d

  before_stop : take (length a) w ≡ a
  before_stop = ap (take (length a)) h.whole ∙ take-append_self a (d ∷ b)

  from_stop : drop (length a) w ≡ d ∷ b
  from_stop = ap (drop (length a)) h.whole ∙ drop-append_self a (d ∷ b)

module _ (o : Output) (w : Bytes) where
  notdir_at :
      (s : Option (Bytes × ℕ × Bytes))
      → Split is_dirsep w s
      → notdir_suffix_at true o w (scan_back is_dirsep w (length w))
        ≡ put o (some (notdir_part w s))
  unfolding Split notdir_suffix_at
  notdir_at none (e, _) = rw e
  notdir_at (some (a, d, b)) h = rw (h.scan, behind_stop is_dirsep w a b d h)

  suffix_at :
      (s : Option (Bytes × ℕ × Bytes))
      → Split is_dirsep_or_dot w s
      → notdir_suffix_at false o w (scan_back is_dirsep_or_dot w (length w)) ≡ put o (suffix_part s)
  unfolding Split notdir_suffix_at
  suffix_at none (e, _) = rw e
  suffix_at (some (a, d, b)) h =
      rw (h.scan, stop_byte is_dirsep_or_dot w a b d h, from_stop is_dirsep_or_dot w a b d h)
        (ground arith)

  dir_at :
      (s : Option (Bytes × ℕ × Bytes))
      → Split is_dirsep w s
      → basename_dir_at true o w (scan_back is_dirsep w (length w)) ≡ put o (some (dir_part s))
  unfolding Split basename_dir_at
  dir_at none (e, _) = rw e
  dir_at (some (a, d, b)) h = rw (h.scan, through_stop is_dirsep w a b d h)

  basename_at :
      (s : Option (Bytes × ℕ × Bytes))
      → Split is_dirsep_or_dot w s
      → basename_dir_at false o w (scan_back is_dirsep_or_dot w (length w))
        ≡ put o (some (basename_part w s))
  unfolding Split basename_dir_at
  basename_at none (e, _) = rw e
  basename_at (some (a, d, b)) h =
      rw (h.scan, stop_byte is_dirsep_or_dot w a b d h, before_stop is_dirsep_or_dot w a b d h)
        (ground arith)

module _ (o list : Bytes) where
  -- `notdir` appends for each word what stands behind its last slash, or the whole word if it has
  -- none; `dir` appends for each word what goes up to its last slash, or "./" if it has none.
  pub notdir-dir_words :
      (func_notdir_suffix o list (codes "notdir") ≡ o ++ join (map notdir_word (tokens list)))
      × (func_basename_dir o list (codes "dir") ≡ o ++ join (map dir_word (tokens list)))
  unfolding func_notdir_suffix func_basename_dir notdir_suffix_round basename_dir_round
  notdir-dir_words = (
    finish-foldl (λ w. some (notdir_word w)) _
          (λ r w. notdir_at r w (split_last is_dirsep w) (split_last-Split is_dirsep w))
          (tokens list) o
        ∙ ap (λ ws. o ++ join ws) (filter_map-eq-map notdir_word (tokens list)),
    finish-foldl (λ w. some (dir_word w)) _
          (λ r w. dir_at r w (split_last is_dirsep w) (split_last-Split is_dirsep w)) (tokens list)
          o
        ∙ ap (λ ws. o ++ join ws) (filter_map-eq-map dir_word (tokens list)),
  )

  -- `suffix` appends, for each word whose last byte among slashes and dots is a dot, what starts at
  -- this dot, and nothing for any other word; `basename` appends for such a word what stands before
  -- this dot, and any other word whole.
  pub suffix-basename_words :
      (func_notdir_suffix o list (codes "suffix")
        ≡ o ++ join (filter_map suffix_word (tokens list)))
      × (func_basename_dir o list (codes "basename") ≡ o ++ join (map basename_word (tokens list)))
  unfolding func_notdir_suffix func_basename_dir notdir_suffix_round basename_dir_round
  suffix-basename_words = (
    finish-foldl suffix_word _
        (λ r w. suffix_at r w (split_last is_dirsep_or_dot w) (split_last-Split is_dirsep_or_dot w))
        (tokens list) o,
    finish-foldl (λ w. some (basename_word w)) _
          (λ r w.
            basename_at r w (split_last is_dirsep_or_dot w) (split_last-Split is_dirsep_or_dot w))
          (tokens list) o
        ∙ ap (λ ws. o ++ join ws) (filter_map-eq-map basename_word (tokens list)),
  )

dir-append-notdir_part :
    (w : Bytes) (s : Option (Bytes × ℕ × Bytes))
    → Split is_dirsep w s
    → dir_part s ++ notdir_part w s ≡ elim s [ none ↦ codes "./" ++ w | some _ ↦ w ]
unfolding Split
dir-append-notdir_part w none _ = refl
dir-append-notdir_part w (some (a, d, b)) h = append_assoc a _ _ ∙ sym h.whole

basename-append-suffix_part :
    (w : Bytes) (s : Option (Bytes × ℕ × Bytes))
    → Split is_dirsep_or_dot w s
    → basename_part w s ++ join (elim (suffix_part s) [ none ↦ [] | some x ↦ x ∷ [] ]) ≡ w
unfolding Split join
basename-append-suffix_part w none _ = append-nil w
basename-append-suffix_part w (some (a, d, b)) h = elim (Bool-cases (d == b'.')) [
  | inl dot ↦ rw dot (sym h.whole)
  | inr other ↦ rw other (append-nil w)
]

filter_map-one :
    (g : Bytes → Option Bytes) (w : Bytes)
    → filter_map g (w ∷ []) ≡ elim (g w) [ none ↦ [] | some x ↦ x ∷ [] ]
unfolding filter_map
filter_map-one g w = elim (Option-cases (g w)) [
  | inl e ↦ rw (e, filter_map)
  | inr (x, e) ↦ rw (e, filter_map)
]

module _ (w : Bytes) (h : IsWord w) where
  -- Of a single word, `dir` and `notdir` joined give the word back, with "./" in front of it if it
  -- has no slash, and `basename` and `suffix` joined give the word back.
  pub pieces-append :
      (func_basename_dir [] w (codes "dir") ++ func_notdir_suffix [] w (codes "notdir")
        ≡ elim (split_last is_dirsep w) [ none ↦ codes "./" ++ w | some _ ↦ w ])
      × (func_basename_dir [] w (codes "basename") ++ func_notdir_suffix [] w (codes "suffix") ≡ w)
  pieces-append =
      let one : tokens w ≡ w ∷ [] = tokens-word w h in
      (
        rw ((notdir-dir_words [] w).0, (notdir-dir_words [] w).1, one)
            (unfold join in dir-append-notdir_part w _ (split_last-Split is_dirsep w)),
        rw ((suffix-basename_words [] w).0, (suffix-basename_words [] w).1, one)
            (rw filter_map-one (
              unfold join in
              basename-append-suffix_part w _ (split_last-Split is_dirsep_or_dot w))),
      )
