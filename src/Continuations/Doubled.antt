-- ===== src/Continuations/Doubled.antt =====
-- Texts that collapse_continuations of make-4.4/src/misc.c leaves as they are meant.
use gmake.Continuations.{
  push, strip_run, skip_blanks, put_line, behind_line, collapse_line, collapse_from,
  collapse_continuations,
}
use gmake.Condition.{to_byte}
use gmake.Pattern.{backslashes}
use gmake.Prelude.{
  ℕ, zero, suc, ◌+◌, ◌/◌, ◌%◌, ◌≤◌, ◌<◌, ◌≡◌, refl, ◌∙◌, ap, sym, ◌⊎◌, inl, inr, All, All-append,
  length-append, Bool, false, [], ◌∷◌, ◌++◌, append_assoc, some, Bytes, ◌==◌, if◌then◌else◌, arith,
  length, Bool-cases,
}
use gmake.Text.{is_blank}

-- each backslash in front of a newline doubled, with the number of those that stand in front of the text
unfoldable pub double_runs : ℕ → Bytes → Bytes
unfolding backslashes
double_runs n [] = []
double_runs n (c ∷ s) =
    let next = double_runs 0 s in
    let more = double_runs (suc n) s in
    if c == 10 then backslashes n ++ (10 ∷ next) else if c == b'\\' then c ∷ more else c ∷ next

-- the length of the run at the end of a text, with the number of those in front of it
run_behind : ℕ → Bytes → ℕ
run_behind n [] = n
run_behind n (c ∷ s) =
    let next = run_behind 0 s in
    let more = run_behind (suc n) s in if c == b'\\' then more else next

abbrev total : ℕ → Bytes × ℕ → ℕ
total n ([], k) = n + k
total n (d ∷ body, k) = k

abbrev longer : ℕ → Bytes × ℕ → Bytes × ℕ
longer m (body, k) = (body, k + m)

abbrev joined : Bytes × ℕ → Bytes
joined (body, k) = body ++ backslashes k

push-longer : (m c : ℕ) (r : Bytes × ℕ) → push c (longer m r) ≡ longer m (push c r)
push-longer m c ([], k) = elim (Bool-cases (c == b'\\')) [
  | inl e ↦ rw e (ap (λ n. ([], n)) (omega arith))
  | inr e ↦ rw e refl
]
push-longer m c (d ∷ body, k) = refl

strip_run-backslashes : (m : ℕ) → strip_run (backslashes m) ≡ ([], m)
unfolding strip_run backslashes
strip_run-backslashes zero = refl
strip_run-backslashes (suc m) = ap (push b'\\') (strip_run-backslashes m)

strip_run-longer : (s : Bytes) (m : ℕ) → strip_run (s ++ backslashes m) ≡ longer m (strip_run s)
unfolding strip_run
strip_run-longer [] m = strip_run-backslashes m ∙ ap (λ n. ([], n)) (omega arith)
strip_run-longer (c ∷ s) m = ap (push c) (strip_run-longer s m) ∙ push-longer m c (strip_run s)

total-push :
    (n c : ℕ) (r : Bytes × ℕ) → total n (push c r) ≡ total (if c == b'\\' then suc n else 0) r
total-push n c ([], k) = elim (Bool-cases (c == b'\\')) [
  | inl e ↦ rw e (omega arith)
  | inr e ↦ rw e (omega arith)
]
total-push n c (d ∷ body, k) = refl

run_behind-total : (n : ℕ) (s : Bytes) → run_behind n s ≡ total n (strip_run s)
unfolding run_behind strip_run
run_behind-total n [] = omega arith
run_behind-total n (c ∷ s) = elim (Bool-cases (c == b'\\')) [
  | inl e ↦
      rw (e, run_behind)
        (run_behind-total (suc n) s
          ∙ ap (λ b. total (if b then suc n else 0) (strip_run s)) (sym e)
          ∙ sym (total-push n c (strip_run s)))
  | inr e ↦
      rw (e, run_behind)
        (run_behind-total 0 s
          ∙ ap (λ b. total (if b then suc n else 0) (strip_run s)) (sym e)
          ∙ sym (total-push n c (strip_run s)))
]

total-zero : (r : Bytes × ℕ) → total 0 r ≡ r.1
total-zero ([], k) = omega arith
total-zero (d ∷ body, k) = refl

joined-push : (c : ℕ) (r : Bytes × ℕ) → joined (push c r) ≡ c ∷ joined r
joined-push c ([], k) = elim (Bool-cases (c == b'\\')) [
  | inl e ↦
      let same : b'\\' ≡ c = ground arith in
      rw e (unfold backslashes in ap (λ x. x ∷ backslashes k) same)
  | inr e ↦ rw e refl
]
joined-push c (d ∷ body, k) = refl

joined-strip_run : (s : Bytes) → joined (strip_run s) ≡ s
unfolding strip_run backslashes
joined-strip_run [] = refl
joined-strip_run (c ∷ s) = joined-push c (strip_run s) ∙ ap (λ r. c ∷ r) (joined-strip_run s)

put_doubled :
    (posix_pedantic : Bool) (out body : Bytes) (k : ℕ)
    → put_line posix_pedantic out (body, k + k) ≡ out ++ ((body ++ backslashes k) ++ (10 ∷ []))
unfolding put_line
put_doubled posix_pedantic out body k =
    let even : (k + k) % 2 == 1 ≡ false = ground arith in
    let half : (k + k) / 2 ≡ k = omega arith in
    rw (even, put_line) rw (half, put_line) (append_assoc out (body ++ backslashes k) (10 ∷ []))

abbrev NoNewline : Bytes → Type 0
NoNewline = All (λ c. (c == 10) ≡ false)

to_byte-newline :
    (line next : Bytes) → NoNewline line → to_byte 10 (line ++ (10 ∷ next)) ≡ (line, 10 ∷ next)
unfolding to_byte
to_byte-newline [] next plain = refl
to_byte-newline (c ∷ line) next (e, plain) =
    rw (e, to_byte) rw (to_byte-newline line next plain) refl

to_byte-none : (line : Bytes) → NoNewline line → to_byte 10 line ≡ (line, [])
unfolding to_byte
to_byte-none [] plain = refl
to_byte-none (c ∷ line) (e, plain) = rw (e, to_byte) rw (to_byte-none line plain) refl

double_runs-none : (n : ℕ) (line : Bytes) → NoNewline line → double_runs n line ≡ line
unfolding double_runs
double_runs-none n [] plain = refl
double_runs-none n (c ∷ line) (e, plain) = elim (Bool-cases (c == b'\\')) [
  | inl d ↦ rw (e, d, double_runs) (ap (λ r. c ∷ r) (double_runs-none (suc n) line plain))
  | inr d ↦ rw (e, d, double_runs) (ap (λ r. c ∷ r) (double_runs-none 0 line plain))
]

double_runs-newline :
    (n : ℕ) (line next : Bytes)
    → NoNewline line
    → double_runs n (line ++ (10 ∷ next))
      ≡ (line ++ backslashes (run_behind n line)) ++ (10 ∷ double_runs 0 next)
unfolding double_runs run_behind
double_runs-newline n [] next plain = refl
double_runs-newline n (c ∷ line) next (e, plain) = elim (Bool-cases (c == b'\\')) [
  | inl d ↦
      rw (e, d, double_runs, run_behind)
        (ap (λ r. c ∷ r) (double_runs-newline (suc n) line next plain))
  | inr d ↦
      rw (e, d, double_runs, run_behind) (ap (λ r. c ∷ r) (double_runs-newline 0 line next plain))
]

backslashes-NoNewline : (n : ℕ) → NoNewline (backslashes n)
unfolding backslashes
backslashes-NoNewline zero = tt
backslashes-NoNewline (suc n) = (refl, backslashes-NoNewline n)

-- a text is one line, or a line and what stands behind the newline
line-cases :
    (t : Bytes)
    → NoNewline t
      ⊎ ((line next : Bytes) × NoNewline line
          × (t ≡ line ++ (10 ∷ next))
          × (length next < length t))
line-cases [] = inl tt
line-cases (c ∷ t) = elim (Bool-cases (c == 10)) [
  | inl e ↦ let same : c ≡ 10 = ground arith in inr ([], t, tt, ap (λ x. x ∷ t) same, omega arith)
  | inr e ↦ elim (line-cases t) [
    | inl plain ↦ inl (e, plain)
    | inr (line, next, plain, d, b) ↦
        inr (c ∷ line, next, (e, plain), ap (λ r. c ∷ r) d, omega arith)
  ]
]

doubled_line :
    (fuel : ℕ) (posix_pedantic : Bool) (out line next : Bytes)
    → NoNewline line
    → collapse_from (suc fuel) posix_pedantic out (double_runs 0 (line ++ (10 ∷ next)))
      ≡ collapse_from fuel posix_pedantic (out ++ (line ++ (10 ∷ []))) (double_runs 0 next)
unfolding collapse_from
doubled_line fuel posix_pedantic out line next plain =
    let k = (strip_run line).1 in
    let run : run_behind 0 line ≡ k = run_behind-total 0 line ∙ total-zero (strip_run line) in
    let whole = (line ++ backslashes k) in
    let clean : NoNewline whole =
      All-append _ line (backslashes k) plain (backslashes-NoNewline k) in
    let text : double_runs 0 (line ++ (10 ∷ next)) ≡ whole ++ (10 ∷ double_runs 0 next) =
      double_runs-newline 0 line next plain
      ∙ ap (λ n. (line ++ backslashes n) ++ (10 ∷ double_runs 0 next)) run in
    let stripped : strip_run whole ≡ ((strip_run line).0, k + k) = strip_run-longer line k in
    let even : (k + k) % 2 == 1 ≡ false = ground arith in
    let back : (strip_run line).0 ++ backslashes k ≡ line = joined-strip_run line in
    let again = collapse_from fuel posix_pedantic in
    let stays : behind_line ((strip_run line).0, k + k) (double_runs 0 next) ≡ double_runs 0 next =
      unfold behind_line in rw even refl in
    ap (λ u. collapse_line again posix_pedantic out (to_byte 10 u)) text
    ∙ ap (collapse_line again posix_pedantic out) (to_byte-newline whole (double_runs 0 next) clean)
    ∙ unfold collapse_line in
      ap (λ r. again (put_line posix_pedantic out r) (behind_line r (double_runs 0 next))) stripped
      ∙ ap (again (put_line posix_pedantic out ((strip_run line).0, k + k))) stays
      ∙ ap (λ b. again b (double_runs 0 next))
          (put_doubled posix_pedantic out (strip_run line).0 k
            ∙ ap (λ l. out ++ (l ++ (10 ∷ []))) back)

collapses_back :
    (fuel : ℕ) (posix_pedantic : Bool) (out t : Bytes)
    → length t < fuel
    → collapse_from fuel posix_pedantic out (double_runs 0 t) ≡ some (out ++ t)
unfolding collapse_from
collapses_back zero posix_pedantic out t b = absurd (omega arith)
collapses_back (suc fuel) posix_pedantic out t b = elim (line-cases t) [
  | inl plain ↦
      ap (λ u. collapse_line (collapse_from fuel posix_pedantic) posix_pedantic out (to_byte 10 u))
        (double_runs-none 0 t plain)
      ∙ ap (collapse_line (collapse_from fuel posix_pedantic) posix_pedantic out)
          (to_byte-none t plain)
      ∙ unfold collapse_line in refl
  | inr (line, next, plain, e, low) ↦ rw e (
      doubled_line fuel posix_pedantic out line next plain
      ∙ collapses_back fuel posix_pedantic (out ++ (line ++ (10 ∷ []))) next (omega arith)
      ∙ ap some (
          append_assoc out (line ++ (10 ∷ [])) next
          ∙ ap (λ r. out ++ r) (append_assoc line (10 ∷ []) next)))
]

length-double_runs : (n : ℕ) (t : Bytes) → length t ≤ length (double_runs n t)
unfolding double_runs
length-double_runs n [] = omega arith
length-double_runs n (c ∷ t) =
    let size = length-append (backslashes n) (10 ∷ double_runs 0 t) in
    let next = length-double_runs 0 t in
    let more = length-double_runs (suc n) t in
    elim (Bool-cases (c == 10)) [
      | inl e ↦ rw (e, double_runs) (omega arith)
      | inr e ↦ elim (Bool-cases (c == b'\\')) [
        | inl d ↦ rw (e, d, double_runs) (omega arith)
        | inr d ↦ rw (e, d, double_runs) (omega arith)
      ]
    ]

length-behind_line : (r : Bytes × ℕ) (next : Bytes) → length (behind_line r next) ≤ length next
unfolding behind_line
length-behind_line (body, k) next = elim (Bool-cases (k % 2 == 1)) [
  | inl e ↦ rw (e, behind_line) (length-skip_blanks next)
  | inr e ↦ rw (e, behind_line) (omega arith)
]
  where
    length-skip_blanks : (s : Bytes) → length (skip_blanks s) ≤ length s
    length-skip_blanks [] = omega arith
    length-skip_blanks (c ∷ s) = elim (Bool-cases (is_blank c)) [
      | inl e ↦ rw (e, skip_blanks) (omega (arith, length-skip_blanks s))
      | inr e ↦ rw (e, skip_blanks) (omega arith)
    ]

collapse_from-ends :
    (fuel : ℕ) (posix_pedantic : Bool) (out t : Bytes)
    → length t < fuel
    → (r : Bytes) × (collapse_from fuel posix_pedantic out t ≡ some r)
unfolding collapse_from collapse_line
collapse_from-ends zero posix_pedantic out t b = absurd (omega arith)
collapse_from-ends (suc fuel) posix_pedantic out t b =
    let again = collapse_from fuel posix_pedantic in
    elim (line-cases t) [
      | inl plain ↦ (out ++ t, ap (collapse_line again posix_pedantic out) (to_byte-none t plain))
      | inr (line, next, plain, e, low) ↦
          let less = length-behind_line (strip_run line) next in
          let (r, run) =
            collapse_from-ends fuel posix_pedantic (put_line posix_pedantic out (strip_run line))
              (behind_line (strip_run line) next) (omega arith) in
          (
            r,
            ap (λ u. collapse_line again posix_pedantic out (to_byte 10 u)) e
                ∙ ap (collapse_line again posix_pedantic out) (to_byte-newline line next plain)
                ∙ run,
          )
    ]

-- A text in which each backslash in front of a newline has been doubled is collapsed to what it was, with
-- posix_pedantic and without; and of every text the loop ends within one round more than the text has bytes.
pub collapse_continuations-double_runs :
    (posix_pedantic : Bool) (t : Bytes)
    → (collapse_continuations posix_pedantic (double_runs 0 t) ≡ some t)
      × (r : Bytes) × (collapse_continuations posix_pedantic t ≡ some r)
unfolding collapse_continuations
collapse_continuations-double_runs posix_pedantic t =
    let (r, run) = collapse_from-ends (suc (length t)) posix_pedantic [] t (omega arith) in
    (
      collapses_back (suc (length (double_runs 0 t))) posix_pedantic [] t
          (omega (arith, length-double_runs 0 t)),
      r,
      run,
    )
