-- ===== src/Strcache/Listed.antt =====
-- Pointers that strcache_add of make-4.4/src/strcache.c returned: when two are the same, and strcache_iscached.
use gmake.Hash.{hash_init, table_of_size, round_up_2}
use gmake.Hash.Cycle.{pow2}
use gmake.Hash.Delete.{table_of_size-IsValid}
use gmake.Hash.Rounds.{some_inj}
use gmake.Prelude.{
  ℕ, ◌+◌, ◌^◌, ◌≤◌, ◌<◌, ◌≡◌, refl, ◌∙◌, ap, sym, inl, inr, Bool, true, false, ◌||◌, List, [], ◌∷◌,
  none, some, Bytes, ltb, ◌==◌, =?_refl, arith, length, get_elem?, count, one, Bool-cases, ◌↔◌,
}
use gmake.Strcache.{
  Block, Pointer, in_block, huge, StringCache, empty_cache, covers, in_blocks, strcache_init,
  stringing, any_key, strcache_iscached, string_at, strcache_add,
}
use gmake.Strcache.Blocks.{get_elem?-low}
use gmake.Strcache.Intern.{
  stringing-IsHashing, Interned, cached, cached-Stands, Stands-string_at, strcache_add_lem,
}
use gmake.Strcache.Kept.{Stands, IsStored, IsKept}
use gmake.Strcache.Memory.{NoNul}

-- a cache without a block
pub empty_cache-IsKept :
    (k size : ℕ) → k ≤ 32 → size ≡ pow2 k → 16 ≤ size → IsKept (empty_cache (table_of_size size))
unfolding count one empty_cache
empty_cache-IsKept k size b e big =
    let (valid, absent) = table_of_size-IsValid stringing stringing-IsHashing k size b e big in
    record {
      stored = record {
        laid = λ place sp at. cc;
        listed = λ b. ground arith;
        lost = refl;
        numbered = omega arith;
      };
      valid = valid;
      standing = λ text c found.
          (let lost : some (some c) ≡ some none = sym found ∙ absent (any_key text) in cc);
    }

pub strcache_init-IsKept : IsKept strcache_init × (StringCache.strings strcache_init).size ≤ 2 ^ 31
unfolding strcache_init hash_init table_of_size round_up_2
strcache_init-IsKept = (empty_cache-IsKept 13 8192 (omega arith) refl (omega arith), omega arith)

in_blocks-count :
    (heap : List Block) (place offset : ℕ) (list : List ℕ)
    → covers offset (get_elem? heap place) ≡ true
    → 0 < count (λ p. p == place) list
    → in_blocks heap place offset list ≡ true
unfolding in_blocks count one
in_blocks-count heap place offset [] e b = absurd (omega arith)
in_blocks-count heap place offset (p ∷ list) e b = elim (Bool-cases (p == place)) [
  | inl t ↦
      let same : p ≡ place = ground arith in
      rw (t, in_blocks) rw (same, in_blocks) rw (e, in_blocks) refl
  | inr t ↦
      let more : 0 < count (λ p. p == place) list = omega (arith, rw t at b) in
      rw (t, in_blocks) (in_blocks-count heap place offset list e more)
]

or_true : (b : Bool) → (b || true) ≡ true
or_true true = refl
or_true false = refl

pub Stands-strcache_iscached :
    (s : StringCache) (p : Pointer) (text : Bytes)
    → IsStored s
    → Stands s.heap p text
    → strcache_iscached s p ≡ true
unfolding Stands strcache_iscached one
Stands-strcache_iscached s (huge k) text stored stands = elim stands [ ]
Stands-strcache_iscached s (in_block place offset) text stored (sp, at, read, below) =
    let low = get_elem?-low s.heap place sp at in
    let covered : covers offset (get_elem? s.heap place) ≡ true = rw at (ground arith) in
    let inside : ltb place (length s.heap) ≡ true = ground arith in
    let once : count (λ p. p == place) s.strcache + count (λ p. p == place) s.fullcache ≡ 1 =
      stored.listed place ∙ ap one inside in
    elim (Bool-cases (ltb 0 (count (λ p. p == place) s.strcache))) [
      | inl t ↦ rw (in_blocks-count s.heap place offset s.strcache covered (ground arith)) refl
      | inr t ↦
          rw (in_blocks-count s.heap place offset s.fullcache covered (ground arith)) (or_true _)
    ]

module _ (fresh : ℕ → Bytes) (sized : (n : ℕ) → length (fresh n) ≡ n) where
  -- Two texts that have no NUL and less than 65535 bytes are added one behind the other, each to a table of at most 2^31
  -- slots: the second call returns as well, the pointers are the same just where the texts are, behind both calls
  -- each pointer reads its text, and strcache_iscached tells both to be in the cache.
  pub strcache_add-equal :
      (s s1 : StringCache) (str other : Bytes) (p : Pointer)
      → NoNul str
      → length str < 65535
      → NoNul other
      → length other < 65535
      → IsKept s
      → s.strings.size ≤ 2 ^ 31
      → strcache_add fresh s str ≡ some (p, s1)
      → s1.strings.size ≤ 2 ^ 31
      → (q : Pointer) × (s2 : StringCache) × (strcache_add fresh s1 other ≡ some (q, s2))
        × ((p ≡ q) ↔ (str ≡ other))
        × (string_at s2 p ≡ some str)
        × (string_at s2 q ≡ some other)
        × (strcache_iscached s2 p ≡ true)
        × (strcache_iscached s2 q ≡ true)
  strcache_add-equal s s1 str other p plain short plain2 short2 kept half e half1 =
      let (p', s1', run, first) = strcache_add_lem fresh sized str plain short s kept half in
      let same = some_inj (sym run ∙ e) in
      let interned : Interned s str p s1 =
        rw
          (
            ← (ap (λ (r : Pointer × StringCache). r.0) same),
            ← (ap (λ (r : Pointer × StringCache). r.1) same),
          )
          first in
      let had : cached s1 str ≡ some p = interned.seen str ∙ rw (=?_refl str) refl in
      let (q, s2, ran, second) =
        strcache_add_lem fresh sized other plain2 short2 s1 interned.kept half1 in
      let has : cached s2 other ≡ some q = second.seen other ∙ rw (=?_refl other) refl in
      let stands_p = second.stays p str (cached-Stands s1 str p interned.kept had) in
      let stands_q = cached-Stands s2 other q second.kept has in
      let read_p = Stands-string_at s2 p str stands_p in
      let read_q = Stands-string_at s2 q other stands_q in
      (
        q,
        s2,
        ran,
        (
          λ d. some_inj (sym read_p ∙ ap (string_at s2) d ∙ read_q),
          λ d. second.same p (ap (cached s1) (sym d) ∙ had),
        ),
        read_p,
        read_q,
        Stands-strcache_iscached s2 p str second.kept.stored stands_p,
        Stands-strcache_iscached s2 q other second.kept.stored stands_q,
      )
