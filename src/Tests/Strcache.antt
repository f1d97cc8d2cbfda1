-- ===== src/Tests/Strcache.antt =====
-- Strings that are added to a cache of sixteen slots.
use gmake.Hash.{table_of_size}
use gmake.Prelude.{
  ℕ, zero, suc, ◌^◌, ◌≤◌, ◌≡◌, ◌↔◌, refl, sym, ap, true, false, [], ◌∷◌, Option, none, some, Bytes,
  codes, arith, length,
}
use gmake.Jhash.{jhash_string, sum_up_to_nul}
use gmake.Strcache.{
  Pointer, in_block, StringCache, empty_cache, strcache_init, string_at, add_string, strcache_add,
  strcache_iscached,
}
use gmake.Strcache.Add.{add_string-Added}
use gmake.Strcache.Room.{Added}
use gmake.Strcache.Intern.{Interned, strcache_add_lem}
use gmake.Strcache.Kept.{IsKept}
use gmake.Strcache.Memory.{NoNul}
use gmake.Strcache.Listed.{strcache_init-IsKept, empty_cache-IsKept, strcache_add-equal}

abbrev zeros : ℕ → Bytes
zeros zero = []
zeros (suc n) = 0 ∷ zeros n

length-zeros : (n : ℕ) → length (zeros n) ≡ n
length-zeros zero = refl
length-zeros (suc n) = ap suc (length-zeros n)

abbrev small : StringCache
small = empty_cache (table_of_size 16)

-- the pointers and the numbers behind three strings, the last of which was there
abbrev pointers : Option (Pointer × StringCache) → Option Pointer
pointers none = none
pointers (some (p, s)) = some p

abbrev then_add : Option (Pointer × StringCache) → Bytes → Option (Pointer × StringCache)
then_add none str = none
then_add (some (p, s)) str = strcache_add zeros s str

no_nul_run : sum_up_to_nul 1 (codes "abcde") ≡ (1684234850, false)
unfolding sum_up_to_nul
no_nul_run = refl

nul_run : sum_up_to_nul 1 (codes "ab") ≡ (25186, true)
unfolding sum_up_to_nul
nul_run = refl

twice_run :
    pointers (
      then_add
        (then_add (strcache_add zeros small (codes "foo.c")) (codes "bar.c"))
        (codes "foo.c"))
    ≡ some (in_block 0 0)
unfolding strcache_add table_of_size jhash_string empty_cache
twice_run = refl

other_run :
    pointers (then_add (strcache_add zeros small (codes "foo.c")) (codes "bar.c"))
    ≡ some (in_block 0 6)
unfolding strcache_add table_of_size jhash_string empty_cache
other_run = refl

small-IsKept : IsKept small
small-IsKept = empty_cache-IsKept 4 16 (omega arith) refl (omega arith)

name_plain : NoNul (codes "foo.c")
name_plain = (refl, (refl, (refl, (refl, (refl, tt)))))

other_plain : NoNul (codes "bar.c")
other_plain = (refl, (refl, (refl, (refl, (refl, tt)))))

add_string-Added_example :
    (p : Pointer) × (next : StringCache) × (add_string zeros strcache_init (codes "foo.c") 5
      ≡ some (p, next))
    × Added strcache_init (codes "foo.c") p next
add_string-Added_example =
    add_string-Added zeros length-zeros strcache_init (codes "foo.c") strcache_init-IsKept.0.stored
      name_plain (omega arith)

strcache_add_lem_example :
    (p : Pointer) × (after : StringCache) × (strcache_add zeros strcache_init (codes "foo.c")
      ≡ some (p, after))
    × Interned strcache_init (codes "foo.c") p after
strcache_add_lem_example =
    strcache_add_lem zeros length-zeros (codes "foo.c") name_plain (omega arith) strcache_init
      strcache_init-IsKept.0 strcache_init-IsKept.1

abbrev slots : Option (Pointer × StringCache) → ℕ
slots none = 0
slots (some (p, s)) = (StringCache.strings s).size

named :
    (p : Pointer) × (s1 : StringCache) × (strcache_add zeros small (codes "foo.c") ≡ some (p, s1))
    × ((StringCache.strings s1).size ≤ 2 ^ 31)
unfolding strcache_add table_of_size jhash_string empty_cache
named =
    let (p, s1, run, _) =
      strcache_add_lem zeros length-zeros (codes "foo.c") name_plain (omega arith) small
        small-IsKept (omega arith) in
    let size : (StringCache.strings s1).size ≡ 16 = sym (ap slots run) in (p, s1, run, omega arith)

strcache_add-equal_example :
    (q : Pointer) × (s2 : StringCache) × (strcache_add zeros named.1 (codes "bar.c") ≡ some (q, s2))
    × ((named.0 ≡ q) ↔ (codes "foo.c" ≡ codes "bar.c"))
    × (string_at s2 named.0 ≡ some (codes "foo.c"))
    × (string_at s2 q ≡ some (codes "bar.c"))
    × (strcache_iscached s2 named.0 ≡ true)
    × (strcache_iscached s2 q ≡ true)
strcache_add-equal_example =
    strcache_add-equal zeros length-zeros small named.1 (codes "foo.c") (codes "bar.c") named.0
      name_plain (omega arith) other_plain (omega arith) small-IsKept
      (unfold empty_cache table_of_size in omega arith) named.2 named.3
