-- ===== src/Strcache/Blocks.antt =====
-- copy_string of make-4.4/src/strcache.c, and a block that it changed in the heap.
use gmake.Hash.Rounds.{some_inj}
use gmake.Prelude.{
  ℕ, zero, suc, ◌+◌, ◌-◌, ◌%◌, ◌^◌, ◌<◌, ◌≡◌, refl, ◌∙◌, ap, sym, ◌⊎◌, inl, inr, List, [], ◌∷◌,
  ◌++◌, some, Bytes, ◌==◌, arith, length, length-append, take, get_elem?, set, get_elem?-set_self,
  get_elem?-set_ne, Bool-cases,
}
use gmake.Strcache.{Block, Pointer, in_block, huge, write_at, string_in, copy_string}
use gmake.Strcache.Kept.{IsLaid, Stands}
use gmake.Strcache.Memory.{NoNul, write_at-fits, reads_back, kept_below, take-length}

-- what copy_string makes of a block
pub record Copied (sp : Block) (str : Bytes) (after : Block) : Type 0 where
  pub laid : IsLaid after
  pub read : string_in after.buffer sp.end ≡ some str
  pub end : after.end ≡ sp.end + suc (length str)
  pub bytesfree : sp.bytesfree ≡ after.bytesfree + suc (length str)
  pub count : after.count ≡ suc sp.count
  pub keeps :
      (at : ℕ) (text : Bytes)
      → string_in sp.buffer at ≡ some text
      → at + length text < sp.end
      → string_in after.buffer at ≡ some text

pub copy_string-Copied :
    (sp : Block) (str : Bytes)
    → IsLaid sp
    → NoNul str
    → length str < sp.bytesfree
    → (after : Block) × (copy_string sp str (length str) ≡ some (sp.end, after))
      × Copied sp str after
unfolding copy_string
copy_string-Copied sp str laid plain room =
    let len = length str in
    let parts = laid.parts in
    let short = laid.short in
    let counted = laid.counted in
    let size = length-append str (0 ∷ []) in
    let (buffer, wrote, same) = write_at-fits sp.buffer sp.end (str ++ (0 ∷ [])) (omega arith) in
    let taken : write_at sp.buffer sp.end (take len str ++ (0 ∷ [])) ≡ some buffer =
      rw (take-length str) wrote in
    let after : Block = record {
      end = (sp.end + (len + 1) % 2 ^ 16) % 2 ^ 16;
      bytesfree = (sp.bytesfree + 2 ^ 16 - (len + 1) % 2 ^ 16) % 2 ^ 16;
      count = (sp.count + 1) % 2 ^ 16;
      buffer = buffer;
    } in
    (
      after,
      rw (taken, copy_string) refl,
      record {
        laid = record { parts = omega arith; short = omega arith; counted = omega arith };
        read = reads_back sp.buffer sp.end str buffer plain wrote;
        end = omega arith;
        bytesfree = omega arith;
        count = omega arith;
        keeps =
            λ at text r b. kept_below sp.buffer sp.end at (str ++ (0 ∷ [])) text buffer wrote r b;
      },
    )

pub get_elem?-low :
    (heap : List Block) (place : ℕ) (sp : Block)
    → get_elem? heap place ≡ some sp
    → place < length heap
get_elem?-low [] place sp e = cc
get_elem?-low (x ∷ heap) zero sp e = omega arith
get_elem?-low (x ∷ heap) (suc place) sp e = let b = get_elem?-low heap place sp e in omega arith

pub get_elem?-extend :
    (heap more : List Block) (place : ℕ) (sp : Block)
    → get_elem? heap place ≡ some sp
    → get_elem? (heap ++ more) place ≡ some sp
get_elem?-extend [] more place sp e = cc
get_elem?-extend (x ∷ heap) more zero sp e = e
get_elem?-extend (x ∷ heap) more (suc place) sp e = get_elem?-extend heap more place sp e

pub get_elem?-last :
    (heap : List Block) (sp : Block) → get_elem? (heap ++ (sp ∷ [])) (length heap) ≡ some sp
get_elem?-last [] sp = refl
get_elem?-last (x ∷ heap) sp = get_elem?-last heap sp

pub last_or_before :
    (heap : List Block) (new : Block) (place : ℕ) (sp : Block)
    → get_elem? (heap ++ (new ∷ [])) place ≡ some sp
    → (get_elem? heap place ≡ some sp) ⊎ (sp ≡ new)
last_or_before [] new zero sp e = inr (sym (some_inj e))
last_or_before [] new (suc place) sp e = cc
last_or_before (x ∷ heap) new zero sp e = inl e
last_or_before (x ∷ heap) new (suc place) sp e = last_or_before heap new place sp e

pub Stands-extend :
    (heap more : List Block) (p : Pointer) (text : Bytes)
    → Stands heap p text
    → Stands (heap ++ more) p text
unfolding Stands
Stands-extend heap more (huge k) text stands = elim stands [ ]
Stands-extend heap more (in_block place offset) text (sp, at, read, below) =
    (sp, get_elem?-extend heap more place sp at, read, below)

-- a block of the heap that copy_string changed
module _ (heap : List Block) (place : ℕ) (sp after : Block) (str : Bytes)
    (at : get_elem? heap place ≡ some sp) (copied : Copied sp str after) where
  pub Stands-copied :
      (p : Pointer) (text : Bytes) → Stands heap p text → Stands (set heap place after) p text
  unfolding Stands
  Stands-copied (huge k) text stands = elim stands [ ]
  Stands-copied (in_block q offset) text (block, there, read, below) =
      elim (Bool-cases (q == place)) [
        | inl e ↦
            let same : place ≡ q = ground arith in
            let one = some_inj (sym there ∙ ap (get_elem? heap) (sym same) ∙ at) in
            let end' = copied.end in
            let end = ap (λ b. Block.end b) one in
            (
              after,
              rw (← same) (get_elem?-set_self heap place after (get_elem?-low heap place sp at)),
              copied.keeps offset text (rw one at read) (omega arith),
              omega arith,
            )
        | inr e ↦ (
          block,
          get_elem?-set_ne heap place q after (λ d. (let no : ⊥ = ground arith in no)) ∙ there,
          read,
          below,
        )
      ]

  pub copied-Stands : Stands (set heap place after) (in_block place sp.end) str
  unfolding Stands
  copied-Stands = (
    after,
    get_elem?-set_self heap place after (get_elem?-low heap place sp at),
    copied.read,
    (omega (arith, copied.end)),
  )

  pub set-IsLaid :
      ((q : ℕ) (block : Block) → get_elem? heap q ≡ some block → IsLaid block)
      → (q : ℕ) (block : Block) → get_elem? (set heap place after) q ≡ some block
      → IsLaid block
  set-IsLaid laid q block there = elim (Bool-cases (q == place)) [
    | inl e ↦
        let same : place ≡ q = ground arith in
        let found = some_inj (
          sym (get_elem?-set_self heap place after (get_elem?-low heap place sp at))
          ∙ ap (get_elem? (set heap place after)) same
          ∙ there) in
        rw (← found) copied.laid
    | inr e ↦
        laid q block (
          sym (get_elem?-set_ne heap place q after (λ d. (let no : ⊥ = ground arith in no)))
          ∙ there)
  ]
