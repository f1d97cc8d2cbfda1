-- ===== src/Strcache/Room.antt =====
-- A string in a block that has room, as add_string of make-4.4/src/strcache.c puts it there.
use gmake.Prelude.{
  suc, ◌⊎◌, get_elem?-set_self, ℕ, ◌+◌, ◌%◌, ◌^◌, ◌<◌, ◌≡◌, refl, ◌∙◌, ap, sym, inl, inr, Bool,
  true, false, List, [], ◌∷◌, ◌++◌, Option, none, some, Bytes, ltb, ◌==◌, if◌then◌else◌, arith,
  length, length-set, get_elem?, set, count, one, Bool-cases,
}
use gmake.Hash.Rounds.{some_inj}
use gmake.Strcache.{
  Block, Pointer, in_block, StringCache, find_cache, behind, has_room, is_full, add_to,
}
use gmake.Strcache.Blocks.{
  last_or_before, get_elem?-low, Copied, copy_string-Copied, Stands-copied, copied-Stands,
  set-IsLaid,
}
use gmake.Strcache.Kept.{Stands, IsStored}
use gmake.Strcache.Memory.{NoNul}

-- The numbers of the block of a pointer, exactly: a block that was there, or a new one with nothing in it, has the string
-- and a NUL more in it and less free, and one string more.
pub record Counts (heap after : List Block) (str : Bytes) (p : Pointer) : Type 0 where
  pub place : ℕ
  pub old : Block
  pub new : Block
  pub at : p ≡ in_block place old.end
  pub was : (get_elem? heap place ≡ some old) ⊎ ((old.end ≡ 0) × (old.count ≡ 0))
  pub is : get_elem? after place ≡ some new
  pub end : new.end ≡ old.end + suc (length str)
  pub bytesfree : old.bytesfree ≡ new.bytesfree + suc (length str)
  pub counted : new.count ≡ suc old.count

pub Counts-extend :
    (heap after : List Block) (block : Block) (str : Bytes) (p : Pointer)
    → block.end ≡ 0
    → block.count ≡ 0
    → Counts (heap ++ (block ∷ [])) after str p
    → Counts heap after str p
Counts-extend heap after block str p e c counts = record {
  place = counts.place;
  old = counts.old;
  new = counts.new;
  at = counts.at;
  was = elim counts.was [
    | inl d ↦ elim (last_or_before heap block counts.place counts.old d) [
      | inl g ↦ inl g
      | inr g ↦ inr (ap (λ b. Block.end b) g ∙ e, ap (λ b. Block.count b) g ∙ c)
    ]
    | inr empty ↦ inr empty
  ];
  is = counts.is;
  end = counts.end;
  bytesfree = counts.bytesfree;
  counted = counts.counted;
}

pub Copied-Counts :
    (heap : List Block) (place : ℕ) (sp after : Block) (str : Bytes)
    → get_elem? heap place ≡ some sp
    → Copied sp str after
    → Counts heap (set heap place after) str (in_block place sp.end)
Copied-Counts heap place sp after str at copied = record {
  place = place;
  old = sp;
  new = after;
  at = refl;
  was = inl at;
  is = get_elem?-set_self heap place after (get_elem?-low heap place sp at);
  end = copied.end;
  bytesfree = copied.bytesfree;
  counted = copied.count;
}

-- What is seen behind a call that added a string at a pointer.
pub record Added (s : StringCache) (str : Bytes) (p : Pointer) (after : StringCache) : Type 0 where
  pub stored : IsStored after
  pub there : Stands after.heap p str
  pub stays : (q : Pointer) (text : Bytes) → Stands s.heap q text → Stands after.heap q text
  pub table : after.strings ≡ s.strings
  pub counts : Counts s.heap after.heap str p

count-moved :
    (full : Bool) (test : ℕ → Bool) (before after list : List ℕ) (place : ℕ)
    → count test (if full then before ++ after else before ++ (place ∷ after))
        + count test (if full then place ∷ list else list)
      ≡ count test (before ++ (place ∷ after)) + count test list
unfolding count
count-moved true test [] after list place = omega arith
count-moved true test (x ∷ before) after list place =
    omega (arith, count-moved true test before after list place)
count-moved false test before after list place = refl

length-moved :
    (full : Bool) (before after list : List ℕ) (place : ℕ)
    → length (if full then before ++ after else before ++ (place ∷ after))
        + length (if full then place ∷ list else list)
      ≡ length (before ++ (place ∷ after)) + length list
length-moved true [] after list place = omega arith
length-moved true (x ∷ before) after list place =
    omega (arith, length-moved true before after list place)
length-moved false before after list place = refl

-- the lists with a place that stands in front of them, or moved from strcache to fullcache
moved-IsStored :
    (s : StringCache) (before after : List ℕ) (place : ℕ) (full : Bool)
    → IsStored (record s { strcache = before ++ (place ∷ after) })
    → IsStored (record s {
      strcache = if full then before ++ after else before ++ (place ∷ after);
      fullcache = if full then place ∷ s.fullcache else s.fullcache;
    })
moved-IsStored s before after place full stored = record {
  laid = stored.laid;
  listed = λ b. count-moved full (λ p. p == b) before after s.fullcache place ∙ stored.listed b;
  lost = length-moved full before after s.fullcache place ∙ stored.lost;
  numbered = stored.numbered;
}

-- a block of the heap that copy_string changed
pub Copied-IsStored :
    (s : StringCache) (place : ℕ) (sp after : Block) (str : Bytes)
    → IsStored s
    → get_elem? s.heap place ≡ some sp
    → Copied sp str after
    → IsStored (record s { heap = set s.heap place after })
Copied-IsStored s place sp after str stored at copied =
    let same = length-set s.heap place after in
    record {
      laid = set-IsLaid s.heap place sp after str at copied stored.laid;
      listed = λ b. stored.listed b ∙ ap (λ n. one (ltb b n)) (sym same);
      lost = stored.lost ∙ sym same;
      numbered = stored.numbered ∙ ap (λ n. n % 2 ^ 64) (sym same);
    }

pub add_to-Added :
    (s : StringCache) (before after : List ℕ) (place : ℕ) (sp : Block) (str : Bytes)
    → IsStored (record s { strcache = before ++ (place ∷ after) })
    → get_elem? s.heap place ≡ some sp
    → NoNul str
    → length str < sp.bytesfree
    → (p : Pointer) × (next : StringCache) × (add_to s before place after sp str (length str)
        ≡ some (p, next))
      × Added s str p next
unfolding add_to
add_to-Added s before after place sp str stored at plain room =
    let (copied, run, made) = copy_string-Copied sp str (stored.laid place sp at) plain room in
    let whole = record s { strcache = before ++ (place ∷ after) } in
    let kept = Copied-IsStored whole place sp copied str stored at made in
    (
      in_block place sp.end,
      _,
      rw (run, add_to) refl,
      record {
        stored =
            moved-IsStored (record s { heap = set s.heap place copied }) before after place
              (is_full s copied) kept;
        there = copied-Stands s.heap place sp copied str at made;
        stays = Stands-copied s.heap place sp copied str at made;
        table = refl;
        counts = Copied-Counts s.heap place sp copied str at made;
      },
    )

behind-some :
    (p : ℕ) (r : Option (List ℕ × ℕ × List ℕ)) (before after : List ℕ) (place : ℕ)
    → behind p r ≡ some (before, place, after)
    → (b : List ℕ) × (r ≡ some (b, place, after)) × (before ≡ p ∷ b)
behind-some p none before after place e = cc
behind-some p (some (b, q, a)) before after place e =
    let found = some_inj e in
    (
      b,
      ap (λ (t : List ℕ × ℕ × List ℕ). some (b, t.1, t.2)) found,
      sym (ap (λ (t : List ℕ × ℕ × List ℕ). t.0) found),
    )

has_room-some :
    (sz : ℕ) (r : Option Block)
    → has_room sz r ≡ true
    → (sp : Block) × (r ≡ some sp) × (sz < sp.bytesfree)
has_room-some sz none e = cc
has_room-some sz (some sp) e = (sp, refl, ground arith)

pub find_cache-room :
    (heap : List Block) (sz : ℕ) (list before after : List ℕ) (place : ℕ)
    → find_cache heap sz list ≡ some (before, place, after)
    → (list ≡ before ++ (place ∷ after))
      × (sp : Block) × (get_elem? heap place ≡ some sp)
      × (sz < sp.bytesfree)
unfolding find_cache
find_cache-room heap sz [] before after place e = cc
find_cache-room heap sz (p ∷ list) before after place e =
    elim (Bool-cases (has_room sz (get_elem? heap p))) [
      | inl t ↦
          let found = some_inj (rw t at e) in
          let (sp, at, room) = has_room-some sz (get_elem? heap p) t in
          (
            ap (λ (r : List ℕ × ℕ × List ℕ). r.0 ++ (r.1 ∷ r.2)) found,
            sp,
            ap (get_elem? heap) (sym (ap (λ (r : List ℕ × ℕ × List ℕ). r.1) found)) ∙ at,
            room,
          )
      | inr t ↦
          let (b, run, more) =
            behind-some p (find_cache heap sz list) before after place (rw t at e) in
          let (split, sp, at, room) = find_cache-room heap sz list b after place run in
          (rw more (ap (λ l. p ∷ l) split), sp, at, room)
    ]
