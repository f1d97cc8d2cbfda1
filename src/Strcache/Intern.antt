-- ===== src/Strcache/Intern.antt =====
-- strcache_add of make-4.4/src/strcache.c: a map from strings to pointers that only grows.
use gmake.Hash.{HashTable, empty, occupant, hash_find_slot, hash_find_item, hash_insert_at}
use gmake.Hash.Lookup.{finds_valid}
use gmake.Hash.Probe.{IsHashing}
use gmake.Hash.Rounds.{some_inj}
use gmake.Hash.Update.{Put, insert_at-Put}
use gmake.Jhash.{jhash_string}
use gmake.Prelude.{
  ℕ, ◌+◌, ◌%◌, ◌^◌, ◌≤◌, ◌<◌, ◌≡◌, refl, ◌∙◌, ap, sym, ◌⊎◌, inl, inr, Bool, true, false, Option,
  none, some, Bytes, ltb, ◌=?◌, =?_refl, =?_sound, if◌then◌else◌, arith, length, get_or, Bool-cases,
}
use gmake.Strcache.{
  Pointer, in_block, huge, Cached, StringCache, stringing, any_key, string_at, add_at, add_hash,
  strcache_add,
}
use gmake.Strcache.Add.{add_string-Added}
use gmake.Strcache.Room.{Added}
use gmake.Strcache.Kept.{Stands, IsKept}
use gmake.Strcache.Memory.{NoNul}

pub stringing-IsHashing : IsHashing stringing
stringing-IsHashing = record {
  equal_refl = λ x. =?_refl x.text;
  equal_sym = λ x y e. (let same = =?_sound x.text y.text e in rw same (=?_refl y.text));
  equal_trans = λ x y z e d.
      (let same = =?_sound x.text y.text e ∙ =?_sound y.text z.text d in rw same (=?_refl z.text));
  equal-hash_1 = λ x y e. ap jhash_string (=?_sound x.text y.text e);
  equal-hash_2 = λ x y e. refl;
  same_equal = λ x y e. cc;
}

-- the abstract view: the pointer that a string has
unfoldable pub pointer_of : Option (Option Cached) → Option Pointer
pointer_of none = none
pointer_of (some none) = none
pointer_of (some (some c)) = some c.pointer

abbrev pub cached : StringCache → Bytes → Option Pointer
cached s text = pointer_of (hash_find_item stringing s.strings (any_key text))

pub Stands-string_at :
    (s : StringCache) (p : Pointer) (text : Bytes)
    → Stands s.heap p text
    → string_at s p ≡ some text
unfolding Stands string_at
Stands-string_at s (huge k) text stands = elim stands [ ]
Stands-string_at s (in_block place offset) text (sp, at, read, below) = rw (at, string_at) read

pointer_of-some :
    (r : Option (Option Cached)) (q : Pointer)
    → pointer_of r ≡ some q
    → (c : Cached) × (r ≡ some (some c)) × (c.pointer ≡ q)
unfolding pointer_of
pointer_of-some none q e = cc
pointer_of-some (some none) q e = cc
pointer_of-some (some (some c)) q e = (c, refl, some_inj e)

pub cached-Stands :
    (s : StringCache) (text : Bytes) (q : Pointer)
    → IsKept s
    → cached s text ≡ some q
    → Stands s.heap q text
cached-Stands s text q kept e =
    let (c, found, same) =
      pointer_of-some (hash_find_item stringing s.strings (any_key text)) q e in
    rw (← same) (kept.standing text c found).1

-- What is seen behind a call of strcache_add.
pub record Interned (s : StringCache) (str : Bytes) (p : Pointer) (after : StringCache)
    : Type 0 where
  pub kept : IsKept after
  pub same : (q : Pointer) → cached s str ≡ some q → q ≡ p
  pub seen : (text : Bytes) → cached after text ≡ (if text =? str then some p else cached s text)
  pub stays : (q : Pointer) (text : Bytes) → Stands s.heap q text → Stands after.heap q text

IsKept-recounted :
    (s : StringCache) (n : ℕ) → IsKept s → IsKept (record s { total_adds = n % 2 ^ 64 })
IsKept-recounted s n kept = record {
  stored = record {
    laid = kept.stored.laid;
    listed = kept.stored.listed;
    lost = kept.stored.lost;
    numbered = kept.stored.numbered;
  };
  valid = kept.valid;
  standing = kept.standing;
}

-- a string that was added to the buffers, and then to the table
put_Interned :
    (s next : StringCache) (p : Pointer) (table : HashTable Cached) (str : Bytes)
    → IsKept s
    → Added s str p next
    → cached s str ≡ none
    → Put stringing s.strings table (record { pointer = p; text = str }) none
    → Interned s str p (record next { strings = table })
unfolding pointer_of
put_Interned s next p table str kept added absent puts =
    let x : Cached = record { pointer = p; text = str } in
    record {
      kept = record {
        stored = record {
          laid = added.stored.laid;
          listed = added.stored.listed;
          lost = added.stored.lost;
          numbered = added.stored.numbered;
        };
        valid = puts.valid;
        standing = λ text c e. elim (Bool-cases (text =? str)) [
          | inl t ↦
              let same : str ≡ text = sym (=?_sound text str t) in
              let new : x ≡ c =
                some_inj (some_inj (sym (puts.seen (any_key text) ∙ rw t refl) ∙ e)) in
              (sym (ap (λ c. Cached.text c) new) ∙ same, rw (← new) rw (← same) added.there)
          | inr t ↦
              let (named, stands) =
                kept.standing text c (sym (puts.seen (any_key text) ∙ rw t refl) ∙ e) in
              (named, added.stays c.pointer text stands)
        ];
      };
      same = λ q e. (let lost : none ≡ some q = sym absent ∙ e in cc);
      seen = λ text.
          ap pointer_of (puts.seen (any_key text))
          ∙ pointer_of-if (text =? str) (some (some x))
              (hash_find_item stringing s.strings (any_key text));
      stays = added.stays;
    }
  where
    pointer_of-if :
        (b : Bool) (u v : Option (Option Cached))
        → pointer_of (if b then u else v) ≡ (if b then pointer_of u else pointer_of v)
    pointer_of-if true u v = refl
    pointer_of-if false u v = refl

module _ (fresh : ℕ → Bytes) (sized : (n : ℕ) → length (fresh n) ≡ n) (str : Bytes)
    (plain : NoNul str) (short : length str < 65535) where
  found_there :
      (s : StringCache) (slot : ℕ) (c : Cached)
      → IsKept s
      → hash_find_slot stringing s.strings (any_key str) ≡ some slot
      → occupant (get_or s.strings.vec slot empty) ≡ some c
      → (p : Pointer) × (after : StringCache) × (add_at fresh s str (length str) slot (some c)
          ≡ some (p, after))
        × Interned s str p after
  unfolding add_at pointer_of hash_find_item
  found_there s slot c kept run at =
      let found : hash_find_item stringing s.strings (any_key str) ≡ some (some c) =
        rw (run, hash_find_item) (ap some at) in
      (
        c.pointer,
        s,
        refl,
        record {
          kept = kept;
          same = λ q e. some_inj (sym e ∙ ap pointer_of found);
          seen = λ text. seen_same text (Bool-cases (text =? str)) found;
          stays = λ q text stands. stands;
        },
      )
    where
      seen_same :
          (text : Bytes)
          → ((text =? str) ≡ true) ⊎ ((text =? str) ≡ false)
          → hash_find_item stringing s.strings (any_key str) ≡ some (some c)
          → cached s text ≡ (if text =? str then some c.pointer else cached s text)
      seen_same text (inl e) found =
          let same = =?_sound text str e in rw e (ap (cached s) same ∙ ap pointer_of found)
      seen_same text (inr e) found = rw e refl

  put_there :
      (s : StringCache) (slot : ℕ)
      → IsKept s
      → s.strings.size ≤ 2 ^ 31
      → hash_find_slot stringing s.strings (any_key str) ≡ some slot
      → occupant (get_or s.strings.vec slot empty) ≡ none
      → (p : Pointer) × (after : StringCache) × (add_at fresh s str (length str) slot none
          ≡ some (p, after))
        × Interned s str p after
  unfolding add_at hash_find_item pointer_of
  put_there s slot kept half run at =
      let (p, next, ran, added) = add_string-Added fresh sized s str kept.stored plain short in
      let x : Cached = record { pointer = p; text = str } in
      let (there, table, done, puts) =
        insert_at-Put stringing stringing-IsHashing s.strings (any_key str) x slot kept.valid half
          (=?_refl str) run in
      let found : hash_find_item stringing s.strings (any_key str) ≡ some none =
        rw (run, hash_find_item) (ap some at) in
      let absent : cached s str ≡ none = ap pointer_of found in
      let inserted : hash_insert_at stringing next.strings x slot ≡ some (there, table) =
        rw added.table done in
      (
        p,
        record next { strings = table },
        rw (ran, add_at) rw (inserted, add_at) refl,
        put_Interned s next p table str kept added absent (rw at at puts),
      )

  add_at-Interned :
      (s : StringCache) (slot : ℕ)
      → IsKept s
      → s.strings.size ≤ 2 ^ 31
      → hash_find_slot stringing s.strings (any_key str) ≡ some slot
      → (old : Option Cached) → occupant (get_or s.strings.vec slot empty) ≡ old
      → (p : Pointer) × (after : StringCache) × (add_at fresh s str (length str) slot old
          ≡ some (p, after))
        × Interned s str p after
  add_at-Interned s slot kept half run none at = put_there s slot kept half run at
  add_at-Interned s slot kept half run (some c) at = found_there s slot c kept run at

  -- strcache_add of a text that has no NUL and less than 65535 bytes, where the table of strings has at most 2^31
  -- slots: the call returns, and no copy goes past the end of a buffer. The pointer is the one that the string had, if
  -- it had one; behind the call the string has this pointer and any other the one that it had before, if any; and the
  -- texts that stood in the blocks stand there still. The invariants hold as before, by which each string stands at its pointer.
  pub strcache_add_lem :
      (s : StringCache)
      → IsKept s
      → s.strings.size ≤ 2 ^ 31
      → (p : Pointer) × (after : StringCache) × (strcache_add fresh s str ≡ some (p, after))
        × Interned s str p after
  unfolding strcache_add add_hash
  strcache_add_lem s kept half =
      let t = record s { total_adds = (s.total_adds + 1) % 2 ^ 64 } in
      let small : ltb 65534 (length str) ≡ false = ground arith in
      let (slot, run, low, stops) =
        finds_valid stringing stringing-IsHashing s.strings (any_key str) kept.valid in
      let (p, after, ran, interned) =
        add_at-Interned t slot (IsKept-recounted s (s.total_adds + 1) kept) half run
          (occupant (get_or s.strings.vec slot empty)) refl in
      (
        p,
        after,
        rw (small, strcache_add, add_hash) rw (run, strcache_add, add_hash) ran,
        record {
          kept = interned.kept;
          same = interned.same;
          seen = interned.seen;
          stays = interned.stays;
        },
      )
