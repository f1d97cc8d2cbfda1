-- ===== src/Strcache.antt =====
-- make-4.4/src/strcache.c: strings that are kept for good, each once. The blocks of `struct strcache` stand in a heap in
-- the order of their allocation, and the lists `strcache` and `fullcache` hold their places in it. What fresh memory
-- holds is a parameter. An unsigned short has 16 bits, and an unsigned long and a pointer have 64.
pub mod Memory
pub mod Kept
pub mod Blocks
pub mod Room
pub mod Add
pub mod Intern
pub mod Listed
use gmake.Hash.{empty, Hashing, HashTable, occupant, hash_init, hash_find_slot, hash_insert_at}
use gmake.Jhash.{jhash_string}
use gmake.Prelude.{
  ℕ, zero, suc, ◌+◌, ◌-◌, ◌/◌, ◌%◌, ◌^◌, Bool, true, false, ◌&&◌, ◌||◌, List, [], ◌∷◌, ◌++◌, Option,
  none, some, Bytes, ltb, ◌==◌, ◌=?◌, if◌then◌else◌, length, get_or, get_elem?, set, take,
}

-- struct strcache, without `next`: offset of the free space, bytes free, and strings in the buffer
pub record Block : Type 0 where
  pub end : ℕ
  pub bytesfree : ℕ
  pub count : ℕ
  pub buffer : Bytes

-- a byte in the buffer of a block, or the string of a struct hugestring
pub data Pointer : Type 0 where
  in_block : ℕ → ℕ → Pointer
  huge : ℕ → Pointer

-- a key in the hash table: a `char *`, with the string that stands there
pub record Cached : Type 0 where
  pub pointer : Pointer
  pub text : Bytes

pub record StringCache : Type 0 where
  pub heap : List Block
  pub strcache : List ℕ
  pub fullcache : List ℕ
  pub hugestrings : List Bytes
  pub strings : HashTable Cached
  pub total_buffers : ℕ
  pub total_strings : ℕ
  pub total_size : ℕ
  pub total_adds : ℕ

-- BUFSIZE: 8192 less two size_t, and less `next` and three unsigned shorts
abbrev pub bufsize : ℕ
bufsize = 8192 - 16 - 14

-- str_hash_1, str_hash_2 and str_hash_cmp; the same pointers have the same string
abbrev pub stringing : Hashing Cached
stringing = record {
  hash_1 = λ c. jhash_string c.text;
  hash_2 = λ c. 0;
  compare_eq = λ x y. x.text =? y.text;
  same_pointer = λ x y. false;
}

abbrev pub any_key : Bytes → Cached
any_key text = record { pointer = huge 0; text = text }

-- bytes written into a buffer from an offset on; `none` where they go past its end
unfoldable pub write_at : Bytes → ℕ → Bytes → Option Bytes
write_at buffer zero [] = some buffer
write_at [] zero (c ∷ str) = none
write_at (b ∷ buffer) zero (c ∷ str) =
    let rest = write_at buffer zero str in elim rest [ none ↦ none | some after ↦ some (c ∷ after) ]
write_at [] (suc offset) str = none
write_at (b ∷ buffer) (suc offset) str =
    let rest = write_at buffer offset str in
    elim rest [ none ↦ none | some after ↦ some (b ∷ after) ]

-- what a `char *` to an offset in a buffer reads
unfoldable pub string_in : Bytes → ℕ → Option Bytes
string_in [] offset = none
string_in (b ∷ buffer) zero =
    let rest = string_in buffer zero in
    if b == 0 then some [] else (elim rest [ none ↦ none | some s ↦ some (b ∷ s) ])
string_in (b ∷ buffer) (suc offset) = string_in buffer offset

unfoldable pub string_at : StringCache → Pointer → Option Bytes
unfolding string_in
string_at s (in_block place offset) = elim (get_elem? s.heap place) [
  | none ↦ none
  | some sp ↦ string_in sp.buffer offset
]
string_at s (huge k) = get_elem? s.hugestrings k

-- into a block, the text and a NUL: the offset, and the block
unfoldable pub copy_string : Block → Bytes → ℕ → Option (ℕ × Block)
unfolding write_at
copy_string sp str len = elim (write_at sp.buffer sp.end (take len str ++ (0 ∷ []))) [
  | none ↦ none
  | some buffer ↦ some (
    sp.end,
    record {
      end = (sp.end + (len + 1) % 2 ^ 16) % 2 ^ 16;
      bytesfree = (sp.bytesfree + 2 ^ 16 - (len + 1) % 2 ^ 16) % 2 ^ 16;
      count = (sp.count + 1) % 2 ^ 16;
      buffer = buffer;
    },
  )
]

-- `(*spp)->bytesfree > sz`
abbrev pub has_room : ℕ → Option Block → Bool
has_room sz none = false
has_room sz (some sp) = ltb sz sp.bytesfree

abbrev pub behind : ℕ → Option (List ℕ × ℕ × List ℕ) → Option (List ℕ × ℕ × List ℕ)
behind place none = none
behind place (some (before, found, after)) = some (place ∷ before, found, after)

-- the loop over strcache: the places in front of the first block with more bytes free than that, its own, and those
-- behind it
unfoldable pub find_cache : List Block → ℕ → List ℕ → Option (List ℕ × ℕ × List ℕ)
find_cache heap sz [] = none
find_cache heap sz (place ∷ list) =
    let further = find_cache heap sz list in
    if has_room sz (get_elem? heap place) then some ([], place, list) else behind place further

-- `total_strings > 20 && sp->bytesfree < (total_size / total_strings) + 1`
unfoldable pub is_full : StringCache → Block → Bool
is_full s sp = ltb 20 s.total_strings && ltb sp.bytesfree (s.total_size / s.total_strings + 1)

-- a string copied into the block at a place that stands in strcache with these in front of it and behind it
unfoldable pub add_to :
    StringCache → List ℕ → ℕ → List ℕ → Block → Bytes → ℕ → Option (Pointer × StringCache)
unfolding copy_string is_full
add_to s before place after sp str len = elim (copy_string sp str len) [
  | none ↦ none
  | some (offset, copied) ↦ some (
    in_block place offset,
    record s {
      heap = set s.heap place copied;
      strcache = if is_full s copied then before ++ after else before ++ (place ∷ after);
      fullcache = if is_full s copied then place ∷ s.fullcache else s.fullcache;
    },
  )
]

-- the places of the heap from which on the next block is allocated
abbrev pub next_place : StringCache → ℕ
next_place s = length s.heap

-- the string added to the numbers that add_string keeps
unfoldable pub counted : StringCache → ℕ → StringCache
counted s sz = record s {
  total_strings = (s.total_strings + 1) % 2 ^ 64;
  total_size = (s.total_size + sz) % 2 ^ 64;
}

-- `fresh` is what memory of a size holds when it is allocated
module _ (fresh : ℕ → Bytes) where
  abbrev pub new_block : ℕ → Block
  new_block buflen = record { end = 0; bytesfree = buflen; count = 0; buffer = fresh buflen }

  -- new_cache, less the list
  unfoldable pub new_cache : StringCache → ℕ → StringCache
  new_cache s buflen = record s {
    heap = s.heap ++ (new_block buflen ∷ []);
    total_buffers = (s.total_buffers + 1) % 2 ^ 64;
  }

  -- a string that is larger than a buffer, into a block of its own
  unfoldable pub add_full : StringCache → ℕ → Bytes → ℕ → Option (Pointer × StringCache)
  unfolding new_cache copy_string
  add_full s sz str len = elim (copy_string (new_block sz) str len) [
    | none ↦ none
    | some (offset, copied) ↦
        let larger = new_cache s sz in
        some (
          in_block (next_place s) offset,
          record larger {
            heap = set larger.heap (next_place s) copied;
            fullcache = next_place s ∷ s.fullcache;
          },
        )
  ]

  -- behind the counting: into a block of its own, into a new one, or into one that has room
  unfoldable pub add_sized : StringCache → ℕ → Bytes → ℕ → Option (Pointer × StringCache)
  unfolding add_full find_cache new_cache add_to
  add_sized s sz str len =
      if ltb bufsize sz then add_full s sz str len else (elim (find_cache s.heap sz s.strcache) [
        | none ↦
            add_to (new_cache s bufsize) [] (next_place s) s.strcache (new_block bufsize) str len
        | some (before, place, after) ↦
            add_to s before place after (get_or s.heap place (new_block 0)) str len
      ])

  unfoldable pub add_string : StringCache → Bytes → ℕ → Option (Pointer × StringCache)
  unfolding counted add_sized
  add_string s str len = let sz = (len + 1) % 2 ^ 16 in add_sized (counted s sz) sz str len

  -- the struct that is allocated is kept in front of the others: its place is counted from the last one
  unfoldable pub add_hugestring : StringCache → Bytes → Pointer × StringCache
  add_hugestring s str =
      (huge (length s.hugestrings), record s { hugestrings = s.hugestrings ++ (str ∷ []) })

  -- behind the search of the slot
  unfoldable pub add_at :
      StringCache → Bytes → ℕ → ℕ → Option Cached → Option (Pointer × StringCache)
  unfolding add_string hash_insert_at
  add_at s str len slot (some key) = some (key.pointer, s)
  add_at s str len slot none = elim (add_string s str len) [
    | none ↦ none
    | some (pointer, after) ↦
        elim (hash_insert_at stringing after.strings (record { pointer = pointer; text = str })
          slot) [
            | none ↦ none
            | some (at, table) ↦ some (pointer, record after { strings = table })
          ]
  ]

  -- `none` for a write past the end of a buffer, and for a call that does not return
  unfoldable pub add_hash : StringCache → Bytes → ℕ → Option (Pointer × StringCache)
  unfolding add_hugestring hash_find_slot occupant add_at
  add_hash s str len =
      if ltb (65535 - 1) len
      then some (add_hugestring s str)
      else (elim (hash_find_slot stringing s.strings (any_key str)) [
        | none ↦ none
        | some slot ↦
            add_at (record s { total_adds = (s.total_adds + 1) % 2 ^ 64 }) str len slot
              (occupant (get_or s.strings.vec slot empty))
      ])

  unfoldable pub strcache_add : StringCache → Bytes → Option (Pointer × StringCache)
  unfolding add_hash
  strcache_add s str = add_hash s str (length str)

  -- Of a text of `len` bytes that need not end there, the copy that ends.
  unfoldable pub strcache_add_len : StringCache → Bytes → ℕ → Option (Pointer × StringCache)
  unfolding add_hash
  strcache_add_len s str len = add_hash s (take len str) len

-- `str < sp->buffer + sp->end`
abbrev pub covers : ℕ → Option Block → Bool
covers offset none = false
covers offset (some sp) = ltb offset sp.end

-- some block of a list holds the byte
unfoldable pub in_blocks : List Block → ℕ → ℕ → List ℕ → Bool
in_blocks heap place offset [] = false
in_blocks heap place offset (sp ∷ list) =
    let further = in_blocks heap place offset list in
    sp == place && (covers offset (get_elem? heap sp)) || further

unfoldable pub strcache_iscached : StringCache → Pointer → Bool
unfolding in_blocks
strcache_iscached s (in_block place offset) =
    in_blocks s.heap place offset s.strcache || in_blocks s.heap place offset s.fullcache
strcache_iscached s (huge k) = ltb k (length s.hugestrings)

-- no strings yet
unfoldable pub empty_cache : HashTable Cached → StringCache
empty_cache table = record {
  heap = [];
  strcache = [];
  fullcache = [];
  hugestrings = [];
  strings = table;
  total_buffers = 0;
  total_strings = 0;
  total_size = 0;
  total_adds = 0;
}

unfoldable pub strcache_init : StringCache
unfolding hash_init empty_cache
strcache_init = empty_cache (hash_init 8000)
