-- ===== src/Strcache/Kept.antt =====
-- The invariants of make-4.4/src/strcache.c.
use gmake.Hash.{hash_find_item}
use gmake.Hash.Valid.{IsValid}
use gmake.Prelude.{
  ℕ, ◌+◌, ◌%◌, ◌^◌, ◌≤◌, ◌<◌, ◌≡◌, List, some, Bytes, ltb, ◌==◌, length, get_elem?, count, one,
}
use gmake.Strcache.{
  Block, Pointer, in_block, huge, Cached, StringCache, stringing, any_key, string_in,
}

-- The numbers of a block fit its buffer and an unsigned short: each string takes up a byte at least.
pub record IsLaid (sp : Block) : Type 0 where
  pub parts : sp.end + sp.bytesfree ≡ length sp.buffer
  pub short : length sp.buffer ≤ 65535
  pub counted : sp.count ≤ sp.end

-- A text stands at a pointer, in the part of the buffer that is in use.
unfoldable pub Stands : List Block → Pointer → Bytes → Type 0
Stands heap (in_block place offset) text =
    (sp : Block) × (get_elem? heap place ≡ some sp)
    × (string_in sp.buffer offset ≡ some text)
    × (offset + length text < sp.end)
Stands heap (huge k) text = ⊥

-- Each block stands in just one of the lists, once.
pub record IsStored (s : StringCache) : Type 0 where
  pub laid : (place : ℕ) (sp : Block) → get_elem? s.heap place ≡ some sp → IsLaid sp
  pub listed :
      (b : ℕ)
      → count (λ p. p == b) s.strcache + count (λ p. p == b) s.fullcache
        ≡ one (ltb b (length s.heap))
  pub lost : length s.strcache + length s.fullcache ≡ length s.heap
  pub numbered : s.total_buffers ≡ length s.heap % 2 ^ 64

pub record IsKept (s : StringCache) : Type 0 where
  pub stored : IsStored s
  pub valid : IsValid stringing s.strings
  pub standing :
      (text : Bytes) (c : Cached)
      → hash_find_item stringing s.strings (any_key text) ≡ some (some c)
      → (c.text ≡ text) × Stands s.heap c.pointer text
