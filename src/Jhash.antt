-- ===== src/Jhash.antt =====
-- jhash and jhash_string of make-4.4/src/hash.c: the hash functions of names with a length and of strings, on a
-- machine that keeps the low byte of a number first. An unsigned int has 32 bits.
use Prim.Native.Nat.{bit_and, bit_or, bit_xor}
use gmake.Prelude.{
  Bool, true, false, ℕ, zero, suc, ◌+◌, ◌-◌, ◌*◌, ◌/◌, ◌%◌, ◌^◌, Bytes, ltb, leb, ◌==◌,
  if◌then◌else◌, length, get_or, drop,
}

-- `a += b` and `a -= b`
abbrev pub add_32 : ℕ → ℕ → ℕ
add_32 a b = (a + b) % 2 ^ 32

abbrev pub sub_32 : ℕ → ℕ → ℕ
sub_32 a b = (a + 2 ^ 32 - b) % 2 ^ 32

unfoldable pub rol_32 : ℕ → ℕ → ℕ
rol_32 v n = bit_or (v * 2 ^ n % 2 ^ 32) (v / 2 ^ (32 - n))

-- one line of jhash_mix: `a -= c; a ^= rol32 (c, n); c += b`, with the new `a` and the new `c`
unfoldable pub mix_line : ℕ → ℕ → ℕ → ℕ → ℕ × ℕ
unfolding rol_32
mix_line n a b c = (bit_xor (sub_32 a c) (rol_32 c n), add_32 c b)

unfoldable pub jhash_mix : ℕ × ℕ × ℕ → ℕ × ℕ × ℕ
unfolding mix_line
jhash_mix (a, b, c) =
    let (a1, c1) = mix_line 4 a b c in
    let (b1, a2) = mix_line 6 b c1 a1 in
    let (c2, b2) = mix_line 8 c1 a2 b1 in
    let (a3, c3) = mix_line 16 a2 b2 c2 in
    let (b3, a4) = mix_line 19 b2 c3 a3 in let (c4, b4) = mix_line 4 c3 a4 b3 in (a4, b4, c4)

-- one line of jhash_final: `c ^= b; c -= rol32 (b, n)`
unfoldable pub final_line : ℕ → ℕ → ℕ → ℕ
unfolding rol_32
final_line n c b = sub_32 (bit_xor c b) (rol_32 b n)

unfoldable pub jhash_final : ℕ → ℕ → ℕ → ℕ
unfolding final_line
jhash_final a b c =
    let c1 = final_line 14 c b in
    let a1 = final_line 11 a c1 in
    let b1 = final_line 25 b a1 in
    let c2 = final_line 16 c1 b1 in
    let a2 = final_line 4 a1 c2 in let b2 = final_line 14 b1 a2 in final_line 24 c2 b2

unfoldable pub sum_get_unaligned_32 : ℕ → Bytes → ℕ
sum_get_unaligned_32 r k =
    add_32 r (get_or k 0 0 + get_or k 1 0 * 2 ^ 8 + get_or k 2 0 * 2 ^ 16 + get_or k 3 0 * 2 ^ 24)

-- the last four bytes at most
unfoldable pub add_rest : Bytes → ℕ → ℕ
add_rest k c =
    let top = if length k == 4 then add_32 c (get_or k 3 0 * 2 ^ 24) else c in
    let high = if leb 3 (length k) then add_32 top (get_or k 2 0 * 2 ^ 16) else top in
    let low = if leb 2 (length k) then add_32 high (get_or k 1 0 * 2 ^ 8) else high in
    add_32 low (get_or k 0 0)

-- behind the loop
unfoldable pub jhash_end : Bytes → ℕ × ℕ × ℕ → ℕ
unfolding sum_get_unaligned_32 add_rest jhash_final
jhash_end k (a, b, c) =
    if length k == 0
    then c
    else let a1 = if ltb 8 (length k) then sum_get_unaligned_32 a k else a in
      let k1 = if ltb 8 (length k) then drop 4 k else k in
      let b1 = if ltb 4 (length k1) then sum_get_unaligned_32 b k1 else b in
      let k2 = if ltb 4 (length k1) then drop 4 k1 else k1 in jhash_final a1 b1 (add_rest k2 c)

-- the loop over blocks of twelve bytes, on fuel
unfoldable pub jhash_loop : ℕ → Bytes → ℕ × ℕ × ℕ → ℕ
unfolding sum_get_unaligned_32 jhash_mix jhash_end
jhash_loop zero k s = jhash_end k s
jhash_loop (suc fuel) k (a, b, c) =
    let mixed = jhash_mix (
      sum_get_unaligned_32 a k,
      sum_get_unaligned_32 b (drop 4 k),
      sum_get_unaligned_32 c (drop 8 k),
    ) in
    let rest = jhash_loop fuel (drop 12 k) mixed in
    if ltb 12 (length k) then rest else jhash_end k (a, b, c)

-- JHASH_INITVAL
abbrev pub initval : ℕ
initval = 3735928559

-- of the bytes of a key, which are as many as the length that is given
unfoldable pub jhash : Bytes → ℕ
unfolding jhash_loop
jhash k = let s = (initval + length k) % 2 ^ 32 in jhash_loop (length k) k (s, s, s)

-- `val` of sum_up_to_nul: up to four bytes of the string
unfoldable pub load_32 : Bytes → ℕ
load_32 k = get_or k 0 0 + get_or k 1 0 * 2 ^ 8 + get_or k 2 0 * 2 ^ 16 + get_or k 3 0 * 2 ^ 24

-- `((val - 0x01010101) & ~val) & 0x80808080`
unfoldable pub nul_flag : ℕ → ℕ
nul_flag val = bit_and (bit_and (sub_32 val 16843009) (4294967295 - val)) 2155905152

-- `r`, and whether a NUL was there
unfoldable pub sum_up_to_nul : ℕ → Bytes → ℕ × Bool
unfolding load_32 nul_flag
sum_up_to_nul r k =
    let val = load_32 k in
    if nul_flag val == 0
    then (add_32 r val, false)
    else if bit_and val 255 == 0
    then (r, true)
    else if bit_and val 65280 == 0
    then (add_32 r (bit_and val 255), true)
    else if bit_and val 16711680 == 0
    then (add_32 r (bit_and val 65535), true)
    else (add_32 r val, true)

-- the loop, on fuel, from `walked` bytes behind the start: each round takes twelve bytes
unfoldable pub jhash_string_loop : ℕ → Bytes → ℕ → ℕ × ℕ × ℕ → ℕ
unfolding sum_up_to_nul jhash_mix jhash_final
jhash_string_loop zero k walked (a, b, c) = add_32 (jhash_final a b c) walked
jhash_string_loop (suc fuel) k walked (a, b, c) =
    let (a1, stop_a) = sum_up_to_nul a k in
    let (b1, stop_b) = sum_up_to_nul b (drop 4 k) in
    let (c1, stop_c) = sum_up_to_nul c (drop 8 k) in
    let rest = jhash_string_loop fuel (drop 12 k) (walked + 12) (jhash_mix (a1, b1, c1)) in
    if stop_a
    then add_32 (jhash_final a1 b c) walked
    else if stop_b
    then add_32 (jhash_final a1 b1 c) (walked + 4)
    else if stop_c
    then add_32 (jhash_final a1 b1 c1) (walked + 8)
    else rest

unfoldable pub jhash_string : Bytes → ℕ
unfolding jhash_string_loop
jhash_string k = jhash_string_loop (suc (length k)) k 0 (initval, initval, initval)
