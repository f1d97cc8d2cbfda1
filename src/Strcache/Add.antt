-- ===== src/Strcache/Add.antt =====
-- add_string of make-4.4/src/strcache.c on each of its ways: a block that has room, a new one, and one of its own.
use gmake.Prelude.{
  ℕ, suc, ◌+◌, ◌%◌, ◌^◌, ◌≤◌, ◌<◌, ◌≡◌, refl, ◌∙◌, ap, sym, inl, inr, List, [], ◌∷◌, ◌++◌, some,
  Bytes, ltb, arith, length, length-append, get_elem?, get_elem?-get_or, get_or, count, one,
  Bool-cases, Option-cases,
}
use gmake.Hash.Rounds.{some_inj}
use gmake.Strcache.{
  Block, Pointer, in_block, StringCache, bufsize, find_cache, add_to, next_place, counted,
  new_block, new_cache, add_full, add_sized, add_string,
}
use gmake.Strcache.Blocks.{
  copy_string-Copied, get_elem?-low, get_elem?-last, last_or_before, Stands-extend, Stands-copied,
  copied-Stands,
}
use gmake.Strcache.Kept.{IsLaid, IsStored}
use gmake.Strcache.Memory.{NoNul}
use gmake.Strcache.Room.{
  Added, Counts-extend, Copied-Counts, Copied-IsStored, add_to-Added, find_cache-room,
}

-- `fresh` gives memory of the size that is asked for
module _ (fresh : ℕ → Bytes) (sized : (n : ℕ) → length (fresh n) ≡ n) where
  new_block-IsLaid : (n : ℕ) → n ≤ 65535 → IsLaid (new_block fresh n)
  new_block-IsLaid n b =
      let size = sized n in
      record { parts = omega arith; short = omega arith; counted = omega arith }

  extended-IsLaid :
      (s : StringCache) (n : ℕ)
      → n ≤ 65535
      → IsStored s
      → (place : ℕ) (sp : Block) → get_elem? (s.heap ++ (new_block fresh n ∷ [])) place ≡ some sp
      → IsLaid sp
  extended-IsLaid s n b stored place sp at =
      elim (last_or_before s.heap (new_block fresh n) place sp at) [
        | inl e ↦ stored.laid place sp e
        | inr e ↦ rw e (new_block-IsLaid n b)
      ]

  -- a block that is allocated stands in front of strcache, or of fullcache
  new_in_front :
      (s : StringCache) (n : ℕ)
      → n ≤ 65535
      → IsStored s
      → IsStored (record (new_cache fresh s n) { strcache = next_place s ∷ s.strcache })
  unfolding new_cache count one
  new_in_front s n b stored =
      let size = length-append s.heap (new_block fresh n ∷ []) in
      record {
        laid = extended-IsLaid s n b stored;
        listed = λ b. (let once = stored.listed b in ground arith);
        lost = omega (arith, stored.lost);
        numbered = omega (arith, stored.numbered);
      }

  new_full :
      (s : StringCache) (n : ℕ)
      → n ≤ 65535
      → IsStored s
      → IsStored (record (new_cache fresh s n) { fullcache = next_place s ∷ s.fullcache })
  unfolding new_cache count one
  new_full s n b stored =
      let size = length-append s.heap (new_block fresh n ∷ []) in
      record {
        laid = extended-IsLaid s n b stored;
        listed = λ b. (let once = stored.listed b in ground arith);
        lost = omega (arith, stored.lost);
        numbered = omega (arith, stored.numbered);
      }

  add_full-Added :
      (s : StringCache) (str : Bytes)
      → IsStored s
      → NoNul str
      → length str < 65535
      → (p : Pointer) × (next : StringCache) × (add_full fresh s (suc (length str)) str (length str)
          ≡ some (p, next))
        × Added s str p next
  unfolding add_full new_cache
  add_full-Added s str stored plain short =
      let sz = suc (length str) in
      let new = new_block fresh sz in
      let (copied, run, made) =
        copy_string-Copied new str (new_block-IsLaid sz (omega arith)) plain (omega arith) in
      let larger = record (new_cache fresh s sz) { fullcache = next_place s ∷ s.fullcache } in
      let at = get_elem?-last s.heap new in
      (
        in_block (next_place s) 0,
        _,
        rw (run, add_full) refl,
        record {
          stored =
              Copied-IsStored larger (next_place s) new copied str
                (new_full s sz (omega arith) stored) at made;
          there = copied-Stands larger.heap (next_place s) new copied str at made;
          stays = λ q text stands.
              Stands-copied larger.heap (next_place s) new copied str at made q text
                (Stands-extend s.heap (new ∷ []) q text stands);
          table = refl;
          counts =
              Counts-extend s.heap _ new str (in_block (next_place s) 0) refl refl
                (Copied-Counts larger.heap (next_place s) new copied str at made);
        },
      )

  add_new-Added :
      (s : StringCache) (str : Bytes)
      → IsStored s
      → NoNul str
      → length str < bufsize
      → (p : Pointer) × (next : StringCache) × (add_to
            (new_cache fresh s bufsize)
            []
            (next_place s)
            s.strcache
            (new_block fresh bufsize)
            str
            (length str)
          ≡ some (p, next))
        × Added s str p next
  unfolding new_cache
  add_new-Added s str stored plain short =
      let new = new_block fresh bufsize in
      let at = get_elem?-last s.heap new in
      let (p, next, run, added) =
        add_to-Added (new_cache fresh s bufsize) [] s.strcache (next_place s) new str
          (new_in_front s bufsize (omega arith) stored) at plain short in
      (
        p,
        next,
        run,
        record {
          stored = added.stored;
          there = added.there;
          stays =
              λ q text stands. added.stays q text (Stands-extend s.heap (new ∷ []) q text stands);
          table = added.table;
          counts = Counts-extend s.heap next.heap new str p refl refl added.counts;
        },
      )

  counted-IsStored : (s : StringCache) (sz : ℕ) → IsStored s → IsStored (counted s sz)
  unfolding counted
  counted-IsStored s sz stored = record {
    laid = stored.laid;
    listed = stored.listed;
    lost = stored.lost;
    numbered = stored.numbered;
  }

  counted-Added :
      (s : StringCache) (sz : ℕ) (str : Bytes) (p : Pointer) (after : StringCache)
      → Added (counted s sz) str p after
      → Added s str p after
  unfolding counted
  counted-Added s sz str p after added = record {
    stored = added.stored;
    there = added.there;
    stays = added.stays;
    table = added.table;
    counts = added.counts;
  }

  add_room-Added :
      (s : StringCache) (str : Bytes) (before after : List ℕ) (place : ℕ)
      → IsStored s
      → NoNul str
      → find_cache s.heap (suc (length str)) s.strcache ≡ some (before, place, after)
      → (p : Pointer) × (next : StringCache) × (add_to s before place after
            (get_or s.heap place (new_block fresh 0))
            str
            (length str)
          ≡ some (p, next))
        × Added s str p next
  add_room-Added s str before after place stored plain run =
      let (split, sp, at, room) =
        find_cache-room s.heap (suc (length str)) s.strcache before after place run in
      let same : get_or s.heap place (new_block fresh 0) ≡ sp = some_inj (
        sym (get_elem?-get_or s.heap place (new_block fresh 0) (get_elem?-low s.heap place sp at))
        ∙ at) in
      rw same
        (add_to-Added s before after place sp str (rw (← split) stored) at plain (omega arith))

  add_sized-Added :
      (s : StringCache) (str : Bytes)
      → IsStored s
      → NoNul str
      → length str < 65535
      → (p : Pointer) × (next : StringCache) × (add_sized fresh s
            (suc (length str))
            str
            (length str)
          ≡ some (p, next))
        × Added s str p next
  unfolding add_sized
  add_sized-Added s str stored plain short =
      let sz = suc (length str) in
      elim (Bool-cases (ltb bufsize sz)) [
        | inl big ↦ rw (big, add_sized) (add_full-Added s str stored plain short)
        | inr big ↦ elim (Option-cases (find_cache s.heap sz s.strcache)) [
          | inl e ↦ rw (big, e, add_sized) (add_new-Added s str stored plain (ground arith))
          | inr ((before, place, after), e) ↦
              rw (big, e, add_sized) (add_room-Added s str before after place stored plain e)
        ]
      ]

  -- add_string of a text that has no NUL and less than 65535 bytes, into blocks whose numbers fit their buffers:
  -- the call returns, so no copy goes past the end of a buffer; the text stands at the pointer that it returns, and
  -- what stood in the blocks stands there still. The numbers of each block fit its buffer and an unsigned short
  -- as before, and none of them wraps: the block of the pointer, one that was there or a new one with nothing in
  -- it, has just the text and its NUL more in it and less free, and one string more. Each block stands in just one
  -- of the two lists and none is lost, and the table of strings is as it was.
  pub add_string-Added :
      (s : StringCache) (str : Bytes)
      → IsStored s
      → NoNul str
      → length str < 65535
      → (p : Pointer) × (next : StringCache) × (add_string fresh s str (length str)
          ≡ some (p, next))
        × Added s str p next
  unfolding add_string
  add_string-Added s str stored plain short =
      let sz = suc (length str) in
      let size : (length str + 1) % 2 ^ 16 ≡ sz = omega arith in
      let (p, next, run, added) =
        add_sized-Added (counted s sz) str (counted-IsStored s sz stored) plain short in
      (
        p,
        next,
        ap (λ n. add_sized fresh (counted s n) n str (length str)) size ∙ run,
        counted-Added s sz str p next added,
      )
