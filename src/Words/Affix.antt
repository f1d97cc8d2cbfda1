-- ===== src/Words/Affix.antt =====
-- addprefix, addsuffix and join of make-4.4/src/function.c, word by word.
use gmake.Prelude.{
  ◌≡◌, refl, ◌∙◌, ap, true, false, List, [], ◌∷◌, ◌++◌, append_assoc, map, some, Bytes, codes, All,
  All-append,
}
use gmake.Text.{tokens}
use gmake.Text.Output.{Output, start, finish, put, finish-foldl}
use gmake.Text.Tokens.{IsSolid, IsWord, join, tokens-join, tokens-IsWord}
use gmake.Words.{affix_round, func_addsuffix_addprefix, join_rounds, func_join}
use mathlib.Core.List.{foldl, filter_map-eq-map, filter_map-some}

addprefix_round :
    (fix : Bytes) (o : Output) (w : Bytes) → affix_round fix true o w ≡ put o (some (fix ++ w))
unfolding affix_round
addprefix_round fix o w = simp append_assoc

addsuffix_round :
    (fix : Bytes) (o : Output) (w : Bytes) → affix_round fix false o w ≡ put o (some (w ++ fix))
unfolding affix_round
addsuffix_round fix o w = simp append_assoc

addprefix_out :
    (o fix list : Bytes)
    → func_addsuffix_addprefix o fix list (codes "addprefix")
      ≡ o ++ join (map (λ w. fix ++ w) (tokens list))
unfolding func_addsuffix_addprefix
addprefix_out o fix list =
    finish-foldl (λ w. some (fix ++ w)) _ (addprefix_round fix) (tokens list) o
    ∙ ap (λ ws. o ++ join ws) (filter_map-eq-map (λ w. fix ++ w) (tokens list))

addsuffix_out :
    (o fix list : Bytes)
    → func_addsuffix_addprefix o fix list (codes "addsuffix")
      ≡ o ++ join (map (λ w. w ++ fix) (tokens list))
unfolding func_addsuffix_addprefix
addsuffix_out o fix list =
    finish-foldl (λ w. some (w ++ fix)) _ (addsuffix_round fix) (tokens list) o
    ∙ ap (λ ws. o ++ join ws) (filter_map-eq-map (λ w. w ++ fix) (tokens list))

map-IsWord :
    (f : Bytes → Bytes)
    → ((w : Bytes) → IsWord w → IsWord (f w))
    → (ws : List Bytes) → All IsWord ws
    → All IsWord (map f ws)
map-IsWord f keep [] h = tt
map-IsWord f keep (w ∷ ws) (h, hs) = (keep w h, map-IsWord f keep ws hs)

append-IsWord_left : (fix w : Bytes) → IsSolid fix → IsWord w → IsWord (fix ++ w)
append-IsWord_left [] w hf h = h
append-IsWord_left (c ∷ fix) w hf h = record {
  filled = λ e. cc;
  solid = All-append _ (c ∷ fix) w hf h.solid;
}

append-IsWord_right : (fix w : Bytes) → IsSolid fix → IsWord w → IsWord (w ++ fix)
append-IsWord_right fix [] hf h = absurd (h.filled refl)
append-IsWord_right fix (c ∷ w) hf h = record {
  filled = λ e. cc;
  solid = All-append _ (c ∷ w) fix h.solid hf;
}

-- `addprefix` appends to the buffer each word of the list behind the prefix, `addsuffix` each word
-- in front of the suffix, with one blank between neighbours; read back, the words are these, if the
-- prefix or suffix holds no whitespace.
pub affix_words :
    (o fix list : Bytes)
    → IsSolid fix
    → (func_addsuffix_addprefix o fix list (codes "addprefix")
        ≡ o ++ join (map (λ w. fix ++ w) (tokens list)))
      × (tokens (func_addsuffix_addprefix [] fix list (codes "addprefix"))
          ≡ map (λ w. fix ++ w) (tokens list))
      × (func_addsuffix_addprefix o fix list (codes "addsuffix")
          ≡ o ++ join (map (λ w. w ++ fix) (tokens list)))
      × (tokens (func_addsuffix_addprefix [] fix list (codes "addsuffix"))
          ≡ map (λ w. w ++ fix) (tokens list))
affix_words o fix list h = (
  addprefix_out o fix list,
  ap tokens (addprefix_out [] fix list)
      ∙ tokens-join _ (map-IsWord _ (λ w. append-IsWord_left fix w h) _ (tokens-IsWord list)),
  addsuffix_out o fix list,
  ap tokens (addsuffix_out [] fix list)
      ∙ tokens-join _ (map-IsWord _ (λ w. append-IsWord_right fix w h) _ (tokens-IsWord list)),
)

-- The n-th word of one list in front of the n-th of the other; the rest of the longer list.
abbrev pub paired : List Bytes → List Bytes → List Bytes
paired [] ps = ps
paired (t ∷ ts) [] = t ∷ ts
paired (t ∷ ts) (p ∷ ps) = (t ++ p) ∷ paired ts ps

put_each : Output → List Bytes → Output
put_each o ws = foldl (λ r w. put r (some w)) o ws

join_rounds-paired :
    (ts ps : List Bytes) (o : Output) → join_rounds ts ps o ≡ put_each o (paired ts ps)
unfolding join_rounds put_each
join_rounds-paired [] [] o = refl
join_rounds-paired (t ∷ ts) [] o = join_rounds-rest ts _
  where
    join_rounds-rest : (ts : List Bytes) (o : Output) → join_rounds ts [] o ≡ put_each o ts
    join_rounds-rest [] o = refl
    join_rounds-rest (t ∷ ts) o = join_rounds-rest ts _
join_rounds-paired [] (p ∷ ps) o = join_rounds-paired [] ps _
join_rounds-paired (t ∷ ts) (p ∷ ps) o =
    join_rounds-paired ts ps _
    ∙ ap (λ b. put_each (record { buffer = b ++ b' ' ∷ []; doneany = true }) (paired ts ps))
        (append_assoc o.buffer t p)

paired-IsWord : (ts ps : List Bytes) → All IsWord ts → All IsWord ps → All IsWord (paired ts ps)
paired-IsWord [] ps ht hp = hp
paired-IsWord (t ∷ ts) [] ht hp = ht
paired-IsWord (t ∷ ts) (p ∷ ps) (ht, hts) (hp, hps) =
    (append-IsWord_left t p ht.solid hp, paired-IsWord ts ps hts hps)

join_out :
    (o list1 list2 : Bytes)
    → func_join o list1 list2 ≡ o ++ join (paired (tokens list1) (tokens list2))
unfolding func_join put_each
join_out o list1 list2 =
    let ws = paired (tokens list1) (tokens list2) in
    ap finish (join_rounds-paired (tokens list1) (tokens list2) (start o))
    ∙ finish-foldl some _ (λ r w. refl) ws o
    ∙ ap (λ v. o ++ join v) (filter_map-some ws)

-- `join` appends the words of the two lists in pairs, and then the rest of the longer list, with one
-- blank between neighbours; read back, the words are these.
pub join_words :
    (o list1 list2 : Bytes)
    → (func_join o list1 list2 ≡ o ++ join (paired (tokens list1) (tokens list2)))
      × (tokens (func_join [] list1 list2) ≡ paired (tokens list1) (tokens list2))
join_words o list1 list2 = (
  join_out o list1 list2,
  ap tokens (join_out [] list1 list2)
      ∙ tokens-join _ (paired-IsWord _ _ (tokens-IsWord list1) (tokens-IsWord list2)),
)
