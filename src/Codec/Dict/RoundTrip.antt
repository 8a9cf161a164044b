-- ===== src/Codec/Dict/RoundTrip.antt =====
-- Decoding the values that were indexed.
use mathlib.Core.List.{append-nil, append_assoc}
use mathlib.Core.Option.{some-injective}
use native.Mathlib.Nat.{mod-eq_of_lt}
use vec_fetch.Prelude.{
  ℕ, zero, suc, ◌+◌, ◌^◌, ◌<◌, ◌≡◌, refl, sym, ap, ◌∙◌, arith, List, [], ◌∷◌, ◌++◌, some,
  Option-cases, inl, inr, lt→ltb, length, length-append, get_elem?, get_or, u32,
}
use vec_fetch.Codec.Dict.{
  Bytes, DictCodecResult, find_index, push_index, build_from, build_dict, decode_dict,
}
use vec_fetch.Codec.Dict.Index.{
  IsIndex, IsIndex-nil, IsIndex-snoc, IsDistinct, IsIndex-IsDistinct, get_elem?-last,
  get_elem?-extend,
}

-- The result extends the dictionary so far, and decodes to the values.
record IsBuilt (d values : List Bytes) (result : DictCodecResult) : Type 0 where
  added : List Bytes
  extends : result.dict ≡ d ++ added
  decodes : decode_dict result.indices result.dict ≡ values
  distinct : IsDistinct result.dict

get_or-found :
    (d : List Bytes) (i : ℕ) (v : Bytes)
    → get_elem? d i ≡ some v
    → (i < length d) × (get_or d i [] ≡ v)
get_or-found [] i v h = cc
get_or-found (x ∷ d) zero v h = (omega arith, some-injective x v h)
get_or-found (x ∷ d) (suc i) v h = let (inside, at) = get_or-found d i v h in (omega arith, at)

IsBuilt-push :
    (d d' values : List Bytes) (v : Bytes) (i : ℕ) (result : DictCodecResult) (more : List Bytes)
    → d' ≡ d ++ more
    → get_elem? d' i ≡ some v
    → IsBuilt d' values result
    → IsBuilt d (v ∷ values) (push_index i result)
unfolding push_index decode_dict
IsBuilt-push d d' values v i result more e h b =
    let (inside, at) =
      get_or-found result.dict i v (rw b.extends (get_elem?-extend d' b.added i v h)) in
    record {
      added = more ++ b.added;
      extends = b.extends ∙ ap (λ (l : List Bytes). l ++ b.added) e ∙ append_assoc d more b.added;
      decodes = rw (lt→ltb i (length result.dict) inside, at, b.decodes);
      distinct = b.distinct;
    }

IsIndex-found :
    (m : List (Bytes × ℕ)) (d : List Bytes) (v : Bytes) (i : ℕ)
    → IsIndex m d
    → find_index m v ≡ some i
    → get_elem? d i ≡ some v
unfolding IsIndex
IsIndex-found m d v i h = (h v i).0

build_from_lem :
    (m : List (Bytes × ℕ)) (d values : List Bytes)
    → IsIndex m d
    → length d + length values < 2 ^ 32
    → IsBuilt d values (build_from m d values)
unfolding build_from decode_dict
build_from_lem m d [] h hl = record {
  added = [];
  extends = sym (append-nil d);
  decodes = refl;
  distinct = IsIndex-IsDistinct m d h;
}
build_from_lem m d (v ∷ values) h hl = elim (Option-cases (find_index m v)) [
  | inl absent ↦
      let idx : u32 (length d) ≡ length d = mod-eq_of_lt {n = length d} (omega arith) in
      let next = IsIndex-snoc m d v h absent in
      let rest =
        build_from_lem ((v, length d) ∷ m) (d ++ v ∷ []) values next
          (omega (arith, length-append d (v ∷ []))) in
      rw (build_from, absent, idx)
        (IsBuilt-push d (d ++ v ∷ []) values v (length d) _ (v ∷ []) refl (get_elem?-last d v) rest)
  | inr (i, found) ↦
      let at : get_elem? d i ≡ some v = IsIndex-found m d v i h found in
      rw (build_from, found)
        (IsBuilt-push d d values v i _ [] (sym (append-nil d)) at
          (build_from_lem m d values h (omega arith)))
]

-- Decoding the indices of fewer than 2^32 values with their dictionary gives the values back, and no
-- string stands at two places of the dictionary.
pub decode-build_dict :
    (values : List Bytes)
    → length values < 2 ^ 32
    → (decode_dict (build_dict values).indices (build_dict values).dict ≡ values)
      × IsDistinct (build_dict values).dict
unfolding build_dict
decode-build_dict values h =
    let b = build_from_lem [] [] values IsIndex-nil (omega arith) in (b.decodes, b.distinct)
