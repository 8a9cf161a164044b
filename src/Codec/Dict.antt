-- ===== src/Codec/Dict.antt =====
-- src/codec/dict_codec.cpp and include/vdb/codec/dict_codec.h: the dictionary codec. A std::string is
-- the list of its bytes, and the unordered map an association list.
pub mod Index
pub mod RoundTrip
use vec_fetch.Prelude.{
  ℕ, zero, suc, ◌+◌, Bool, true, false, ◌&&◌, List, [], ◌∷◌, ◌++◌, Option, none, some, ltb, ◌==◌,
  if◌then◌else◌, length, get_or, u32,
}

abbrev pub Bytes : Type 0
Bytes = List ℕ

-- `operator==` on strings.
unfoldable pub same_bytes : Bytes → Bytes → Bool
same_bytes [] [] = true
same_bytes (a ∷ xs) (b ∷ bs) = (a == b) && same_bytes xs bs
same_bytes _ _ = false

pub record DictCodecResult : Type 0 where
  pub dict : List Bytes
  pub indices : List ℕ

-- `index_map.find(val)`
unfoldable pub find_index : List (Bytes × ℕ) → Bytes → Option ℕ
find_index [] val = none
find_index ((key, idx) ∷ entries) val =
    if same_bytes key val then some idx else find_index entries val

unfoldable pub push_index : ℕ → DictCodecResult → DictCodecResult
push_index idx result = record { dict = result.dict; indices = idx ∷ result.indices }

-- The loop over the values, from what the map and the dictionary hold so far.
unfoldable pub build_from : List (Bytes × ℕ) → List Bytes → List Bytes → DictCodecResult
build_from index_map dict [] = record { dict = dict; indices = [] }
build_from index_map dict (val ∷ values) = elim (find_index index_map val) [
  | none ↦
      let new_idx = u32 (length dict) in
      push_index new_idx (build_from ((val, new_idx) ∷ index_map) (dict ++ val ∷ []) values)
  | some idx ↦ push_index idx (build_from index_map dict values)
]

-- DictCodec::BuildDict
unfoldable pub build_dict : List Bytes → DictCodecResult
build_dict values = build_from [] [] values

-- DictCodec::Decode: the empty string for an index out of range.
unfoldable pub decode_dict : List ℕ → List Bytes → List Bytes
decode_dict [] dict = []
decode_dict (idx ∷ indices) dict =
    (if ltb idx (length dict) then get_or dict idx [] else []) ∷ decode_dict indices dict
