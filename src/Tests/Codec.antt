-- ===== src/Tests/Codec.antt =====
-- Concrete runs of the codecs.
use vec_fetch.Prelude.{
  ℕ, ◌+◌, ◌*◌, ◌/◌, ◌≤◌, ◌≡◌, ◌↔◌, arith, List, [], ◌∷◌, some, ◌>>=◌, length, All, IsByte,
}
use vec_fetch.Bytes.{value}
use vec_fetch.Simd.Isa.{scalar}
use vec_fetch.Codec.Bitpack.{compute_min_bit_width, encode, decode}
use vec_fetch.Codec.Bitpack.Width.{IsLeastWidth, min_bit_width-IsLeastWidth, min_bit_width_zero}
use vec_fetch.Codec.Dict.{Bytes, build_dict, decode_dict}
use vec_fetch.Codec.Dict.Index.{IsDistinct}
use vec_fetch.Codec.Dict.RoundTrip.{decode-build_dict}
use vec_fetch.Codec.Bitpack.RoundTrip.{packed_value, encode_layout, decode-encode}

abbrev page_counts : List ℕ
page_counts = 5 ∷ 0 ∷ 30 ∷ []

min_bit_width-IsLeastWidth_example :
    IsLeastWidth page_counts (compute_min_bit_width page_counts 100)
min_bit_width-IsLeastWidth_example =
    min_bit_width-IsLeastWidth page_counts 100 (omega arith, (omega arith, (omega arith, tt)))
      (omega arith, (omega arith, (omega arith, tt)))

min_bit_width_zero_example :
    (compute_min_bit_width page_counts 20 ≡ 0) ↔ (¬ All (λ v. v ≤ 20) page_counts)
min_bit_width_zero_example =
    min_bit_width_zero page_counts 20 (omega arith, (omega arith, (omega arith, tt)))

encode_layout_example :
    (packed : List ℕ) × (encode page_counts 5 ≡ some packed)
    × All IsByte packed
    × (length packed ≡ (length page_counts * 5 + 7) / 8)
    × (value packed ≡ packed_value 5 page_counts)
encode_layout_example =
    encode_layout page_counts 5 (omega arith, (omega arith, (omega arith, tt))) (omega arith)

decode-encode_example :
    (encode page_counts 5 >>= λ packed. decode scalar packed 5 (length page_counts))
    ≡ some page_counts
decode-encode_example =
    decode-encode scalar page_counts 5 (omega arith) (omega arith, (omega arith, (omega arith, tt)))
      (omega arith)

abbrev categories : List Bytes
categories = (98 ∷ 97 ∷ []) ∷ [] ∷ (98 ∷ 97 ∷ []) ∷ (99 ∷ []) ∷ []

decode-build_dict_example :
    (decode_dict (build_dict categories).indices (build_dict categories).dict ≡ categories)
    × IsDistinct (build_dict categories).dict
decode-build_dict_example = decode-build_dict categories (omega arith)
