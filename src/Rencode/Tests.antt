-- ===== src/Rencode/Tests.antt =====
-- rencodeplus/: runs of the encoder and the decoder, and the theorems at concrete inputs.
use go_xpra.Prelude.{◌≤◌, ◌≢◌, arith, ◌≡◌, refl, [], ◌∷◌, ◌++◌, true, some}
use go_xpra.Prelude.Int.{pos, negsuc, to_word, of_word}
use go_xpra.Prelude.Bytes.{Bytes, codes, bytes_lt, be_bytes, be_value, bytes_eq}
use go_xpra.Prelude.Result.{ok, err}
use go_xpra.Rencode.Value.{Value, no_values, item, no_entries, entry, set}
use go_xpra.Rencode.Encode.{
  encode_value, encode, encode_string, encode_int, encode_list, encode_dict, encode_counted,
  write_all, write_entry, sort_keys,
}
use go_xpra.Rencode.Decode.{
  decode, value, no_rest, ahead, store, key_name, as_list, as_map, with_item, tagged, fixed_text,
  fixed_int, next, big_int, scan, big_payload, out_of_fuel,
}
use go_xpra.Rencode.Decimal.{set_string}
use go_xpra.Rencode.Received.{IsEncodable, height, received}
use go_xpra.Rencode.Decoded.{IsDecoded}
use go_xpra.Rencode.RoundTrip.{decode-encode_value}
use go_xpra.Rencode.Decode.Sound.{decode-ne-out_of_fuel, decode-IsDecoded}

abbrev sample : Value
sample = Value.list (
    item (Value.text (codes "hello")) (
      item (Value.int (negsuc 299)) (
        item
          (Value.map_text
            (entry (codes "b") (Value.bool true) (entry (codes "a") Value.nil no_entries)))
          no_values)))

abbrev sample_bytes : Bytes
sample_bytes =
    195 ∷ 133 ∷ codes "hello" ++ (63 ∷ 254 ∷ 212 ∷ 104 ∷ 129 ∷ 97 ∷ 69 ∷ 129 ∷ 98 ∷ 67 ∷ [])

encode_sample : encode_value sample ≡ ok sample_bytes
unfolding encode_value encode encode_string encode_int encode_list encode_dict encode_counted
    write_all write_entry sort_keys bytes_lt to_word be_bytes
encode_sample = refl

abbrev sample_decoded : Value
sample_decoded = Value.list (
    item (Value.text (codes "hello")) (
      item (Value.int (negsuc 299)) (
        item
          (Value.map_text
            (entry (codes "a") Value.nil (entry (codes "b") (Value.bool true) no_entries)))
          no_values)))

decode_sample : decode sample_bytes ≡ ok sample_decoded
unfolding decode value no_rest ahead store key_name set as_list as_map with_item tagged fixed_text
    fixed_int next of_word be_value big_int scan big_payload set_string bytes_eq
decode_sample = refl

decode_big :
    decode (61 ∷ codes "123456789012345678901234" ++ (127 ∷ []))
    ≡ ok (Value.big_ptr (some (pos 123456789012345678901234)))
unfolding decode value no_rest ahead store key_name set as_list as_map with_item tagged fixed_text
    fixed_int next of_word be_value big_int scan big_payload set_string bytes_eq
decode_big = refl

sample-IsEncodable : IsEncodable sample
unfolding IsEncodable
sample-IsEncodable = (omega arith, (omega arith, ((omega arith, tt, (omega arith, tt, tt)), tt)))

sample_shallow : height sample ≡ 2
unfolding height
sample_shallow = refl

decode-encode_value_example :
    (bs : Bytes) × (encode_value sample ≡ ok bs) × (decode bs ≡ ok (received sample))
decode-encode_value_example =
    decode-encode_value sample sample-IsEncodable (omega (arith, sample_shallow))

decode-ne-out_of_fuel_example : decode sample_bytes ≢ err out_of_fuel
decode-ne-out_of_fuel_example = decode-ne-out_of_fuel sample_bytes

decode-IsDecoded_example : IsDecoded sample_decoded × (height sample_decoded ≤ 64)
decode-IsDecoded_example = decode-IsDecoded sample_bytes sample_decoded decode_sample
