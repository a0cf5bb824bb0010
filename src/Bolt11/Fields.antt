-- ===== src/Bolt11/Fields.antt =====
-- Fields as words, and the reader on them.
use spark_ln_address.Prelude.{
  ℕ, zero, suc, ◌+◌, ◌-◌, ◌*◌, ◌/◌, ◌%◌, ◌≤◌, ◌≡◌, refl, sym, ap, ◌∙◌, false, ◌&&◌, length, ok,
  arith, is_some, get_or_else, get_elem?, [], ◌∷◌, ◌++◌, length-append, get_elem?-append,
  drop-append, take-length-append, some,
}
use mathlib.Core.List.{append_assoc}
use mathlib.Core.Path.{subst}
use spark_ln_address.Bolt11.{
  Words, Tags, read_field, read_fields, read_bolt11_tags, get_tag, set_tag, is_single, word, slice,
  bolt11_timestamp_words, bolt11_signature_words,
}

-- A field: its tag, its length in two words, its value.
abbrev pub encode_field : ℕ → Words → Words
encode_field tag value = tag ∷ length value / 32 ∷ length value % 32 ∷ value

abbrev pub encode_fields : Tags → Words
encode_fields [] = []
encode_fields ((tag, value) ∷ fields) = encode_field tag value ++ encode_fields fields

-- The fields, stored_fields in order.
abbrev pub stored_fields : Tags → Tags → Tags
stored_fields tags [] = tags
stored_fields tags ((tag, value) ∷ fields) = stored_fields (set_tag tag value tags) fields

-- No tag that may stand once is read twice.
abbrev pub HasNoRepeats : Tags → Tags → Type 0
HasNoRepeats tags [] = Unit {0}
HasNoRepeats tags ((tag, value) ∷ fields) =
    ((is_some (get_tag tag tags) && is_single tag) ≡ false)
    × HasNoRepeats (set_tag tag value tags) fields

module _ (pre : Words) (tag : ℕ) (value rest : Words) where
  abbrev at_field : Words
  at_field = pre ++ (encode_field tag value ++ rest)

  read_tag : word at_field (length pre) ≡ tag
  read_tag =
      ap (λ o. get_or_else o 0)
        (subst (λ k. get_elem? at_field k ≡ some tag) (omega arith)
          (get_elem?-append pre (encode_field tag value ++ rest) 0))

  read_size : word at_field (length pre + 1) * 32 + word at_field (length pre + 2) ≡ length value
  read_size =
      rw
        (
          get_elem?-append pre (encode_field tag value ++ rest) 1,
          get_elem?-append pre (encode_field tag value ++ rest) 2,
        )
        (omega arith)

  read_value : slice at_field (length pre + 3) (length pre + 3 + length value) ≡ value
  read_value =
      let size : length pre + 3 + length value - (length pre + 3) ≡ length value = omega arith in
      rw (size, drop-append pre (encode_field tag value ++ rest) 3) (take-length-append value rest)

read_field_reads :
    (words value : Words) (tag offset size end : ℕ) (tags : Tags)
    → word words offset ≡ tag
    → word words (offset + 1) * 32 + word words (offset + 2) ≡ size
    → slice words (offset + 3) (offset + 3 + size) ≡ value
    → (is_some (get_tag tag tags) && is_single tag) ≡ false
    → offset + 3 + size ≤ end
    → read_field words end offset tags ≡ ok (set_tag tag value tags, offset + 3 + size)
unfolding read_field
read_field_reads words value tag offset size end tags t z v once fits =
    rw (t, z, v, once) (ground arith)

read_field-encode_field :
    (pre value rest : Words) (tag end : ℕ) (tags : Tags)
    → (is_some (get_tag tag tags) && is_single tag) ≡ false
    → length pre + 3 + length value ≤ end
    → read_field (pre ++ (encode_field tag value ++ rest)) end (length pre) tags
      ≡ ok (set_tag tag value tags, length pre + 3 + length value)
read_field-encode_field pre value rest tag end tags once fits =
    read_field_reads (pre ++ (encode_field tag value ++ rest)) value tag (length pre) (length value)
      end tags (read_tag pre tag value rest) (read_size pre tag value rest)
      (read_value pre tag value rest) once fits

abbrev size_of : Tags → ℕ
size_of fields = length (encode_fields fields)

read_fields-encode_fields :
    (fields : Tags) (rounds end offset : ℕ) (words pre rest : Words) (tags : Tags)
    → words ≡ pre ++ (encode_fields fields ++ rest)
    → offset ≡ length pre
    → end ≡ offset + size_of fields
    → size_of fields ≤ rounds
    → HasNoRepeats tags fields
    → read_fields rounds words end offset tags ≡ ok (stored_fields tags fields)
unfolding read_fields
read_fields-encode_fields [] zero end offset words pre rest tags w o e m once = ground arith
read_fields-encode_fields [] (suc rounds) end offset words pre rest tags w o e m once = ground arith
read_fields-encode_fields ((tag, value) ∷ fields) zero end offset words pre rest tags w o e m once =
    absurd (omega arith)
read_fields-encode_fields ((tag, value) ∷ fields) (suc rounds) end offset words pre rest tags w o e
      m once =
    let after = encode_fields fields ++ rest in
    let here : words ≡ pre ++ (encode_field tag value ++ after) =
      w ∙ ap (λ l. pre ++ l) (append_assoc (encode_field tag value) (encode_fields fields) rest) in
    let sizes : size_of ((tag, value) ∷ fields) ≡ 3 + length value + size_of fields =
      length-append (encode_field tag value) (encode_fields fields) ∙ omega arith in
    let read : read_field words end offset tags
        ≡ ok (set_tag tag value tags, offset + 3 + length value) =
      rw (here, o) (read_field-encode_field pre value after tag end tags once.0 (omega arith)) in
    let later : read_fields rounds words end (offset + 3 + length value) (set_tag tag value tags)
        ≡ ok (stored_fields (set_tag tag value tags) fields) =
      read_fields-encode_fields fields rounds end (offset + 3 + length value) words
        (pre ++ encode_field tag value) rest (set_tag tag value tags)
        (here ∙ sym (append_assoc pre (encode_field tag value) after))
        (omega (arith, length-append pre (encode_field tag value))) (omega arith) (omega arith)
        once.1 in
    ground arith

-- Of a timestamp and a signature of their lengths, with fields between them whose single tags do
-- not repeat, the reader gives the fields back as the source's map would hold them, and the offset
-- at which the signature starts.
pub read_bolt11_tags-encode_fields :
    (timestamp signature : Words) (fields : Tags)
    → length timestamp ≡ bolt11_timestamp_words
    → length signature ≡ bolt11_signature_words
    → HasNoRepeats [] fields
    → read_bolt11_tags (timestamp ++ (encode_fields fields ++ signature))
      ≡ ok (record {
        tags = stored_fields [] fields;
        end = bolt11_timestamp_words + length (encode_fields fields);
      })
unfolding read_bolt11_tags
read_bolt11_tags-encode_fields timestamp signature fields t s once =
    let words = timestamp ++ (encode_fields fields ++ signature) in
    let size : length words ≡ 111 + size_of fields = omega (
      arith,
      length-append timestamp (encode_fields fields ++ signature),
      length-append (encode_fields fields) signature,
    ) in
    let read =
      read_fields-encode_fields fields (length words) (length words - 104) 7 words timestamp
        signature [] refl (sym t) (omega arith) (omega arith) once in
    rw read (ap (λ n. ok (record { tags = stored_fields [] fields; end = n })) (omega arith))
