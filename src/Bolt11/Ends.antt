-- ===== src/Bolt11/Ends.antt =====
-- The loop over the fields ends: each field takes at least three words.
use spark_ln_address.Prelude.{
  ℕ, zero, suc, ◌+◌, ◌-◌, ◌≤◌, ◌≡◌, ◌≢◌, length, [], ok, err, inl, inr, Result-cases, arith,
}
use spark_ln_address.Bolt11.{
  Words, Tags, out_of_rounds, read_field, read_fields, read_bolt11_tags, bolt11_timestamp_words,
  bolt11_signature_words,
}

read_field_advances :
    (words : Words) (end offset : ℕ) (tags tags' : Tags) (next : ℕ)
    → read_field words end offset tags ≡ ok (tags', next)
    → (offset + 3 ≤ next) × (next ≤ end)
unfolding read_field
read_field_advances words end offset tags tags' next h = ground arith

read_field_in_rounds :
    (words : Words) (end offset : ℕ) (tags : Tags)
    → read_field words end offset tags ≢ err out_of_rounds
unfolding read_field
read_field_in_rounds words end offset tags h = ground arith

read_fields_in_rounds :
    (rounds : ℕ) (words : Words) (end offset : ℕ) (tags : Tags)
    → end ≤ rounds + offset
    → read_fields rounds words end offset tags ≢ err out_of_rounds
unfolding read_fields
read_fields_in_rounds zero words end offset tags m h = ground arith
read_fields_in_rounds (suc rounds) words end offset tags m h =
    elim (Result-cases (read_field words end offset tags)) [
      | inr (e, f) ↦ ground (arith, read_field_in_rounds words end offset tags)
      | inl ((tags', next), f) ↦ ground (
        arith,
        read_field_advances words end offset tags tags' next,
        read_fields_in_rounds rounds words end next tags',
      )
    ]

-- The reader of the tags ends within as many rounds as there are words, whatever the words are.
pub read_bolt11_tags_ends : (words : Words) → read_bolt11_tags words ≢ err out_of_rounds
unfolding read_bolt11_tags
read_bolt11_tags_ends words h = ground (
  arith,
  read_fields_in_rounds (length words) words (length words - bolt11_signature_words)
      bolt11_timestamp_words [],
)
