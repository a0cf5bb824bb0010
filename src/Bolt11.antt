-- ===== src/Bolt11.antt =====
-- src/common/bolt11-tags.ts and src/common/bolt11-description-hash.ts: the tagged fields of a BOLT11
-- invoice. A `Map` is the list of its entries in insertion order.
pub mod Fields
pub mod Ends
use spark_ln_address.Prelude.{
  ℕ, zero, suc, ◌+◌, ◌-◌, ◌*◌, Bool, ◌&&◌, ltb, ◌==◌, if◌then◌else◌, Option, none, some, is_some,
  get_or_else, List, [], ◌∷◌, any, length, take, drop, get_elem?, Text, Result, ok, err,
}

abbrev pub bolt11_timestamp_words : ℕ
bolt11_timestamp_words = 7

abbrev pub bolt11_signature_words : ℕ
bolt11_signature_words = 104

-- p, x, d, s, n, h.
abbrev pub single_tags : List ℕ
single_tags = 1 ∷ 6 ∷ 13 ∷ 16 ∷ 19 ∷ 23 ∷ []

abbrev pub is_single : ℕ → Bool
is_single tag = any (λ t. t == tag) single_tags

abbrev pub Words : Type 0
Words = List ℕ

abbrev pub Tags : Type 0
Tags = List (ℕ × Words)

-- `tags.get(tag)` and `tags.set(tag, value)`.
unfoldable pub get_tag : ℕ → Tags → Option Words
get_tag tag [] = none
get_tag tag ((t, value) ∷ tags) = if t == tag then some value else get_tag tag tags

unfoldable pub set_tag : ℕ → Words → Tags → Tags
set_tag tag value [] = (tag, value) ∷ []
set_tag tag value ((t, old) ∷ tags) =
    if t == tag then (tag, value) ∷ tags else (t, old) ∷ set_tag tag value tags

-- `words[i]`, which is read below `end` only.
abbrev pub word : Words → ℕ → ℕ
word words i = get_or_else (get_elem? words i) 0

-- `words.slice(from, to)`.
abbrev pub slice : Words → ℕ → ℕ → Words
slice words from to = take (to - from) (drop from words)

-- `out_of_rounds` is no error of the source: see Ends.
pub data TagError : Type 0 where
  truncated overruns repeated out_of_rounds : TagError

-- The field at `offset` is checked, and stored with the offset behind it.
unfoldable pub read_field : Words → ℕ → ℕ → Tags → Result TagError (Tags × ℕ)
read_field words end offset tags =
    let tag = word words offset in
    let size = word words (offset + 1) * 32 + word words (offset + 2) in
    if ltb end (offset + 3)
    then err truncated
    else if ltb end (offset + 3 + size)
    then err overruns
    else if is_some (get_tag tag tags) && is_single tag
    then err repeated
    else ok (set_tag tag (slice words (offset + 3) (offset + 3 + size)) tags, offset + 3 + size)

-- The loop of `readBolt11Tags`, with the number of its remaining rounds.
unfoldable pub read_fields : ℕ → Words → ℕ → ℕ → Tags → Result TagError Tags
read_fields zero words end offset tags = if ltb offset end then err out_of_rounds else ok tags
read_fields (suc rounds) words end offset tags =
    let read : Result TagError Tags = elim (read_field words end offset tags) [
      | err e ↦ err e
      | ok (tags', next) ↦ read_fields rounds words end next tags'
    ] in
    if ltb offset end then read else ok tags

pub record Bolt11Tags : Type 0 where
  pub tags : Tags
  pub end : ℕ

abbrev with_end : ℕ → Result TagError Tags → Result TagError Bolt11Tags
with_end end (ok tags) = ok (record { tags = tags; end = end })
with_end end (err e) = err e

-- `end` is 0 where the source has a negative number; no field is read in either case.
unfoldable pub read_bolt11_tags : Words → Result TagError Bolt11Tags
read_bolt11_tags words =
    let end = length words - bolt11_signature_words in
    with_end end (read_fields (length words) words end bolt11_timestamp_words [])

-- What the checks take of the bech32 package: `decode(text, 4096)` with `none` where it throws,
-- as the prefix and the words; `fromWords`, with `none` where it throws; and the hex of bytes.
pub record Bech32 : Type 0 where
  pub decode : Text → Option (Text × Words)
  pub from_words : Words → Option (List ℕ)
  pub to_hex : List ℕ → Text

abbrev pub description_hash_tag : ℕ
description_hash_tag = 23

abbrev pub description_hash_words : ℕ
description_hash_words = 52

-- The hash that the tags carry: the hex of an `h` field of the right length.
unfoldable pub hash_of_tags : Bech32 → Result TagError Bolt11Tags → Option Text
hash_of_tags bech32 (err e) = none
hash_of_tags bech32 (ok read) = elim (get_tag description_hash_tag read.tags) [
  | none ↦ none
  | some hash ↦
      if length hash == description_hash_words
      then (elim (bech32.from_words hash) [ none ↦ none | some bytes ↦ some (bech32.to_hex bytes) ])
      else none
]

unfoldable pub bolt11_description_hash : Bech32 → Text → Option Text
bolt11_description_hash bech32 bolt11 = elim (bech32.decode bolt11) [
  | none ↦ none
  | some (prefix, words) ↦ hash_of_tags bech32 (read_bolt11_tags words)
]
