-- ===== src/Flashnet/Quote/RequiredTags.antt =====
-- The tags that an invoice has to have.
use spark_ln_address.Prelude.{
  Bool, is_some, none, if◌then◌else◌, ◌&&◌, ◌⊎◌, ◌≢◌, ℕ, ◌≡◌, true, not, Option-cases, inl, inr,
  some, length, arith,
}
use spark_ln_address.Bolt11.{Tags, Words, get_tag}
use spark_ln_address.Flashnet.Quote.{has_length, has_required_tags}

-- The tag is there and has 52 words.
abbrev Holds : ℕ → Tags → Type 0
Holds tag tags = (words : Words) × (get_tag tag tags ≡ some words) × (length words ≡ 52)

-- A payment hash, a secret, and a description or its hash, but not both.
abbrev pub Required : Tags → Type 0
Required tags =
    Holds 1 tags
    × Holds 16 tags
    × (((get_tag 13 tags ≢ none) × (get_tag 23 tags ≡ none))
        ⊎ ((get_tag 13 tags ≡ none) × Holds 23 tags))

has_length-Holds :
    (tag : ℕ) (tags : Tags) → has_length 52 (get_tag tag tags) ≡ true → Holds tag tags
has_length-Holds tag tags h = elim (Option-cases (get_tag tag tags)) [
  | inl n ↦ absurd (cc (rw n at h))
  | inr (words, e) ↦ (words, e, ground (arith, rw e at h))
]

and_parts : (a b : Bool) → a && b ≡ true → (a ≡ true) × (b ≡ true)
and_parts a b h = (ground arith, ground arith)

described_once :
    (tags : Tags)
    → (if is_some (get_tag 13 tags)
        then not (is_some (get_tag 23 tags))
        else has_length 52 (get_tag 23 tags))
      ≡ true
    → ((get_tag 13 tags ≢ none) × (get_tag 23 tags ≡ none))
      ⊎ ((get_tag 13 tags ≡ none) × Holds 23 tags)
described_once tags h = elim (Option-cases (get_tag 13 tags)) [
  | inl n ↦ inr (n, has_length-Holds 23 tags (rw n at h))
  | inr (words, e) ↦ elim (Option-cases (get_tag 23 tags)) [
    | inl n ↦ inl ((λ m. cc (e, m)), n)
    | inr (hash, f) ↦ absurd (cc (rw (e, f) at h))
  ]
]

pub tag_parts : (tags : Tags) → has_required_tags tags ≡ true → Required tags
tag_parts tags h =
    let described =
      if is_some (get_tag 13 tags)
      then not (is_some (get_tag 23 tags))
      else has_length 52 (get_tag 23 tags) in
    let (ab, c) =
      and_parts (has_length 52 (get_tag 1 tags) && has_length 52 (get_tag 16 tags)) described h in
    let (a, b) = and_parts (has_length 52 (get_tag 1 tags)) (has_length 52 (get_tag 16 tags)) ab in
    (has_length-Holds 1 tags a, has_length-Holds 16 tags b, described_once tags c)
