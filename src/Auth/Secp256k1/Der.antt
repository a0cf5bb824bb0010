-- ===== src/Auth/Secp256k1/Der.antt =====
-- DER signatures, and what an accepted signature has passed.
use spark_ln_address.Prelude.{
  ℕ, suc, ◌+◌, ◌-◌, ◌≡◌, refl, ap, ◌∙◌, inl, inr, ◌⊎◌, Bool-cases, Option-cases, ltb, some, [], ◌∷◌,
  ◌++◌, length, take, drop, replicate, get_elem?, arith, length-append, length-drop,
  length-replicate, take-length-append, ◌==◌,
}
use spark_ln_address.Auth.Crypto.{Bytes}
use spark_ln_address.Auth.Secp256k1.{normalize, read_s, der_to_compact, subarray}

length-normalize : (b : Bytes) → length (normalize b) ≡ 32
unfolding normalize
length-normalize b = elim (Bool-cases (ltb 32 (length b))) [
  | inl y ↦ rw y (ground (arith, length-drop (length b - 32) b))
  | inr y ↦ rw y (
      ground (
        arith,
        length-append (replicate (32 - length b) 0) b,
        length-replicate {A = ℕ} (32 - length b) 0,
      ))
]

at_end : (r : Bytes) (a b : ℕ) (s : Bytes) → get_elem? (r ++ a ∷ b ∷ s) (length r) ≡ some a
at_end [] a b s = refl
at_end (x ∷ r) a b s = at_end r a b s

after_end : (r : Bytes) (a b : ℕ) (s : Bytes) → get_elem? (r ++ a ∷ b ∷ s) (suc (length r)) ≡ some b
after_end [] a b s = refl
after_end (x ∷ r) a b s = after_end r a b s

drop_past : (r : Bytes) (a b : ℕ) (s : Bytes) → drop (suc (suc (length r))) (r ++ a ∷ b ∷ s) ≡ s
drop_past [] a b s = refl
drop_past (x ∷ r) a b s = drop_past r a b s

take_all : (s : Bytes) → take (length s) s ≡ s
take_all [] = refl
take_all (x ∷ s) = ap (λ l. x ∷ l) (take_all s)

-- The layout of a DER signature with the integers `r` and `s`.
abbrev pub der_encode : Bytes → Bytes → Bytes
der_encode r s = 0x30 ∷ (length r + length s + 4) ∷ 0x02 ∷ length r ∷ (r ++ (0x02 ∷ length s ∷ s))

read_s-encoded :
    (r s t : Bytes) (a b : ℕ)
    → read_s (a ∷ b ∷ 0x02 ∷ length r ∷ (r ++ (0x02 ∷ length s ∷ s))) (4 + length r) t
      ≡ normalize t ++ normalize s
unfolding read_s
read_s-encoded r s t a b =
    let four : 4 + length r ≡ suc (suc (suc (suc (length r)))) = omega arith in
    let five : 4 + length r + 1 ≡ suc (suc (suc (suc (suc (length r))))) = omega arith in
    let six : 4 + length r + 2 ≡ suc (suc (suc (suc (suc (suc (length r)))))) = omega arith in
    rw (four, at_end r 0x02 (length s) s, read_s)
      (rw (five, six, after_end r 0x02 (length s) s, drop_past r 0x02 (length s) s, take_all s))

-- The DER encoding of any r and s is converted to the two, each cut or padded to 32 bytes.
pub der_to_compact-der_encode :
    (r s : Bytes) → der_to_compact (der_encode r s) ≡ normalize r ++ normalize s
unfolding der_to_compact
der_to_compact-der_encode r s =
    read_s-encoded r s (subarray (der_encode r s) 4 (length r)) 0x30 (length r + length s + 4)
    ∙ ap (λ t. normalize t ++ normalize s) (take-length-append r (0x02 ∷ length s ∷ s))

length-normalized : (r s : Bytes) → length (normalize r ++ normalize s) ≡ 64
length-normalized r s =
    omega (arith, length-append (normalize r) (normalize s), length-normalize r, length-normalize s)

length-read_s :
    (sig : Bytes) (offset : ℕ) (r : Bytes)
    → (read_s sig offset r ≡ sig) ⊎ (length (read_s sig offset r) ≡ 64)
unfolding read_s
length-read_s sig offset r = elim (Option-cases (get_elem? sig offset)) [
  | inl n ↦ inl (rw (n, read_s))
  | inr (tag, e) ↦ elim (Bool-cases (tag == 0x02)) [
    | inl y ↦ inr (rw (e, read_s) (rw y (length-normalized r _)))
    | inr y ↦ inl (rw (e, read_s) (rw y))
  ]
]

-- The conversion of any bytes gives them back or gives 64 bytes.
pub length-der_to_compact :
    (sig : Bytes) → (der_to_compact sig ≡ sig) ⊎ (length (der_to_compact sig) ≡ 64)
unfolding der_to_compact
length-der_to_compact [] = inl refl
length-der_to_compact (a ∷ []) = inl refl
length-der_to_compact (a ∷ b ∷ []) = inl refl
length-der_to_compact (a ∷ b ∷ c ∷ []) = ground arith
length-der_to_compact (a ∷ b ∷ c ∷ d ∷ l) =
    ground (arith, length-read_s (a ∷ b ∷ c ∷ d ∷ l) (4 + d) (subarray (a ∷ b ∷ c ∷ d ∷ l) 4 d))
