-- ===== src/Prelude/Results.antt =====
-- A promise that settles: `ok` carries what it resolved to, `err` what was thrown.
use mathlib.Core.Path.{◌≡◌, refl, ap}
use mathlib.Core.Bool.{Bool, true, false}
use mathlib.Core.Logic.{◌⊎◌, inl, inr}
use mathlib.Core.Option.{Option, none, some}

pub data Result {ℓ κ} (E : Type ℓ) (A : Type κ) : Type (ℓ ⊔ κ) where
  err : E → Result E A
  ok : A → Result E A

-- `if (bad) throw thrown`.
abbrev pub throw_if {ℓ} : {E : Type ℓ} → Bool → E → Result E (Unit {0})
throw_if false thrown = ok tt
throw_if true thrown = err thrown

-- `if (!found) throw thrown`, and the value otherwise.
abbrev pub or_throw {ℓ κ} : {E : Type ℓ} {A : Type κ} → Option A → E → Result E A
or_throw (some found) thrown = ok found
or_throw none thrown = err thrown

pub or_throw-ok {ℓ κ} :
    {E : Type ℓ} {A : Type κ} (found : Option A) (thrown : E) (a : A)
    → or_throw found thrown ≡ ok a
    → found ≡ some a
or_throw-ok none thrown a e = cc
or_throw-ok (some b) thrown a e = cc

-- The same outcome, with another kind of error.
abbrev pub map_err {ℓ κ ι} :
    {E : Type ℓ} {F : Type κ} {A : Type ι} → (E → F) → Result E A → Result F A
map_err f (ok a) = ok a
map_err f (err e) = err (f e)

pub map_err-ok {ℓ κ ι} :
    {E : Type ℓ} {F : Type κ} {A : Type ι} (f : E → F) (settled : Result E A) (a : A)
    → map_err f settled ≡ ok a
    → settled ≡ ok a
map_err-ok f (ok b) a h = ap ok (cc h)
map_err-ok f (err e) a h = cc

pub Result-cases {ℓ κ} :
    {E : Type ℓ} {A : Type κ} (settled : Result E A)
    → ((a : A) × (settled ≡ ok a)) ⊎ ((e : E) × (settled ≡ err e))
Result-cases (err thrown) = inr (thrown, refl)
Result-cases (ok value) = inl (value, refl)

module _ {ℓ κ ι} {E : Type ℓ} {A : Type κ} {B : Type ι} where
  infixl 5 ◌>>=◌
  -- `await`: what comes after a throw is not run.
  abbrev pub ◌>>=◌ : Result E A → (A → Result E B) → Result E B
  err thrown >>= after = err thrown
  ok value >>= after = after value

  -- The stages of a chain that resolved.
  pub >>=-ok :
      (first : Result E A) (after : A → Result E B) {result : B}
      → (first >>= after) ≡ ok result
      → (value : A) × (first ≡ ok value) × (after value ≡ ok result)
  >>=-ok (err thrown) after settled = cc
  >>=-ok (ok value) after settled = (value, refl, settled)

infixl 5 ◌>>◌
abbrev pub ◌>>◌ {ℓ κ} : {E : Type ℓ} {B : Type κ} → Result E (Unit {0}) → Result E B → Result E B
check >> after = check >>= λ passed. after

-- What a chain that resolved has passed.
pub throw_if-ok {ℓ κ} :
    {E : Type ℓ} {B : Type κ} (bad : Bool) (thrown : E) (rest : Result E B) (result : B)
    → (throw_if bad thrown >> rest) ≡ ok result
    → (bad ≡ false) × (rest ≡ ok result)
throw_if-ok false thrown rest result e = (refl, e)
throw_if-ok true thrown rest result e = cc
