-- ===== src/Database/Memory.antt =====
-- Tables as lists of rows: a later write shadows an earlier one with its key. This shows that the
-- laws of the interface can be met, and runs in the tests.
use spark_ln_address.Prelude.{
  ℕ, suc, ◌≡◌, refl, Bool, true, false, List, [], ◌∷◌, Option, none, some, Text, text_eq,
  if◌then◌else◌, length, All, arith, text_eq_iff, any, Option-cases, All-imp, Bool-cases, inl, inr,
  text_eq_sound, text_eq_refl, ap, sym,
}
use mathlib.Core.Path.{fun_ext}
use spark_ln_address.Database.Tables.{Table}

module _ {Row : Type 0} (key : Row → Text) where
  unfoldable pub without : Text → (Row → Bool) → Row → Bool
  without k p q = if text_eq (key q) k then false else p q

  unfoldable pub get_row : Text → List Row → Option Row
  get_row k [] = none
  get_row k (r ∷ t) = if text_eq (key r) k then some r else get_row k t

  unfoldable pub find_row : (Row → Bool) → List Row → Option Row
  unfolding without
  find_row p [] = none
  find_row p (r ∷ t) = if p r then some r else find_row (without (key r) p) t

  unfoldable pub select_rows : (Row → Bool) → List Row → List Row
  unfolding without
  select_rows p [] = []
  select_rows p (r ∷ t) =
      let rest = select_rows (without (key r) p) t in if p r then r ∷ rest else rest

  unfoldable pub remove_row : Text → List Row → List Row
  remove_row k [] = []
  remove_row k (r ∷ t) = let rest = remove_row k t in if text_eq (key r) k then rest else r ∷ rest

  pub get_row-key : (k : Text) (t : List Row) (r : Row) → get_row k t ≡ some r → key r ≡ k
  unfolding get_row
  get_row-key k [] r h = cc
  get_row-key k (x ∷ t) r h = ground (arith, text_eq_iff (key x) k, get_row-key k t r)

  pub get_row-remove_row :
      (k j : Text) (t : List Row)
      → get_row k (remove_row j t) ≡ (if text_eq j k then none else get_row k t)
  unfolding get_row remove_row
  get_row-remove_row k j [] = ground arith
  get_row-remove_row k j (r ∷ t) = ground (
    arith,
    get_row-remove_row k j t,
    text_eq_iff (key r) j,
    text_eq_iff (key r) k,
    text_eq_iff j k,
  )

  pub find_row_sound :
      (p : Row → Bool) (t : List Row) (r : Row)
      → find_row p t ≡ some r
      → (p r ≡ true) × (get_row (key r) t ≡ some r)
  unfolding find_row get_row without
  find_row_sound p [] r h = cc
  find_row_sound p (x ∷ t) r h = ground (
    arith,
    find_row_sound (without (key x) p) t r,
    text_eq_iff (key r) (key x),
    text_eq_iff (key x) (key r),
  )

  pub find_row_complete :
      (p : Row → Bool) (t : List Row) (k : Text) (r : Row)
      → find_row p t ≡ none
      → get_row k t ≡ some r
      → p r ≡ false
  unfolding find_row get_row without
  find_row_complete p [] k r h g = cc
  find_row_complete p (x ∷ t) k r h g = ground (
    arith,
    find_row_complete (without (key x) p) t k r,
    text_eq_iff (key x) k,
    text_eq_iff (key r) (key x),
    get_row-key k t r,
  )

  without_idem : (k : Text) (p : Row → Bool) → without k (without k p) ≡ without k p
  unfolding without
  without_idem k p = fun_ext λ q. ground arith

  without_comm : (j k : Text) (p : Row → Bool) → without j (without k p) ≡ without k (without j p)
  unfolding without
  without_comm j k p = fun_ext λ q. ground arith

  found_below :
      (p : Row → Bool) (x : Row) (t : List Row) (r : Row)
      → (without (key x) p r ≡ true) × (get_row (key r) t ≡ some r)
      → (p r ≡ true) × (get_row (key r) (x ∷ t) ≡ some r)
  unfolding without get_row
  found_below p x t r h = ground (arith, text_eq_iff (key r) (key x), text_eq_iff (key x) (key r))

  get_row-head : (x : Row) (t : List Row) → get_row (key x) (x ∷ t) ≡ some x
  unfolding get_row
  get_row-head x t = rw (text_eq_refl (key x))

  pub select_rows_sound :
      (p : Row → Bool) (t : List Row)
      → All (λ r. (p r ≡ true) × (get_row (key r) t ≡ some r)) (select_rows p t)
  unfolding select_rows
  select_rows_sound p [] = tt
  select_rows_sound p (x ∷ t) =
      let later =
        All-imp (select_rows (without (key x) p) t) (found_below p x t)
          (select_rows_sound (without (key x) p) t) in
      elim (Bool-cases (p x)) [ inl h ↦ rw h ((h, get_row-head x t), later) | inr h ↦ rw h later ]

  pub select_rows_complete :
      (p : Row → Bool) (t : List Row) (k : Text) (r : Row)
      → get_row k t ≡ some r
      → p r ≡ true
      → any (λ q. text_eq (key q) k) (select_rows p t) ≡ true
  unfolding select_rows get_row without
  select_rows_complete p [] k r g h = cc
  select_rows_complete p (x ∷ t) k r g h = ground (
    arith,
    select_rows_complete (without (key x) p) t k r,
    text_eq_iff (key x) k,
    text_eq_iff (key r) (key x),
    get_row-key k t r,
  )

  passes : (Row → Bool) → Option Row → Bool
  passes p none = false
  passes p (some r) = p r

  abbrev count : (Row → Bool) → List Row → ℕ
  count p t = length (select_rows p t)

  without_at :
      (k : Text) (p : Row → Bool) (q : Row)
      → without k p q ≡ (if text_eq (key q) k then false else p q)
  unfolding without
  without_at k p q = refl

  passes-without :
      (j k : Text) (p : Row → Bool) (t : List Row)
      → text_eq j k ≡ false
      → passes (without j p) (get_row k t) ≡ passes p (get_row k t)
  unfolding passes without
  passes-without j k p t h = elim (Option-cases (get_row k t)) [
    | inl e ↦ rw e
    | inr (r, e) ↦
        rw e (ground (arith, get_row-key k t r e, text_eq_iff (key r) j, text_eq_iff j k))
  ]

  count_split :
      (p : Row → Bool) (k : Text) (t : List Row)
      → count p t
        ≡ (if passes p (get_row k t) then suc (count (without k p) t) else count (without k p) t)
  unfolding select_rows get_row passes
  count_split p k [] = refl
  count_split p k (x ∷ t) = elim (Bool-cases (text_eq (key x) k)) [
    | inl e ↦
        let same =
          ap (λ j. count (without (key x) (without j p)) t) (sym (text_eq_sound (key x) k e)) in
        ground (arith, same, without_at k p x, ap (λ f. count f t) (without_idem (key x) p))
    | inr e ↦ ground (
      arith,
      count_split (without (key x) p) k t,
      passes-without (key x) k p t e,
      without_at k p x,
      ap (λ f. count f t) (without_comm (key x) k p),
    )
  ]

  pub count_new_lem :
      (p : Row → Bool) (r : Row) (t : List Row)
      → get_row (key r) t ≡ none
      → count p (r ∷ t) ≡ (if p r then suc (count p t) else count p t)
  unfolding select_rows passes
  count_new_lem p r t h = ground (arith, count_split p (key r) t)

  pub count_same_lem :
      (p : Row → Bool) (r q : Row) (t : List Row)
      → get_row (key r) t ≡ some q
      → p q ≡ p r
      → count p (r ∷ t) ≡ count p t
  unfolding select_rows passes
  count_same_lem p r q t h e = ground (arith, count_split p (key r) t)

  pub get_row-put :
      (k : Text) (r : Row) (t : List Row)
      → get_row k (r ∷ t) ≡ (if text_eq (key r) k then some r else get_row k t)
  unfolding get_row
  get_row-put k r t = refl

  pub get_row-nil : (k : Text) → get_row k [] ≡ none
  unfolding get_row
  get_row-nil k = refl

  abbrev pub memory_table : Table Row key
  memory_table = record {
    Rows = List Row;
    empty = [];
    get = get_row;
    find = find_row;
    select = select_rows;
    put = λ r t. r ∷ t;
    remove = remove_row;
    get-empty = get_row-nil;
    get-put = get_row-put;
    get-remove = get_row-remove_row;
    get_key = get_row-key;
    find_sound = find_row_sound;
    find_complete = find_row_complete;
    select_sound = select_rows_sound;
    select_complete = select_rows_complete;
    count_new = count_new_lem;
    count_same = count_same_lem;
  }
