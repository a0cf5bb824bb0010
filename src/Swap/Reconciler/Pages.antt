-- ===== src/Swap/Reconciler/Pages.antt =====
-- The pages of the reconciler: what is on them, and that no order is passed over.
use spark_ln_address.Prelude.{
  ℕ, zero, suc, ◌≤◌, ◌≡◌, refl, ap, ◌∙◌, Bool, true, false, ◌==◌, Bool-cases, ◌⊎◌, inl, inr, Option,
  some, List, [], ◌∷◌, All, All-imp, any, take, length, length-take, Text, text_eq, text_eq_sound,
  text_eq_complete, arith,
}
use spark_ln_address.Database.{Storage, Db}
use spark_ln_address.Database.Rows.{FlashnetOrder}
use spark_ln_address.Swap.Reconciler.{
  Queue, page_size, bound, fresh, stale, text_lt, insert_by_id, by_id, page, selected, last_id,
  next_cursor,
}

text_le_trans : (a b c : Text) → text_lt a b ≡ false → text_lt b c ≡ false → text_lt a c ≡ false
unfolding text_lt
text_le_trans [] [] c h g = g
text_le_trans [] (y ∷ b) c h g = cc
text_le_trans (x ∷ a) b [] h g = refl
text_le_trans (x ∷ a) [] (z ∷ c) h g = cc
text_le_trans (x ∷ a) (y ∷ b) (z ∷ c) h g = ground (arith, text_le_trans a b c)

text_lt_asymm : (a b : Text) → text_lt a b ≡ true → text_lt b a ≡ false
unfolding text_lt
text_lt_asymm [] [] h = refl
text_lt_asymm [] (y ∷ b) h = refl
text_lt_asymm (x ∷ a) [] h = cc
text_lt_asymm (x ∷ a) (y ∷ b) h = ground (arith, text_lt_asymm a b)

text_lt_total : (a b : Text) → text_lt a b ≡ false → (text_eq b a ≡ true) ⊎ (text_lt b a ≡ true)
unfolding text_lt text_eq
text_lt_total [] [] h = inl refl
text_lt_total [] (y ∷ b) h = cc
text_lt_total (x ∷ a) [] h = inr refl
text_lt_total (x ∷ a) (y ∷ b) h = ground (arith, text_lt_total a b)

page_size_positive : (queue : Queue) → (n : ℕ) × (page_size queue ≡ suc n)
page_size_positive bound = (19, refl)
page_size_positive fresh = (19, refl)
page_size_positive stale = (4, refl)

==-refl : (n : ℕ) → (suc n == suc n) ≡ true
==-refl n = ground arith

module _ (S : Storage) where
  abbrev Orders : Type 0
  Orders = List (FlashnetOrder S.Money)

  abbrev pub with_id : Text → FlashnetOrder S.Money → Bool
  with_id k o = text_eq o.id k

  -- No order stands before one with a smaller id.
  abbrev IsSorted : Orders → Type 0
  IsSorted [] = Unit
  IsSorted (o ∷ os) = All (λ q. text_lt q.id o.id ≡ false) os × IsSorted os

  module _ (P : FlashnetOrder S.Money → Type 0) where
    All-insert_by_id :
        (o : FlashnetOrder S.Money) (os : Orders) → P o → All P os → All P (insert_by_id S o os)
    unfolding insert_by_id
    All-insert_by_id o [] p h = (p, tt)
    All-insert_by_id o (q ∷ qs) p (pq, h) = elim (Bool-cases (text_lt q.id o.id)) [
      | inl e ↦ rw e (pq, All-insert_by_id o qs p h)
      | inr e ↦ rw e (p, (pq, h))
    ]

    All-by_id : (os : Orders) → All P os → All P (by_id S os)
    unfolding by_id
    All-by_id [] h = tt
    All-by_id (o ∷ os) (p, h) = All-insert_by_id o (by_id S os) p (All-by_id os h)

    All-take : (n : ℕ) (os : Orders) → All P os → All P (take n os)
    All-take zero os h = tt
    All-take (suc n) [] h = tt
    All-take (suc n) (o ∷ os) (p, h) = (p, All-take n os h)

  insert_by_id-IsSorted :
      (o : FlashnetOrder S.Money) (os : Orders) → IsSorted os → IsSorted (insert_by_id S o os)
  unfolding insert_by_id
  insert_by_id-IsSorted o [] h = (tt, tt)
  insert_by_id-IsSorted o (q ∷ qs) (least, h) = elim (Bool-cases (text_lt q.id o.id)) [
    | inl e ↦ rw e (
      All-insert_by_id (λ r. text_lt r.id q.id ≡ false) o qs (text_lt_asymm q.id o.id e) least,
      insert_by_id-IsSorted o qs h,
    )
    | inr e ↦ rw e ((e, All-imp qs (λ r f. text_le_trans r.id q.id o.id f e) least), (least, h))
  ]

  by_id-IsSorted : (os : Orders) → IsSorted (by_id S os)
  unfolding by_id
  by_id-IsSorted [] = tt
  by_id-IsSorted (o ∷ os) = insert_by_id-IsSorted o (by_id S os) (by_id-IsSorted os)

  any-insert_by_id :
      (p : FlashnetOrder S.Money → Bool) (o : FlashnetOrder S.Money) (os : Orders)
      → any p (insert_by_id S o os) ≡ any p (o ∷ os)
  unfolding insert_by_id
  any-insert_by_id p o [] = refl
  any-insert_by_id p o (q ∷ qs) = ground (arith, any-insert_by_id p o qs)

  any-by_id : (p : FlashnetOrder S.Money → Bool) (os : Orders) → any p (by_id S os) ≡ any p os
  unfolding by_id
  any-by_id p [] = refl
  any-by_id p (o ∷ os) = ground (arith, any-insert_by_id p o (by_id S os), any-by_id p os)

  -- An order of a sorted list is not before its head.
  not_before :
      (k t : Text) (os : Orders)
      → All (λ q. text_lt q.id t ≡ false) os
      → any (with_id k) os ≡ true
      → text_lt k t ≡ false
  not_before k t [] h g = cc
  not_before k t (o ∷ os) (e, h) g = elim (Bool-cases (text_eq o.id k)) [
    | inl f ↦ rw (← text_eq_sound o.id k f) e
    | inr f ↦ not_before k t os h (rw f at g)
  ]

  -- What is not among the first of a sorted list is behind the last of them.
  Behind : Text → ℕ → Orders → Type 0
  Behind k n os =
      (length (take n os) ≡ n)
      × ((last : Text) × (last_id S (take n os) ≡ some last) × (text_lt k last ≡ false))

  last_id-cons :
      (o : FlashnetOrder S.Money) (os : Orders) (last : Text)
      → last_id S os ≡ some last
      → last_id S (o ∷ os) ≡ some last
  unfolding last_id
  last_id-cons o [] last h = cc
  last_id-cons o (q ∷ qs) last h = h

  take-Behind :
      (k : Text) (n : ℕ) (os : Orders)
      → IsSorted os
      → any (with_id k) os ≡ true
      → (any (with_id k) (take (suc n) os) ≡ true) ⊎ Behind k (suc n) os
  unfolding Behind last_id
  take-Behind k n [] h g = cc
  take-Behind k zero (o ∷ os) (least, h) g = elim (Bool-cases (text_eq o.id k)) [
    | inl f ↦ inl (rw f refl)
    | inr f ↦ inr (refl, (o.id, refl, not_before k o.id os least (rw f at g)))
  ]
  take-Behind k (suc n) (o ∷ os) (least, h) g = elim (Bool-cases (text_eq o.id k)) [
    | inl f ↦ inl (rw f refl)
    | inr f ↦ elim (take-Behind k n os h (rw f at g)) [
      | inl m ↦ inl (rw f m)
      | inr (size, (last, at, e)) ↦
          inr (ap suc size, (last, last_id-cons o (take (suc n) os) last at, e))
    ]
  ]

  last_id_found :
      (os : Orders) (last : Text) → last_id S os ≡ some last → any (with_id last) os ≡ true
  unfolding last_id
  last_id_found [] last h = cc
  last_id_found (o ∷ []) last h = rw (text_eq_complete o.id last (cc h)) refl
  last_id_found (o ∷ q ∷ qs) last h = ground (arith, last_id_found (q ∷ qs) last h)

  selected_past :
      (queue : Queue) (cursor : Option Text) (last : Text) (recent : ℕ) (db : Db S)
      (o : FlashnetOrder S.Money)
      → text_lt last o.id ≡ true
      → selected S queue cursor recent db o ≡ true
      → selected S queue (some last) recent db o ≡ true
  unfolding selected
  selected_past queue cursor last recent db o f h = ground (arith, f, h)

  module _ (queue : Queue) (cursor : Option Text) (recent : ℕ) (db : Db S) where
    -- A page is no longer than its size, and every row on it is stored and selected.
    pub page_bounds :
        (length (page S queue cursor recent db) ≤ page_size queue)
        × All
            (λ o.
              (selected S queue cursor recent db o ≡ true) × (S.orders.get o.id db.orders ≡ some o))
            (page S queue cursor recent db)
    unfolding page
    page_bounds =
        let rows = S.orders.select (selected S queue cursor recent db) db.orders in
        let P : FlashnetOrder S.Money → Type 0 = λ o.
          (selected S queue cursor recent db o ≡ true) × (S.orders.get o.id db.orders ≡ some o) in
        (
          omega (arith, length-take (page_size queue) (by_id S rows)),
          All-take P (page_size queue) (by_id S rows) (
              All-by_id P rows
                (S.orders.select_sound (selected S queue cursor recent db) db.orders)),
        )

    -- A stored order that a queue selects from its cursor is on the page that is read, or is
    -- selected from the next cursor: no order is passed over.
    pub page_complete :
        (k : Text) (o : FlashnetOrder S.Money)
        → S.orders.get k db.orders ≡ some o
        → selected S queue cursor recent db o ≡ true
        → (any (with_id k) (page S queue cursor recent db) ≡ true)
          ⊎ (selected S queue (next_cursor S queue (page S queue cursor recent db)) recent db o
              ≡ true)
    unfolding page Behind
    page_complete k o g h =
        let rows = by_id S (S.orders.select (selected S queue cursor recent db) db.orders) in
        let here : any (with_id k) rows ≡ true =
          any-by_id (with_id k) _
          ∙ S.orders.select_complete (selected S queue cursor recent db) db.orders k o g h in
        let (n, size) = page_size_positive queue in
        elim (take-Behind k n rows (by_id-IsSorted _) here) [
          | inl m ↦ inl (rw size m)
          | inr (full, (last, at, e)) ↦
              let cursor' : next_cursor S queue (take (page_size queue) rows) ≡ some last =
                rw (size, full, ==-refl n) at in
              let same : o.id ≡ k = S.orders.get_key k db.orders o g in
              elim (text_lt_total k last e) [
                | inl f ↦ inl (
                    rw (size, ← text_eq_sound last k f) (last_id_found (take (suc n) rows) last at))
                | inr f ↦
                    inr (rw cursor' (selected_past queue cursor last recent db o (rw same f) h))
              ]
        ]
