-- ===== src/RefundCase/Resolution.antt =====
-- The resolution of refund cases.
use spark_ln_address.Prelude.{
  ℕ, ◌≡◌, refl, ◌≢◌, ◌↔◌, Option, some, Text, text_eq_iff, Result, ok, err, arith, inl, inr,
  Option-cases, Bool-cases, text_eq, text_eq_refl, ◌∙◌, >>=-ok,
}
use mathlib.Core.Path.{subst}
use spark_ln_address.Database.{Storage, Db}
use spark_ln_address.Database.Rows.{RefundCase, CaseStatus, open_case}
use spark_ln_address.RefundCase.{
  CreateRefundCaseParams, Stamp, MarkPaidOpts, MarkAbandonedOpts, RefundError, create_refund_case,
  insert_case, open_case_of, mark_paid, mark_abandoned, already, new_case, as_abandoned,
  update_case, as_paid, recover, unique_violation,
}

module _ (S : Storage) where
  update_case_writes :
      (id : Text) (change : RefundCase → RefundCase) (db db' : Db S) (c : RefundCase)
      → update_case S id change db ≡ ok (c, db')
      → (d : RefundCase) × (S.cases.get id db.cases ≡ some d)
        × (c ≡ change d)
        × (db'.cases ≡ S.cases.put (change d) db.cases)
  unfolding update_case
  update_case_writes id change db db' c h = elim (Option-cases (S.cases.get id db.cases)) [
    | inl n ↦ absurd (cc (rw (update_case, n) at h))
    | inr (d, g) ↦ (d, g, cc (rw (update_case, g) at h), cc (rw (update_case, g) at h))
  ]

  -- The case with this id is stored and is no longer open.
  pub IsResolved : Text → Db S → Type 0
  IsResolved id db = (c : RefundCase) × (S.cases.get id db.cases ≡ some c) × (c.status ≢ open_case)

  -- A write of the service: of a new case, or a resolution by a request whose lookup saw any state.
  pub data CaseStep : Db S → Db S → Type 0 where
    opens :
        {db db' : Db S} (params : CreateRefundCaseParams) (stamp : Stamp) (c : Option RefundCase)
        → create_refund_case S params stamp db ≡ ok (c, db')
        → CaseStep db db'
    pays :
        {db db' : Db S} (id : Text) (opts : MarkPaidOpts) (now : ℕ) (seen : Db S) (c : RefundCase)
        → mark_paid S id opts now seen db ≡ ok (c, db')
        → CaseStep db db'
    abandons :
        {db db' : Db S} (id : Text) (opts : MarkAbandonedOpts) (now : ℕ) (seen : Db S)
        (c : RefundCase)
        → mark_abandoned S id opts now seen db ≡ ok (c, db')
        → CaseStep db db'

  pub data CaseSteps : Db S → Db S → Type 0 where
    done : {db : Db S} → CaseSteps db db
    then : {a b c : Db S} → CaseStep a b → CaseSteps b c → CaseSteps a c

  insert-IsResolved :
      (row : RefundCase) (id : Text) (db db' : Db S)
      → insert_case S row db ≡ ok db'
      → IsResolved id db
      → IsResolved id db'
  unfolding insert_case IsResolved
  insert-IsResolved row id db db' h (c, g, s) =
      (c, ground (arith, S.cases.get-put id row db.cases, text_eq_iff row.id id), s)

  create-IsResolved :
      (params : CreateRefundCaseParams) (stamp : Stamp) (id : Text) (db db' : Db S)
      (c : Option RefundCase)
      → create_refund_case S params stamp db ≡ ok (c, db')
      → IsResolved id db
      → IsResolved id db'
  unfolding create_refund_case recover
  create-IsResolved params stamp id db db' c h r =
      go (insert_case S (new_case S params stamp) db) refl h
    where
      go :
          (x : Result RefundError (Db S))
          → insert_case S (new_case S params stamp) db ≡ x
          → recover S params (new_case S params stamp) db x ≡ ok (c, db')
          → IsResolved id db'
      go (ok d) e k =
          subst (IsResolved id) (cc k) (insert-IsResolved (new_case S params stamp) id db d e r)
      go (err unique_violation) e k = subst (IsResolved id) (cc k) r
      go (err _) e k = absurd (cc k)

  update-IsResolved :
      (id k : Text) (change : RefundCase → RefundCase) (db db' : Db S) (c : RefundCase)
      → ((d : RefundCase) → (change d).id ≡ d.id)
      → ((d : RefundCase) → (change d).status ≢ open_case)
      → update_case S k change db ≡ ok (c, db')
      → IsResolved id db
      → IsResolved id db'
  unfolding IsResolved
  update-IsResolved id k change db db' c own closes h (e, g, s) =
      let (d, at_k, same, put) = update_case_writes k change db db' c h in
      let put_at = S.cases.get-put id (change d) db.cases in
      elim (Bool-cases (text_eq (change d).id id)) [
        | inl y ↦ (change d, rw put (put_at ∙ rw y refl), closes d)
        | inr y ↦ (e, rw put (put_at ∙ rw y g), s)
      ]

  mark_paid_update :
      (id : Text) (opts : MarkPaidOpts) (now : ℕ) (seen db : Db S) (x : RefundCase × Db S)
      → mark_paid S id opts now seen db ≡ ok x
      → update_case S id (as_paid opts now) db ≡ ok x
  unfolding mark_paid
  mark_paid_update id opts now seen db x h = (>>=-ok (open_case_of S id seen) _ h).2

  mark_abandoned_update :
      (id : Text) (opts : MarkAbandonedOpts) (now : ℕ) (seen db : Db S) (x : RefundCase × Db S)
      → mark_abandoned S id opts now seen db ≡ ok x
      → update_case S id (as_abandoned opts now) db ≡ ok x
  unfolding mark_abandoned
  mark_abandoned_update id opts now seen db x h = (>>=-ok (open_case_of S id seen) _ h).2

  CaseStep-IsResolved :
      {db db' : Db S} (id : Text) → CaseStep db db' → IsResolved id db → IsResolved id db'
  CaseStep-IsResolved id (opens {db} {db'} params stamp c h) r =
      create-IsResolved params stamp id db db' c h r
  CaseStep-IsResolved id (pays {db} {db'} k opts now seen c h) r =
      update-IsResolved id k (as_paid opts now) db db' c (λ d. refl) (λ d x. cc x)
        (mark_paid_update k opts now seen db (c, db') h) r
  CaseStep-IsResolved id (abandons {db} {db'} k opts now seen c h) r =
      update-IsResolved id k (as_abandoned opts now) db db' c (λ d. refl) (λ d x. cc x)
        (mark_abandoned_update k opts now seen db (c, db') h) r

  CaseSteps-IsResolved :
      {db db' : Db S} (id : Text) → CaseSteps db db' → IsResolved id db → IsResolved id db'
  CaseSteps-IsResolved id done r = r
  CaseSteps-IsResolved id (then step steps) r =
      CaseSteps-IsResolved id steps (CaseStep-IsResolved id step r)

  mark_paid-IsResolved :
      (id : Text) (opts : MarkPaidOpts) (now : ℕ) (seen db db' : Db S) (c : RefundCase)
      → mark_paid S id opts now seen db ≡ ok (c, db')
      → IsResolved id db'
  unfolding IsResolved
  mark_paid-IsResolved id opts now seen db db' c h =
      let (d, at_id, same, put) =
        update_case_writes id (as_paid opts now) db db' c
          (mark_paid_update id opts now seen db (c, db') h) in
      let own : d.id ≡ id = S.cases.get_key id db.cases d at_id in
      (
        as_paid opts now d,
        rw put (S.cases.get-put id (as_paid opts now d) db.cases ∙ rw (own, text_eq_refl id) refl),
        λ x. cc x,
      )

  closed_case_refused :
      (id : Text) (db : Db S) (c : RefundCase)
      → S.cases.get id db.cases ≡ some c
      → c.status ≢ open_case
      → open_case_of S id db ≡ err (already id c.status)
  unfolding open_case_of
  closed_case_refused id db c g h = ground arith

  -- Once markPaid has resolved a case, whatever its own lookup saw, and after any further writes
  -- of the service to refund cases, by requests whose lookups saw any states, the case is not
  -- open, and a request that looks it up from then on is refused with its status: it is neither
  -- paid nor abandoned.
  pub resolved_once :
      (id : Text) (opts opts' : MarkPaidOpts) (reason : MarkAbandonedOpts) (now later : ℕ)
      (seen db db' seen' now_stored : Db S) (c : RefundCase)
      → mark_paid S id opts now seen db ≡ ok (c, db')
      → CaseSteps db' seen'
      → (status : CaseStatus) × (status ≢ open_case)
        × (mark_paid S id opts' later seen' now_stored ≡ err (already id status))
        × (mark_abandoned S id reason later seen' now_stored ≡ err (already id status))
  unfolding mark_paid mark_abandoned IsResolved
  resolved_once id opts opts' reason now later seen db db' seen' now_stored c h steps =
      let (d, at_id, closed) =
        CaseSteps-IsResolved id steps (mark_paid-IsResolved id opts now seen db db' c h) in
      let refused = closed_case_refused id seen' d at_id closed in
      (d.status, closed, rw (mark_paid, refused) refl, rw (mark_abandoned, refused) refl)

  -- markPaid succeeds on an id exactly where its lookup sees an open case with that id and its
  -- update finds a case with that id.
  pub mark_paid_iff :
      (id : Text) (opts : MarkPaidOpts) (now : ℕ) (seen db : Db S)
      → ((x : RefundCase × Db S) × (mark_paid S id opts now seen db ≡ ok x)) ↔ (
          ((c : RefundCase) × (S.cases.get id seen.cases ≡ some c) × (c.status ≡ open_case))
          × ((d : RefundCase) × (S.cases.get id db.cases ≡ some d)))
  unfolding mark_paid open_case_of update_case
  mark_paid_iff id opts now seen db = elim (Option-cases (S.cases.get id seen.cases)) [
    | inl n ↦ (λ x. absurd (ground (arith, x.1)), λ c. absurd (ground (arith, c.0.1)))
    | inr (c, f) ↦ elim (Option-cases (S.cases.get id db.cases)) [
      | inl n ↦ (λ x. absurd (ground (arith, x.1)), λ c. absurd (ground (arith, c.1.1)))
      | inr (d, g) ↦ (
        λ x. ((c, f, ground (arith, x.1)), (d, g)),
        λ e.
            let u = as_paid opts now d in
            ((u, record db { cases = S.cases.put u db.cases }), ground (arith, e.0.1)),
      )
    ]
  ]
