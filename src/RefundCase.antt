-- ===== src/RefundCase.antt =====
-- src/refund-case/refund-case.service.ts, and `findOne` of
-- src/refund-case/refund-case.controller.ts. A query reads the state of the database, and a method
-- that writes returns the new one; a thrown error leaves the state that the caller had.
pub mod Opening
pub mod Resolution
use spark_ln_address.Prelude.{
  ◌>>=◌, ◌>>◌, ℕ, Bool, true, false, Option, none, some, List, [], ◌∷◌, Text, text_eq, Result, ok,
  err, throw_if, or_throw, is_some, if◌then◌else◌, ltb, length, take, drop, get_or_else, min, not,
}
use spark_ln_address.Database.{Storage, Db}
use spark_ln_address.Database.Rows.{RefundCase, CaseStatus, open_case, paid, abandoned}

pub record CreateRefundCaseParams : Type 0 where
  pub invoice_id : Text
  pub amount_sats : ℕ
  pub reason : Text
  pub external_ref : Option Text

-- The values that the database and the clock supply to one insert.
pub record Stamp : Type 0 where
  pub id : Text
  pub now : ℕ

pub record MarkPaidOpts : Type 0 where
  pub external_ref : Option Text
  pub payee_ln_address : Option Text

pub record MarkAbandonedOpts : Type 0 where
  pub reason : Option Text

pub data RefundError : Type 0 where
  unique_violation foreign_key_violation record_missing : RefundError
  not_found : Text → RefundError
  already : Text → CaseStatus → RefundError

abbrev pub max_limit : ℕ
max_limit = 200

abbrev pub default_limit : ℕ
default_limit = 50

abbrev pub is_open : CaseStatus → Bool
is_open open_case = true
is_open _ = false

abbrev pub for_invoice : Text → RefundCase → Bool
for_invoice invoice c = text_eq c.invoice_id invoice

-- `orderBy: { createdAt: 'desc' }`.
insert_latest : RefundCase → List RefundCase → List RefundCase
insert_latest c [] = c ∷ []
insert_latest c (d ∷ ds) =
    if ltb c.created_at d.created_at then d ∷ insert_latest c ds else c ∷ d ∷ ds

pub latest_first : List RefundCase → List RefundCase
latest_first [] = []
latest_first (c ∷ cs) = insert_latest c (latest_first cs)

-- `opts.x !== undefined && { x: opts.x }` spread into the update.
abbrev pub given {ℓ} : {A : Type ℓ} → Option A → Option A → Option A
given none old = old
given (some new) old = some new

-- The row that `markPaid` writes.
abbrev pub as_paid : MarkPaidOpts → ℕ → RefundCase → RefundCase
as_paid opts now existing = record existing {
  status = paid;
  resolved_at = some now;
  external_ref = given opts.external_ref existing.external_ref;
  payee_ln_address = given opts.payee_ln_address existing.payee_ln_address;
}

-- The row that `markAbandoned` writes.
abbrev pub as_abandoned : MarkAbandonedOpts → ℕ → RefundCase → RefundCase
as_abandoned opts now existing = record existing {
  status = abandoned;
  resolved_at = some now;
  reason = get_or_else opts.reason existing.reason;
}

module _ (S : Storage) where
  -- `db.refundCase.create`, with the two constraints of the schema and the primary key.
  unfoldable pub insert_case : RefundCase → Db S → Result RefundError (Db S)
  insert_case row db =
      if is_some (S.cases.find (for_invoice row.invoice_id) db.cases)
      then err unique_violation
      else if is_some (S.cases.get row.id db.cases)
      then err unique_violation
      else if is_some (S.invoices.get row.invoice_id db.invoices)
      then ok (record db { cases = S.cases.put row db.cases })
      else err foreign_key_violation

  abbrev pub new_case : CreateRefundCaseParams → Stamp → RefundCase
  new_case params stamp = record {
    id = stamp.id;
    invoice_id = params.invoice_id;
    amount_sats = params.amount_sats;
    reason = params.reason;
    external_ref = params.external_ref;
    payee_ln_address = none;
    status = open_case;
    created_at = stamp.now;
    resolved_at = none;
  }

  -- The `catch` of `createRefundCase`.
  recover :
      CreateRefundCaseParams
      → RefundCase
      → Db S
      → Result RefundError (Db S)
      → Result RefundError (Option RefundCase × Db S)
  recover params row db (ok db') = ok (some row, db')
  recover params row db (err unique_violation) =
      ok (S.cases.find (for_invoice params.invoice_id) db.cases, db)
  recover params row db (err e) = err e

  unfoldable pub create_refund_case :
      CreateRefundCaseParams → Stamp → Db S → Result RefundError (Option RefundCase × Db S)
  unfolding recover
  create_refund_case params stamp db =
      let row = new_case params stamp in recover params row db (insert_case row db)

  unfoldable pub list_open_refund_cases : Option ℕ → Option ℕ → Db S → List RefundCase × ℕ
  list_open_refund_cases limit_opt offset_opt db =
      let limit = min (get_or_else limit_opt default_limit) max_limit in
      let offset = get_or_else offset_opt 0 in
      let opened = S.cases.select (λ c. is_open c.status) db.cases in
      (take limit (drop offset (latest_first opened)), length opened)

  unfoldable pub find_by_id : Text → Db S → Option RefundCase
  find_by_id id db = S.cases.get id db.cases

  -- The controller's `findOne`.
  unfoldable pub find_one : Text → Db S → Result RefundError RefundCase
  find_one id db = or_throw (find_by_id id db) (not_found id)

  -- The lookup and the two checks that both resolutions begin with.
  unfoldable pub open_case_of : Text → Db S → Result RefundError RefundCase
  open_case_of id seen = do
    existing ← or_throw (S.cases.get id seen.cases) (not_found id)
    throw_if (not (is_open existing.status)) (already id existing.status)
    ok existing

  -- `update({ where: { id }, data })`, which fails where no row has the id.
  unfoldable pub update_case :
      Text → (RefundCase → RefundCase) → Db S → Result RefundError (RefundCase × Db S)
  update_case id change db = do
    current ← or_throw (S.cases.get id db.cases) record_missing
    ok (change current, record db { cases = S.cases.put (change current) db.cases })

  -- The lookup and the update are two awaits: `seen` is the state that the lookup reads, `db` the
  -- one that the update finds.
  unfoldable pub mark_paid :
      Text → MarkPaidOpts → ℕ → (seen db : Db S) → Result RefundError (RefundCase × Db S)
  mark_paid id opts now seen db = do
    existing ← open_case_of id seen
    update_case id (as_paid opts now) db

  unfoldable pub mark_abandoned :
      Text → MarkAbandonedOpts → ℕ → (seen db : Db S) → Result RefundError (RefundCase × Db S)
  mark_abandoned id opts now seen db = do
    existing ← open_case_of id seen
    update_case id (as_abandoned opts now) db
