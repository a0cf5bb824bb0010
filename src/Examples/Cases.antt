-- ===== src/Examples/Cases.antt =====
-- A refund case that is opened, paid and listed.
use spark_ln_address.Prelude.{none, some, [], ◌∷◌, ◌≡◌, refl, ◌≢◌, ◌↔◌, codes, ok, err, text_eq}
use spark_ln_address.Database.{Db, memory, empty_db}
use spark_ln_address.Database.Rows.{Invoice, RefundCase, CaseStatus, open_case, usdb}
use spark_ln_address.Database.Memory.{get_row}
use spark_ln_address.RefundCase.{
  CreateRefundCaseParams, Stamp, MarkPaidOpts, MarkAbandonedOpts, create_refund_case, mark_paid,
  mark_abandoned, already, for_invoice, list_open_refund_cases, new_case, as_paid, as_abandoned,
}
use spark_ln_address.RefundCase.Opening.{
  HasOneCasePerInvoice, Answered, create_again, create_refund_case_finds,
}
use spark_ln_address.RefundCase.Resolution.{abandons, then, done, resolved_once, mark_paid_iff}

abbrev invoice : Invoice
invoice = record {
  id = codes "i1";
  username_id = codes "n1";
  amount_msat = 21000;
  bolt11 = codes "lnbc";
  expires_at = 5;
  status = codes "pending";
  receiving_currency = usdb;
  destination_spark_address = none;
}

abbrev invoice_db : Db memory
invoice_db = record empty_db { invoices = invoice ∷ [] }

abbrev params : CreateRefundCaseParams
params = record {
  invoice_id = codes "i1";
  amount_sats = 21;
  reason = codes "failed";
  external_ref = none;
}

abbrev stamp : Stamp
stamp = record { id = codes "c1"; now = 10 }

abbrev opened : RefundCase
opened = new_case memory params stamp

abbrev opened_db : Db memory
opened_db = record invoice_db { cases = opened ∷ [] }

opened_runs : create_refund_case memory params stamp invoice_db ≡ ok (some opened, opened_db)
unfolding spark_ln_address.Prelude.text_eq spark_ln_address.Prelude.mem_text
    spark_ln_address.Prelude.starts_with spark_ln_address.Prelude.includes
    spark_ln_address.Prelude.decimal_from spark_ln_address.Prelude.decimal
    spark_ln_address.Database.Memory.without spark_ln_address.Database.Memory.get_row
    spark_ln_address.Database.Memory.find_row spark_ln_address.Database.Memory.select_rows
    spark_ln_address.Database.Memory.remove_row spark_ln_address.RefundCase.insert_case
    spark_ln_address.RefundCase.create_refund_case
    spark_ln_address.RefundCase.list_open_refund_cases spark_ln_address.RefundCase.find_by_id
    spark_ln_address.RefundCase.open_case_of spark_ln_address.RefundCase.update_case
    spark_ln_address.RefundCase.mark_paid spark_ln_address.RefundCase.mark_abandoned
opened_runs = refl

no_cases : HasOneCasePerInvoice memory invoice_db
unfolding spark_ln_address.Database.Memory.without spark_ln_address.Database.Memory.get_row
    spark_ln_address.Database.Memory.find_row spark_ln_address.Database.Memory.select_rows
    spark_ln_address.Database.Memory.remove_row
no_cases = record { same = λ j k c d p q r. cc }

no_case : memory.cases.get (codes "c1") invoice_db.cases ≡ none
unfolding spark_ln_address.Database.Memory.get_row
no_case = refl

abbrev again : CreateRefundCaseParams
again = record params { amount_sats = 5; reason = codes "again" }

create_again_example :
    HasOneCasePerInvoice memory opened_db
    × Answered memory (codes "i1") (some opened) opened_db
    × (create_refund_case memory again (record { id = codes "c2"; now = 30 }) opened_db
        ≡ ok (some opened, opened_db))
create_again_example =
    create_again memory params again stamp (record { id = codes "c2"; now = 30 }) invoice_db
      opened_db (some opened) no_cases no_case refl opened_runs

create_refund_case_finds_example :
    memory.cases.find (for_invoice (codes "i1")) opened_db.cases ≢ none
unfolding spark_ln_address.Database.Memory.without spark_ln_address.Database.Memory.get_row
    spark_ln_address.Database.Memory.find_row spark_ln_address.Database.Memory.select_rows
    spark_ln_address.Database.Memory.remove_row
create_refund_case_finds_example =
    create_refund_case_finds memory params stamp invoice_db opened_db (some opened) refl opened_runs

abbrev opts : MarkPaidOpts
opts = record { external_ref = some (codes "tx"); payee_ln_address = none }

abbrev paid_case : RefundCase
paid_case = as_paid opts 20 opened

abbrev paid_db : Db memory
paid_db = record opened_db { cases = paid_case ∷ opened ∷ [] }

paid_runs : mark_paid memory (codes "c1") opts 20 opened_db opened_db ≡ ok (paid_case, paid_db)
unfolding spark_ln_address.Prelude.text_eq spark_ln_address.Prelude.mem_text
    spark_ln_address.Prelude.starts_with spark_ln_address.Prelude.includes
    spark_ln_address.Prelude.decimal_from spark_ln_address.Prelude.decimal
    spark_ln_address.Database.Memory.without spark_ln_address.Database.Memory.get_row
    spark_ln_address.Database.Memory.find_row spark_ln_address.Database.Memory.select_rows
    spark_ln_address.Database.Memory.remove_row spark_ln_address.RefundCase.insert_case
    spark_ln_address.RefundCase.create_refund_case
    spark_ln_address.RefundCase.list_open_refund_cases spark_ln_address.RefundCase.find_by_id
    spark_ln_address.RefundCase.open_case_of spark_ln_address.RefundCase.update_case
    spark_ln_address.RefundCase.mark_paid spark_ln_address.RefundCase.mark_abandoned
paid_runs = refl

abbrev unclaimed : MarkAbandonedOpts
unclaimed = record { reason = none }

abbrev overwritten : RefundCase
overwritten = as_abandoned unclaimed 25 paid_case

abbrev overwritten_db : Db memory
overwritten_db = record paid_db { cases = overwritten ∷ paid_case ∷ opened ∷ [] }

-- A request that looked the case up while it was open overwrites the payment.
overwritten_runs :
    mark_abandoned memory (codes "c1") unclaimed 25 opened_db paid_db
    ≡ ok (overwritten, overwritten_db)
unfolding spark_ln_address.Prelude.text_eq spark_ln_address.Prelude.mem_text
    spark_ln_address.Prelude.starts_with spark_ln_address.Prelude.includes
    spark_ln_address.Prelude.decimal_from spark_ln_address.Prelude.decimal
    spark_ln_address.Database.Memory.without spark_ln_address.Database.Memory.get_row
    spark_ln_address.Database.Memory.find_row spark_ln_address.Database.Memory.select_rows
    spark_ln_address.Database.Memory.remove_row spark_ln_address.RefundCase.insert_case
    spark_ln_address.RefundCase.create_refund_case
    spark_ln_address.RefundCase.list_open_refund_cases spark_ln_address.RefundCase.find_by_id
    spark_ln_address.RefundCase.open_case_of spark_ln_address.RefundCase.update_case
    spark_ln_address.RefundCase.mark_paid spark_ln_address.RefundCase.mark_abandoned
overwritten_runs = refl

resolved_once_example :
    (status : CaseStatus) × (status ≢ open_case)
    × (mark_paid memory (codes "c1") opts 30 overwritten_db overwritten_db
        ≡ err (already (codes "c1") status))
    × (mark_abandoned memory (codes "c1") unclaimed 30 overwritten_db overwritten_db
        ≡ err (already (codes "c1") status))
resolved_once_example =
    resolved_once memory (codes "c1") opts opts unclaimed 20 30 opened_db opened_db paid_db
      overwritten_db overwritten_db paid_case paid_runs
      (then (abandons (codes "c1") unclaimed 25 opened_db overwritten overwritten_runs) done)

mark_paid_iff_example :
    ((x : RefundCase × Db memory) × (mark_paid memory (codes "c1") opts 20 opened_db overwritten_db
        ≡ ok x))
    ↔ (((c : RefundCase) × (memory.cases.get (codes "c1") opened_db.cases ≡ some c)
          × (c.status ≡ open_case))
        × ((d : RefundCase) × (memory.cases.get (codes "c1") overwritten_db.cases ≡ some d)))
mark_paid_iff_example = mark_paid_iff memory (codes "c1") opts 20 opened_db overwritten_db
