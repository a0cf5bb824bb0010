-- ===== src/RefundCase/Opening.antt =====
-- The opening of refund cases.
use spark_ln_address.Prelude.{
  ℕ, ◌≤◌, ◌≡◌, refl, ◌≢◌, Option, none, some, Text, text_eq_iff, Result, ok, err, arith, length,
  length-take, inl, inr, Option-cases, Bool-cases, text_eq_refl, text_eq_sound, sym, ap, ◌∙◌,
  is_some,
}
use mathlib.Core.Path.{subst}
use spark_ln_address.Database.{Storage, Db}
use spark_ln_address.Database.Rows.{RefundCase}
use spark_ln_address.RefundCase.{
  CreateRefundCaseParams, Stamp, RefundError, for_invoice, create_refund_case, insert_case,
  list_open_refund_cases, new_case, max_limit, recover, unique_violation,
}

module _ (S : Storage) where
  -- No two refund cases of the database are about one invoice.
  pub record HasOneCasePerInvoice (db : Db S) : Type 0 where
    pub same :
        (j k : Text) (c d : RefundCase)
        → S.cases.get j db.cases ≡ some c
        → S.cases.get k db.cases ≡ some d
        → c.invoice_id ≡ d.invoice_id
        → j ≡ k

  insert-HasOneCasePerInvoice :
      (row : RefundCase) (db db' : Db S)
      → HasOneCasePerInvoice db
      → insert_case S row db ≡ ok db'
      → HasOneCasePerInvoice db'
  unfolding insert_case
  insert-HasOneCasePerInvoice row db db' h e = record {
    same = λ j k c d p q r. ground (
      arith,
      h.same j k c d,
      S.cases.get-put j row db.cases,
      S.cases.get-put k row db.cases,
      S.cases.find_complete (for_invoice row.invoice_id) db.cases j c,
      S.cases.find_complete (for_invoice row.invoice_id) db.cases k d,
      text_eq_iff row.id j,
      text_eq_iff row.id k,
      text_eq_iff c.invoice_id row.invoice_id,
      text_eq_iff d.invoice_id row.invoice_id,
    );
  }

  recover-HasOneCasePerInvoice :
      (params : CreateRefundCaseParams) (row : RefundCase) (db db' : Db S) (c : Option RefundCase)
      (r : Result RefundError (Db S))
      → HasOneCasePerInvoice db
      → ((d : Db S) → r ≡ ok d → HasOneCasePerInvoice d)
      → recover S params row db r ≡ ok (c, db')
      → HasOneCasePerInvoice db'
  unfolding recover
  recover-HasOneCasePerInvoice params row db db' c (ok d) h k e =
      subst HasOneCasePerInvoice (cc) (k d refl)
  recover-HasOneCasePerInvoice params row db db' c (err unique_violation) h k e =
      subst HasOneCasePerInvoice (cc) h
  recover-HasOneCasePerInvoice params row db db' c (err _) h k e = cc

  pub create-HasOneCasePerInvoice :
      (params : CreateRefundCaseParams) (stamp : Stamp) (db db' : Db S) (c : Option RefundCase)
      → HasOneCasePerInvoice db
      → create_refund_case S params stamp db ≡ ok (c, db')
      → HasOneCasePerInvoice db'
  unfolding create_refund_case
  create-HasOneCasePerInvoice params stamp db db' c h e =
      let row = new_case S params stamp in
      recover-HasOneCasePerInvoice params row db db' c (insert_case S row db) h
        (λ d. insert-HasOneCasePerInvoice row db d h) e

  -- Where the key of the new case is free, a createRefundCase that returns leaves a case of the
  -- invoice in the database, whether it wrote it or found it.
  pub create_refund_case_finds :
      (params : CreateRefundCaseParams) (stamp : Stamp) (db db' : Db S) (c : Option RefundCase)
      → S.cases.get stamp.id db.cases ≡ none
      → create_refund_case S params stamp db ≡ ok (c, db')
      → S.cases.find (for_invoice params.invoice_id) db'.cases ≢ none
  unfolding create_refund_case insert_case
  create_refund_case_finds params stamp db db' c fresh e n = ground (
    arith,
    S.cases.find_complete (for_invoice params.invoice_id) db'.cases stamp.id
        (new_case S params stamp) n,
    S.cases.get-put stamp.id (new_case S params stamp) db.cases,
    text_eq_refl stamp.id,
    text_eq_refl params.invoice_id,
  )

  -- The case of an invoice that a call answers with.
  pub record Answered (invoice : Text) (c : Option RefundCase) (db : Db S) : Type 0 where
    pub row : RefundCase
    pub answer : c ≡ some row
    pub row_stored : S.cases.get row.id db.cases ≡ some row
    pub own : row.invoice_id ≡ invoice

  create-Answered :
      (params : CreateRefundCaseParams) (stamp : Stamp) (db db' : Db S) (c : Option RefundCase)
      → S.cases.get stamp.id db.cases ≡ none
      → create_refund_case S params stamp db ≡ ok (c, db')
      → Answered params.invoice_id c db'
  unfolding create_refund_case insert_case
  create-Answered params stamp db db' c fresh e =
      let row = new_case S params stamp in
      elim (Option-cases (S.cases.find (for_invoice params.invoice_id) db.cases)) [
        | inr (old, f) ↦
            let (same, at_old) =
              S.cases.find_sound (for_invoice params.invoice_id) db.cases old f in
            let kept : db ≡ db' = cc (rw (create_refund_case, insert_case, f) at e) in
            let answer : some old ≡ c = cc (rw (create_refund_case, insert_case, f) at e) in
            record {
              row = old;
              answer = sym answer;
              row_stored = rw (← kept) at_old;
              own = text_eq_sound old.invoice_id params.invoice_id same;
            }
        | inl f ↦ elim (Bool-cases (is_some (S.invoices.get params.invoice_id db.invoices))) [
          | inr g ↦ absurd (cc (rw (create_refund_case, insert_case, f, fresh, g) at e))
          | inl g ↦
              let kept : (record db { cases = S.cases.put row db.cases }) ≡ db' =
                cc (rw (create_refund_case, insert_case, f, fresh, g) at e) in
              let answer : some row ≡ c =
                cc (rw (create_refund_case, insert_case, f, fresh, g) at e) in
              record {
                row = row;
                answer = sym answer;
                row_stored =
                    rw (← kept)
                      (S.cases.get-put row.id row db.cases ∙ rw (text_eq_refl row.id) refl);
                own = refl;
              }
        ]
      ]

  found_answer :
      (params : CreateRefundCaseParams) (stamp : Stamp) (db : Db S) (old : RefundCase)
      → S.cases.find (for_invoice params.invoice_id) db.cases ≡ some old
      → create_refund_case S params stamp db ≡ ok (some old, db)
  unfolding create_refund_case insert_case
  found_answer params stamp db old f = ground (arith, f)

  second_answer :
      (params : CreateRefundCaseParams) (stamp : Stamp) (db : Db S) (c : Option RefundCase)
      → HasOneCasePerInvoice db
      → Answered params.invoice_id c db
      → create_refund_case S params stamp db ≡ ok (c, db)
  second_answer params stamp db c one a =
      elim (Option-cases (S.cases.find (for_invoice params.invoice_id) db.cases)) [
        | inl n ↦
            let missed =
              S.cases.find_complete (for_invoice params.invoice_id) db.cases a.row.id a.row n
                a.row_stored in
            absurd (cc (rw (a.own, text_eq_refl params.invoice_id) at missed))
        | inr (old, f) ↦
            let (same, at_old) =
              S.cases.find_sound (for_invoice params.invoice_id) db.cases old f in
            let own = text_eq_sound old.invoice_id params.invoice_id same in
            let one_key : old.id ≡ a.row.id =
              one.same old.id a.row.id old a.row at_old a.row_stored (own ∙ sym a.own) in
            let row : old ≡ a.row = cc (rw one_key at at_old, a.row_stored) in
            found_answer params stamp db old f ∙ ap (λ x. ok (x, db)) (ap some row ∙ sym a.answer)
      ]

  -- Where no invoice has two refund cases and the key of the new case is free, a createRefundCase
  -- that returns answers with a stored case of the invoice, no invoice has two cases afterwards,
  -- and any second call for that invoice answers with the same case and writes nothing.
  pub create_again :
      (params params' : CreateRefundCaseParams) (stamp stamp' : Stamp) (db db' : Db S)
      (c : Option RefundCase)
      → HasOneCasePerInvoice db
      → S.cases.get stamp.id db.cases ≡ none
      → params'.invoice_id ≡ params.invoice_id
      → create_refund_case S params stamp db ≡ ok (c, db')
      → HasOneCasePerInvoice db'
        × Answered params.invoice_id c db'
        × (create_refund_case S params' stamp' db' ≡ ok (c, db'))
  create_again params params' stamp stamp' db db' c one fresh same e =
      let one' = create-HasOneCasePerInvoice params stamp db db' c one e in
      let a = create-Answered params stamp db db' c fresh e in
      (
        one',
        a,
        second_answer params' stamp' db' c one' (subst (λ i. Answered i c db') (sym same) a),
      )

  -- The list of open cases has at most 200 entries, whatever natural number is asked for.
  list_open_bounded :
      (limit offset : Option ℕ) (db : Db S)
      → length (list_open_refund_cases S limit offset db).0 ≤ max_limit
  unfolding list_open_refund_cases
  list_open_bounded limit offset db = omega (arith, length-take {0})
