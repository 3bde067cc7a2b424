-- ===== src/Billing/Steps/Safe.antt =====
-- The books along the steps of Steps.antt.
use new_builders_stream.Prelude.{ap, Bool, List}
use new_builders_stream.Models.{Db, SyncJob, Invoice, InvoicePayment, Bill, BillPayment}
use new_builders_stream.Core.Exec.{Exec}
use new_builders_stream.Core.Exec.Spares.{Spares}
use new_builders_stream.Core.Transaction.Laws.{transaction-cases}
use new_builders_stream.Billing.Ledger.Sound.{IsSound-later}
use new_builders_stream.Billing.Invoices.Books.{BooksSound, invoice_kind}
use new_builders_stream.Billing.Invoices.Routes as InvoiceRoutes
use new_builders_stream.Billing.Invoices.Safe as InvoiceSafe
use new_builders_stream.Billing.Bills.Books.{BillsSound, bill_kind}
use new_builders_stream.Billing.Bills.Routes as BillRoutes
use new_builders_stream.Billing.Bills.Safe as BillSafe
use new_builders_stream.Sales.Projects.{update_project_status}
use new_builders_stream.Sales.Projects.Books.{update_project_status-Preserves}
use new_builders_stream.Sales.Estimates.Signature.{approve_estimate}
use new_builders_stream.Sales.Estimates.Signature.Approved.{approve_estimate-Preserves}
use new_builders_stream.Billing.Overdue.{flag_overdue-BooksSound, flag_overdue-BillsSound}
use new_builders_stream.Billing.Steps.{
  Step, Reach, after, invoice_created, invoice_sent, invoice_sent_read, invoice_payment,
  invoice_payment_locked, invoice_void, invoice_void_locked, bill_created, bill_payment,
  bill_payment_locked, bill_void, bill_void_locked, project_status, estimate_approved,
  overdue_flagged, elsewhere, done, then,
}
use new_builders_stream.Billing.Steps.SparesBills
use new_builders_stream.Billing.Steps.SparesBills.{bill_tables}
use new_builders_stream.Billing.Steps.SparesInvoices
use new_builders_stream.Billing.Steps.SparesInvoices.{invoice_tables}

-- The invoices and the bills are sound.
pub record BillingSound (db : Db) : Type 0 where
  pub books : BooksSound db
  pub bills : BillsSound db

spared_bills :
    {A : Type 0} (route : Exec A) (db : Db)
    → BillsSound db
    → Spares bill_tables route
    → BillsSound (route db).1
spared_bills route db s spares =
    let same = spares.kept db in
    rw (ap (λ (t : List Bill × List BillPayment). t.0) same) (
      rw (ap (λ (t : List Bill × List BillPayment). t.1) same)
        (IsSound-later bill_kind s (route db).1.next_id (spares.forward db)))

spared_books :
    {A : Type 0} (route : Exec A) (db : Db)
    → BooksSound db
    → Spares invoice_tables route
    → BooksSound (route db).1
spared_books route db s spares =
    let same = spares.kept db in
    rw (ap (λ (t : List Invoice × List InvoicePayment). t.0) same) (
      rw (ap (λ (t : List Invoice × List InvoicePayment). t.1) same)
        (IsSound-later invoice_kind s (route db).1.next_id (spares.forward db)))

module _ (send : SyncJob → Bool) where
  -- A request over invoices commits or rolls back.
  after_invoices :
      {A : Type 0} (route : Exec A) (db : Db)
      → BillingSound db
      → BooksSound (route db).1
      → Spares bill_tables route
      → BillingSound (after send route db)
  after_invoices route db s books spares =
      transaction-cases BillingSound send route db s
        λ jobs. record { books = books; bills = spared_bills route db s.bills spares }

  after_bills :
      {A : Type 0} (route : Exec A) (db : Db)
      → BillingSound db
      → BillsSound (route db).1
      → Spares invoice_tables route
      → BillingSound (after send route db)
  after_bills route db s bills spares =
      transaction-cases BillingSound send route db s
        λ jobs. record { books = spared_books route db s.books spares; bills = bills }

  -- One step.
  pub Step-BillingSound : {db db' : Db} → Step send db db' → BillingSound db → BillingSound db'
  Step-BillingSound (invoice_created db c p body) s =
      after_invoices _ db s (InvoiceRoutes.create_invoice-BooksSound c p body db s.books)
        (SparesBills.create_invoice-Spares c p body)
  Step-BillingSound (invoice_sent db c i due) s =
      after_invoices _ db s (InvoiceRoutes.send_invoice-BooksSound c i due db s.books)
        (SparesBills.send_invoice-Spares c i due)
  Step-BillingSound (invoice_sent_read db c read due) s =
      after_invoices _ db s (InvoiceRoutes.send_read-BooksSound c read due db s.books)
        (SparesBills.send_read-Spares c read due)
  Step-BillingSound (invoice_payment db c i body) s =
      after_invoices _ db s (InvoiceRoutes.record_invoice_payment-BooksSound c i body db s.books)
        (SparesBills.record_invoice_payment-Spares c i body)
  Step-BillingSound (invoice_payment_locked db c read body positive b) s =
      after_invoices _ db s
        (InvoiceSafe.record_locked_payment-BooksSound c body db read s.books positive b)
        (SparesBills.record_locked_payment-Spares c read body)
  Step-BillingSound (invoice_void db c i) s =
      after_invoices _ db s (InvoiceRoutes.void_invoice-BooksSound c i db s.books)
        (SparesBills.void_invoice-Spares c i)
  Step-BillingSound (invoice_void_locked db c i) s =
      after_invoices _ db s (InvoiceRoutes.void_locked-BooksSound c i db s.books)
        (SparesBills.void_locked-Spares c i)
  Step-BillingSound (bill_created db c body) s =
      after_bills _ db s (BillRoutes.create_bill-BillsSound c body db s.bills)
        (SparesInvoices.create_bill-Spares c body)
  Step-BillingSound (bill_payment db c i body) s =
      after_bills _ db s (BillRoutes.record_bill_payment-BillsSound c i body db s.bills)
        (SparesInvoices.record_bill_payment-Spares c i body)
  Step-BillingSound (bill_payment_locked db c read body positive b) s =
      after_bills _ db s
        (BillSafe.record_locked_payment-BillsSound c body db read s.bills positive b)
        (SparesInvoices.record_locked_payment-Spares c read body)
  Step-BillingSound (bill_void db c i) s =
      after_bills _ db s (BillRoutes.void_bill-BillsSound c i db s.bills)
        (SparesInvoices.void_bill-Spares c i)
  Step-BillingSound (bill_void_locked db c i) s =
      after_bills _ db s (BillRoutes.void_locked-BillsSound c i db s.bills)
        (SparesInvoices.void_locked-Spares c i)
  Step-BillingSound (project_status db c i body) s =
      transaction-cases BillingSound send (update_project_status c i body) db s λ jobs.
        let (books, bills) =
          (update_project_status-Preserves c i body).keep db (s.books, s.bills) in
        record { books = books; bills = bills }
  Step-BillingSound (estimate_approved db e c i form) s =
      transaction-cases BillingSound send (approve_estimate e c i form) db s λ jobs.
        let (books, bills) = (approve_estimate-Preserves e c i form).keep db (s.books, s.bills) in
        record { books = books; bills = bills }
  Step-BillingSound (overdue_flagged db today) s = record {
    books = flag_overdue-BooksSound today db s.books;
    bills = flag_overdue-BillsSound today db s.bills;
  }
  Step-BillingSound (elsewhere db db' e) s = record {
    books =
        rw (e.invoices, e.invoice_payments)
          (IsSound-later invoice_kind s.books db'.next_id e.next_id);
    bills = rw (e.bills, e.bill_payments) (IsSound-later bill_kind s.bills db'.next_id e.next_id);
  }

  -- In every database that the billing routes, the status route of a project and the approval of an
  -- estimate (which may draft an invoice), the daily overdue task and writes elsewhere reach from a
  -- sound one, in any order and for any callers, and also if other requests commit between the read of
  -- an invoice or a bill and its payment, void or sending, the invoices and the bills are sound: the
  -- payments of each are never negative in sum; there are none or they are no more than the amount, and
  -- exactly the amount when the status is paid; and each payment has the company of its document.
  pub Reach-BillingSound : {db db' : Db} → Reach send db db' → BillingSound db → BillingSound db'
  Reach-BillingSound (done db) s = s
  Reach-BillingSound (then a b c r step) s = Step-BillingSound step (Reach-BillingSound r s)
