-- ===== src/Integrations/Payload.antt =====
-- What a local record looks like to an accounting provider: `_serialize` and `_customer_name` of
-- backend/app/tasks/accounting_sync.py and RefSpec of backend/app/services/accounting_client.py.
use package.text.Mathlib.Text.{◌==◌ as str_eq}
use new_builders_stream.Prelude.{
  ℕ, ltb, ◌==◌, Bool, true, false, if◌then◌else◌, Option, none, some, String, List, [], ◌∷◌,
}
use new_builders_stream.Prelude.Int.{ℤ}
use new_builders_stream.Prelude.Table.{find, select}
use new_builders_stream.Models.{
  Invoice, InvoiceNumber, InvoiceStatus, InvoicePayment, Bill, BillStatus,
}

pub data EntityType : Type 0 where
  invoice expense bill payment : EntityType

abbrev pub same_type : EntityType → EntityType → Bool
same_type invoice invoice = true
same_type expense expense = true
same_type bill bill = true
same_type payment payment = true
same_type _ _ = false

-- The columns of `expenses`, `project_clients` and `users` that the task reads.
pub record Expense : Type 0 where
  pub id : ℕ
  pub description : String
  pub amount : ℤ

pub record ProjectClient : Type 0 where
  pub project_id : ℕ
  pub user_id : ℕ
  pub created_at : ℕ

pub record NamedUser : Type 0 where
  pub id : ℕ
  pub full_name : Option String

-- The rows that the task reads, as row-level security shows them to the connection's company.
pub record Books : Type 0 where
  pub invoices : List Invoice
  pub expenses : List Expense
  pub bills : List Bill
  pub invoice_payments : List InvoicePayment
  pub project_clients : List ProjectClient
  pub users : List NamedUser

pub data FinancialRecord : Type 0 where
  of_invoice : Invoice → FinancialRecord
  of_expense : Expense → FinancialRecord
  of_bill : Bill → FinancialRecord
  of_payment : InvoicePayment → FinancialRecord

-- `_ENTITY_MODELS[entity_type]` and the query for the row.
unfoldable pub find_record : EntityType → ℕ → Books → Option FinancialRecord
find_record invoice i books = elim (find (λ r. r.id) i books.invoices) [
  | none ↦ none
  | some r ↦ some (of_invoice r)
]
find_record expense i books = elim (find (λ r. r.id) i books.expenses) [
  | none ↦ none
  | some r ↦ some (of_expense r)
]
find_record bill i books = elim (find (λ r. r.id) i books.bills) [
  | none ↦ none
  | some r ↦ some (of_bill r)
]
find_record payment i books = elim (find (λ r. r.id) i books.invoice_payments) [
  | none ↦ none
  | some r ↦ some (of_payment r)
]

-- ORDER BY created_at LIMIT 1, over the inner join with the users.
unfoldable pub oldest_client :
    List NamedUser → List ProjectClient → Option (ProjectClient × NamedUser)
oldest_client users [] = none
oldest_client users (c ∷ cs) =
    let rest = oldest_client users cs in
    elim (find (λ u. u.id) c.user_id users) [
      | none ↦ rest
      | some user ↦ elim rest [
        | none ↦ some (c, user)
        | some later ↦ if ltb later.0.created_at c.created_at then some later else some (c, user)
      ]
    ]

unfoldable pub customer_name : Books → Invoice → Option String
customer_name books r =
    elim (oldest_client books.users
      (select (λ c. c.project_id == r.project_id) books.project_clients)) [
        | none ↦ none
        | some found ↦ found.1.full_name
      ]

-- A dict of texts, None among them.
abbrev pub Payload : Type 0
Payload = List (String × Option String)

unfoldable pub get_item : String → Payload → Option String
get_item key [] = none
get_item key ((k, value) ∷ items) = if str_eq k key then value else get_item key items

unfoldable pub set_item : String → String → Payload → Payload
set_item key value [] = (key, some value) ∷ []
set_item key value ((k, old) ∷ items) =
    if str_eq k key then (key, some value) ∷ items else (k, old) ∷ set_item key value items

-- `str` of an amount and of an invoice number, and `isoformat` of a date.
pub record Texts : Type 0 where
  pub amount_text : ℤ → String
  pub number_text : InvoiceNumber → String
  pub isoformat : ℕ → String

abbrev pub invoice_status_text : InvoiceStatus → String
invoice_status_text InvoiceStatus.draft = "draft"
invoice_status_text InvoiceStatus.sent = "sent"
invoice_status_text InvoiceStatus.paid = "paid"
invoice_status_text InvoiceStatus.overdue = "overdue"
invoice_status_text InvoiceStatus.void = "void"

abbrev pub bill_status_text : BillStatus → String
bill_status_text BillStatus.unpaid = "unpaid"
bill_status_text BillStatus.paid = "paid"
bill_status_text BillStatus.overdue = "overdue"
bill_status_text BillStatus.void = "void"

abbrev pub date_text : Texts → Option ℕ → Option String
date_text texts none = none
date_text texts (some day) = some (texts.isoformat day)

unfoldable pub serialize : Texts → Books → FinancialRecord → Payload
serialize texts books (of_invoice r) =
    ("invoice_number", some (texts.number_text r.invoice_number))
    ∷ ("amount", some (texts.amount_text r.amount))
    ∷ ("status", some (invoice_status_text r.status))
    ∷ ("due_date", date_text texts r.due_date)
    ∷ ("customer_name", customer_name books r)
    ∷ []
serialize texts books (of_expense r) =
    ("description", some r.description) ∷ ("amount", some (texts.amount_text r.amount)) ∷ []
serialize texts books (of_payment r) =
    ("amount", some (texts.amount_text r.amount))
    ∷ ("paid_date", some (texts.isoformat r.paid_date))
    ∷ (
      "customer_name",
      elim (find (λ x. x.id) r.invoice_id books.invoices) [
        | none ↦ none
        | some paid_for ↦ customer_name books paid_for
      ],
    )
    ∷ []
serialize texts books (of_bill r) =
    ("vendor_name", r.vendor_name)
    ∷ ("amount", some (texts.amount_text r.amount))
    ∷ ("status", some (bill_status_text r.status))
    ∷ ("bill_number", r.bill_number)
    ∷ ("due_date", date_text texts r.due_date)
    ∷ []

pub record RefSpec : Type 0 where
  pub payload_key : String
  pub kind : String
  pub from_payload : Option String
  pub literal : Option String

-- An empty text has no key.
unfoldable pub local_key : RefSpec → Payload → Option String
local_key spec payload = elim spec.literal [
  | some text ↦ some text
  | none ↦ elim spec.from_payload [
    | none ↦ none
    | some field ↦ elim (get_item field payload) [
      | none ↦ none
      | some value ↦ if str_eq value "" then none else some value
    ]
  ]
]
