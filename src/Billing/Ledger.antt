-- ===== src/Billing/Ledger.antt =====
-- What backend/app/routers/invoices.py and bills.py have in common: documents with an amount and a
-- status, and payments against them. The proofs about both stand here, over the functions that
-- read a document and a payment.
pub mod Sound
pub mod Visible
use new_builders_stream.Prelude.{
  ℕ, ◌<◌, ◌+◌, ◌≡◌, ◌⊎◌, inl, inr, refl, sym, ◌∙◌, ◌||◌, Bool, true, false, ◌==◌, some, List, [],
  ◌∷◌, arith, All,
}
use new_builders_stream.Prelude.Int.{ℤ, pos, ◌+ℤ◌, ◌-ℤ◌, ◌≤ℤ◌, leb_ℤ, int_laws}
use new_builders_stream.Prelude.Table.{find, sum_where}

-- How a document and a payment are read.
pub record Kind (Doc Pay : Type 0) : Type 0 where
  pub id_of : Doc → ℕ
  pub company_of : Doc → ℕ
  pub amount_of : Doc → ℤ
  -- the status in which everything was paid
  pub is_paid : Doc → Bool
  pub document : Pay → ℕ
  pub owner : Pay → ℕ
  pub value : Pay → ℤ

module _ {Doc Pay : Type 0} (k : Kind Doc Pay) where
  -- The sum of all payments of a document.
  unfoldable pub paid_of : ℕ → List Pay → ℤ
  unfolding sum_where
  paid_of i payments = sum_where (λ p. k.document p == i) k.value payments

  -- The payments are never negative in sum; there are none or no more than the amount, and exactly
  -- the amount if the document is paid.
  pub record Settled (doc : Doc) (paid : ℤ) : Type 0 where
    pub nonneg : pos 0 ≤ℤ paid
    pub within : (paid ≡ pos 0) ⊎ (paid ≤ℤ k.amount_of doc)
    pub full : k.is_paid doc ≡ true → paid ≡ k.amount_of doc

  -- A payment that fits, on a document of any status, and the status that it leaves.
  pub Settled-pay :
      (old doc : Doc) (a paid : ℤ)
      → Settled old paid
      → k.amount_of doc ≡ k.amount_of old
      → k.is_paid doc ≡ (leb_ℤ (k.amount_of old) (a +ℤ paid) || k.is_paid old)
      → pos 0 ≤ℤ a
      → a ≤ℤ k.amount_of old -ℤ paid
      → Settled doc (a +ℤ paid)
  Settled-pay old doc a paid s amount p' positive room = record {
    nonneg = omega (int_laws, s.nonneg);
    within = inr (rw amount (fits a paid (k.amount_of old) room));
    full = λ h.
        full_sum a paid (k.amount_of old) (k.amount_of doc) (k.is_paid old) amount positive room
          s.full (sym p' ∙ h);
  }
    where
      fits : (a paid total : ℤ) → a ≤ℤ total -ℤ paid → a +ℤ paid ≤ℤ total
      fits a paid total h = omega int_laws

      full_sum :
          (a paid total new_total : ℤ) (was : Bool)
          → new_total ≡ total
          → pos 0 ≤ℤ a
          → a ≤ℤ total -ℤ paid
          → (was ≡ true → paid ≡ total)
          → (leb_ℤ total (a +ℤ paid) || was) ≡ true
          → a +ℤ paid ≡ new_total
      full_sum a paid total new_total was same positive room full h = grind int_laws

  -- A document without payments that is not paid.
  pub Settled-new : (doc : Doc) → k.is_paid doc ≡ false → Settled doc (pos 0)
  Settled-new doc h = record { nonneg = omega arith; within = inl refl; full = λ e. absurd (cc) }

  -- A status other than paid, whatever the document had.
  pub Settled-reopen :
      (old doc : Doc) (paid : ℤ)
      → Settled old paid
      → k.amount_of doc ≡ k.amount_of old
      → k.is_paid doc ≡ false
      → Settled doc paid
  Settled-reopen old doc paid s amount h = record {
    nonneg = s.nonneg;
    within = rw amount s.within;
    full = λ p. absurd (cc);
  }

  -- The payments of document `i` have the company `c`.
  pub record Owned (i c : ℕ) (payments : List Pay) : Type 0 where
    pub rows : All (λ p. k.document p ≡ i → k.owner p ≡ c) payments

  -- Every document is settled as its status says; a payment has the company of its document, and
  -- names a document that was created before the next identifier.
  pub record IsSound (docs : List Doc) (payments : List Pay) (next_id : ℕ) : Type 0 where
    pub settled :
        (i : ℕ) (doc : Doc) → find k.id_of i docs ≡ some doc → Settled doc (paid_of i payments)
    pub owned :
        (i : ℕ) (doc : Doc) → find k.id_of i docs ≡ some doc → Owned i (k.company_of doc) payments
    pub old_payments : All (λ p. k.document p < next_id) payments
    pub old_documents : (i : ℕ) (doc : Doc) → find k.id_of i docs ≡ some doc → i < next_id
