-- ===== src/Billing/Ledger/Sound.antt =====
-- How the writes of the billing routes keep a ledger sound.
use mathlib.Core.Option
use mathlib.Core.Path.{subst}
use new_builders_stream.Prelude.{
  ℕ, ◌+◌, ◌<◌, ◌≤◌, ◌≡◌, ◌≢◌, ◌⊎◌, inl, inr, refl, sym, ◌∙◌, Bool, true, false, ◌==◌, Option, some,
  none, List, [], ◌∷◌, arith, if◌then◌else◌, All, Bool-cases, Option-cases, ==_iff,
}
use new_builders_stream.Prelude.Int.{pos, ◌+ℤ◌}
use new_builders_stream.Prelude.Table.{find, find_key, update_where, find-cons, find-update_where}
use new_builders_stream.Billing.Ledger.{
  Kind, paid_of, Settled, Settled-new, Settled-reopen, Owned, IsSound,
}

-- A lookup in a table where the row `i` was written.
written-cases :
    {A : Type 0} (i j : ℕ) (row x : A) (o : Option A)
    → (if i == j then some row else o) ≡ some x
    → ((x ≡ row) × (j ≡ i)) ⊎ ((i ≢ j) × (o ≡ some x))
written-cases i j row x o h = elim (Bool-cases (i == j)) [
  | inl e ↦ inl (cc (rw e at h), ground arith)
  | inr e ↦ inr ((λ q. absurd (ground arith)), rw e at h)
]

-- A lookup in a table after a statement that updates the rows of a test.
update-cases :
    {A : Type 0} (p : A → Bool) (set : A → A) (x : A) (o : Option A)
    → Option.map (λ r. if p r then set r else r) o ≡ some x
    → ((d : A) × (x ≡ set d) × (p d ≡ true) × (o ≡ some d)) ⊎ (o ≡ some x)
update-cases p set x none h = absurd (cc)
update-cases p set x (some d) h = elim (Bool-cases (p d)) [
  | inl e ↦ inl (d, cc (rw e at h), e, refl)
  | inr e ↦ inr (rw e at h)
]

-- The UPDATE of the row with one key, seen by a lookup.
pub find-update_own :
    {A : Type 0} (key : A → ℕ) (set : A → A) (old : A) (i j : ℕ) (rows : List A)
    → ((x : A) → key (set x) ≡ key x)
    → find key i rows ≡ some old
    → find key j (update_where (λ r. key r == i) set rows)
      ≡ (if i == j then some (set old) else find key j rows)
find-update_own {A} key set old i j rows keeps h =
    find-update_where key (λ r. key r == i) set j rows keeps ∙ elim (Bool-cases (i == j)) [
      | inl e ↦
          let here : find key j rows ≡ some old =
            subst (λ t. find key t rows ≡ some old) ((==_iff i j).0 e) h in
          let own : (key old == i) ≡ true = (==_iff (key old) i).1 (find_key key i old rows h) in
          rw (e, here, own) refl
      | inr e ↦ elim (Option-cases (find key j rows)) [
        | inl missing ↦ rw (e, missing) refl
        | inr (x, found) ↦
            let other : (key x == i) ≡ false = rw (find_key key j x rows found) (differ i j e) in
            rw (e, found, other) refl
      ]
    ]
  where
    differ : (i j : ℕ) → (i == j) ≡ false → (j == i) ≡ false
    differ i j h = ground arith

module _ {Doc Pay : Type 0} (k : Kind Doc Pay) where
  pub paid_of-cons_self :
      (i : ℕ) (p : Pay) (payments : List Pay)
      → k.document p ≡ i
      → paid_of k i (p ∷ payments) ≡ k.value p +ℤ paid_of k i payments
  unfolding paid_of
  paid_of-cons_self i p payments h = ground arith

  paid_of-cons_ne :
      (i : ℕ) (p : Pay) (payments : List Pay)
      → k.document p ≢ i
      → paid_of k i (p ∷ payments) ≡ paid_of k i payments
  unfolding paid_of
  paid_of-cons_ne i p payments h = ground arith

  -- Nothing is paid on a document that no payment names.
  paid_of_new :
      (i : ℕ) (payments : List Pay)
      → All (λ p. k.document p < i) payments
      → paid_of k i payments ≡ pos 0
  unfolding paid_of
  paid_of_new i [] h = refl
  paid_of_new i (p ∷ payments) h = ground (arith, paid_of_new i payments h.1)

  All-next :
      (n : ℕ) (payments : List Pay)
      → All (λ p. k.document p < n) payments
      → All (λ p. k.document p < n + 1) payments
  All-next n [] h = tt
  All-next n (p ∷ payments) h = (omega arith, All-next n payments h.1)

  All-later :
      (n m : ℕ) (payments : List Pay)
      → n ≤ m
      → All (λ p. k.document p < n) payments
      → All (λ p. k.document p < m) payments
  All-later n m [] e h = tt
  All-later n m (p ∷ payments) e h = (omega arith, All-later n m payments e h.1)

  Owned-new :
      (i c : ℕ) (payments : List Pay) → All (λ p. k.document p < i) payments → Owned k i c payments
  Owned-new i c [] h = record { rows = tt }
  Owned-new i c (p ∷ payments) h = record {
    rows = ((λ e. absurd (omega arith)), (Owned-new i c payments h.1).rows);
  }

  pub Owned-self :
      (i c : ℕ) (p : Pay) (payments : List Pay)
      → k.owner p ≡ c
      → Owned k i c payments
      → Owned k i c (p ∷ payments)
  Owned-self i c p payments e h = record { rows = ((λ _. e), h.rows) }

  Owned-ne :
      (i c : ℕ) (p : Pay) (payments : List Pay)
      → k.document p ≢ i
      → Owned k i c payments
      → Owned k i c (p ∷ payments)
  Owned-ne i c p payments e h = record { rows = ((λ q. absurd (e q)), h.rows) }

  module _ {docs : List Doc} {payments : List Pay} {n : ℕ} (s : IsSound k docs payments n) where
    -- Identifiers are used by rows of other tables.
    pub IsSound-later : (m : ℕ) → n ≤ m → IsSound k docs payments m
    IsSound-later m e = record {
      settled = s.settled;
      owned = s.owned;
      old_payments = All-later n m payments e s.old_payments;
      old_documents = λ i doc h. omega (arith, s.old_documents i doc h);
    }

    -- A new document under the new identifier.
    pub IsSound-insert :
        (doc : Doc)
        → k.id_of doc ≡ n
        → k.is_paid doc ≡ false
        → IsSound k (doc ∷ docs) payments (n + 1)
    IsSound-insert doc fresh open_status =
        let cases = λ (j : ℕ) (x : Doc) (h : find k.id_of j (doc ∷ docs) ≡ some x).
          written-cases n j doc x (find k.id_of j docs) (rw (find-cons, fresh) at h) in
        record {
          settled = λ j x h. elim (cases j x h) [
            | inl (e, q) ↦
                rw (e, q, paid_of_new n payments s.old_payments) (Settled-new k doc open_status)
            | inr (_, o) ↦ s.settled j x o
          ];
          owned = λ j x h. elim (cases j x h) [
            | inl (e, q) ↦ rw (e, q) (Owned-new n (k.company_of doc) payments s.old_payments)
            | inr (_, o) ↦ s.owned j x o
          ];
          old_payments = All-next n payments s.old_payments;
          old_documents = λ j x h. elim (cases j x h) [
            | inl (_, q) ↦ omega arith
            | inr (_, o) ↦ omega (arith, s.old_documents j x o)
          ];
        }

    -- A payment, and the row of its document with the status that the payment gives it.
    pub IsSound-pay :
        (i : ℕ) (old doc : Doc) (p : Pay) (docs' : List Doc)
        → find k.id_of i docs ≡ some old
        → ((j : ℕ) → find k.id_of j docs' ≡ (if i == j then some doc else find k.id_of j docs))
        → k.company_of doc ≡ k.company_of old
        → k.document p ≡ i
        → k.owner p ≡ k.company_of doc
        → Settled k doc (k.value p +ℤ paid_of k i payments)
        → IsSound k docs' (p ∷ payments) (n + 1)
    IsSound-pay i old doc p docs' found written company names owner ok =
        let cases = λ (j : ℕ) (x : Doc) (h : find k.id_of j docs' ≡ some x).
          written-cases i j doc x (find k.id_of j docs) (rw written at h) in
        record {
          settled = λ j x h. elim (cases j x h) [
            | inl (e, q) ↦ rw (e, q, paid_of-cons_self i p payments names) ok
            | inr (e, o) ↦
                rw (paid_of-cons_ne j p payments (λ q. e (sym names ∙ q))) (s.settled j x o)
          ];
          owned = λ j x h. elim (cases j x h) [
            | inl (e, q) ↦
                rw (e, q)
                  (Owned-self i (k.company_of doc) p payments owner
                    (rw company (s.owned i old found)))
            | inr (e, o) ↦
                Owned-ne j (k.company_of x) p payments (λ q. e (sym names ∙ q)) (s.owned j x o)
          ];
          old_payments =
              (omega (arith, s.old_documents i old found), All-next n payments s.old_payments);
          old_documents = λ j x h. elim (cases j x h) [
            | inl (_, q) ↦ omega (arith, s.old_documents i old found)
            | inr (_, o) ↦ omega (arith, s.old_documents j x o)
          ];
        }

    -- A statement that writes a status other than paid.
    pub IsSound-update_where :
        (p : Doc → Bool) (set : Doc → Doc)
        → ((d : Doc) → k.id_of (set d) ≡ k.id_of d)
        → ((d : Doc) → k.company_of (set d) ≡ k.company_of d)
        → ((d : Doc) → k.amount_of (set d) ≡ k.amount_of d)
        → ((d : Doc) → k.is_paid (set d) ≡ false)
        → IsSound k (update_where p set docs) payments n
    IsSound-update_where p set ids companies amounts open_status =
        let cases = λ (j : ℕ) (x : Doc) (h : find k.id_of j (update_where p set docs) ≡ some x).
          update-cases p set x (find k.id_of j docs)
            (sym (find-update_where k.id_of p set j docs ids) ∙ h) in
        record {
          settled = λ j x h. elim (cases j x h) [
            | inl (d, e, q, o) ↦ rw e (
                Settled-reopen k d (set d) (paid_of k j payments) (s.settled j d o) (amounts d)
                  (open_status d))
            | inr o ↦ s.settled j x o
          ];
          owned = λ j x h. elim (cases j x h) [
            | inl (d, e, q, o) ↦ rw (e, companies) (s.owned j d o)
            | inr o ↦ s.owned j x o
          ];
          old_payments = s.old_payments;
          old_documents = λ j x h. elim (cases j x h) [
            | inl (d, e, q, o) ↦ s.old_documents j d o
            | inr o ↦ s.old_documents j x o
          ];
        }

  not_in_empty : {P : Type 0} (i : ℕ) (doc : Doc) → find k.id_of i [] ≡ some doc → P
  unfolding find
  not_in_empty i doc h = absurd (cc)

  -- A ledger without documents.
  pub IsSound-empty : (n : ℕ) → IsSound k [] [] n
  IsSound-empty n = record {
    settled = λ i doc h. not_in_empty i doc h;
    owned = λ i doc h. not_in_empty i doc h;
    old_payments = tt;
    old_documents = λ i doc h. not_in_empty i doc h;
  }
