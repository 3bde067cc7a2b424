-- ===== src/Billing/Ledger/Visible.antt =====
-- The payments that the tenant's row-level security shows.
use new_builders_stream.Prelude.{ℕ, ◌≡◌, refl, Bool, true, ◌&&◌, ◌==◌, List, [], ◌∷◌, arith, All}
use new_builders_stream.Prelude.Table.{sum_where}
use new_builders_stream.Billing.Ledger.{Kind, paid_of, Owned}

module _ {Doc Pay : Type 0} (k : Kind Doc Pay) (visible : ℕ → Bool) (i c : ℕ) where
  visible_sum :
      (payments : List Pay)
      → visible c ≡ true
      → All (λ p. k.document p ≡ i → k.owner p ≡ c) payments
      → sum_where (λ p. visible (k.owner p) && k.document p == i) k.value payments
        ≡ sum_where (λ p. k.document p == i) k.value payments
  unfolding sum_where
  visible_sum [] v h = refl
  visible_sum (p ∷ payments) v h = ground (arith, visible_sum payments v h.1, h.0)

  -- The visible payments of a visible document are all its payments.
  pub visible_sum-eq-paid_of :
      (payments : List Pay)
      → visible c ≡ true
      → Owned k i c payments
      → sum_where (λ p. visible (k.owner p) && k.document p == i) k.value payments
        ≡ paid_of k i payments
  unfolding paid_of
  visible_sum-eq-paid_of payments v h = visible_sum payments v h.rows
