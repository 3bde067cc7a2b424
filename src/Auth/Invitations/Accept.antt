-- ===== src/Auth/Invitations/Accept.antt =====
-- Accepting an invitation.
use new_builders_stream.Prelude.{
  ℕ, ◌+◌, ◌≤◌, ◌≡◌, refl, sym, ap, ◌∙◌, ◌==◌, ◌&&◌, any, ltb, not, is_none, true, false,
  Option-cases, ◌⊎◌, inl, inr, Option, none, some, List, [], ◌∷◌, arith, if◌then◌else◌,
}
use mathlib.Core.Path.{subst}
use new_builders_stream.Prelude.Table.{find, find-replace_own, count_where}
use new_builders_stream.Core.Exec.{Result, ok, err}
use new_builders_stream.Auth.Accounts.{
  User, CompanyUser, Accounts, Environment, find_by_email, log_action, require, or_raise,
}
use new_builders_stream.Auth.Accounts.Chains.{>>=-eq-ok, or_raise-eq-ok, require-eq-ok}
use new_builders_stream.Auth.Invitations.{
  Invitation, InvitationAcceptRequest, Office, decided, already_accepted, is_member, signed_in,
  new_user, existing_user, joining_by, joining_user, membership, accept_checks, joined,
  accept_invitation,
}

decided-eq-ok :
    {A B : Type 0} (s : Office) (m : Result A) (write : A → Result B × Office) {b : B} {s' : Office}
    → decided s m write ≡ (ok b, s')
    → (a : A) × (m ≡ ok a) × (write a ≡ (ok b, s'))
decided-eq-ok s (ok a) write h = (a, refl, h)
decided-eq-ok s (err e) write h = absurd (cc)

ok_injective : {A : Type 0} {a b : A} → ◌≡◌ {A = Result A} (ok a) (ok b) → a ≡ b
ok_injective q = cc

module _ (env : Environment) where
  -- What a chain of checks that passed has found.
  accept_checks-ok :
      (now new_id : ℕ) (authenticated : Option ℕ) (i : ℕ) (payload : InvitationAcceptRequest)
      (s : Office) (found : Invitation × User × Accounts)
      → accept_checks env now new_id authenticated i payload s ≡ ok found
      → (find (λ r. r.id) i s.invitations ≡ some found.0)
        × (is_none found.0.accepted_at ≡ true)
        × (not (ltb found.0.expires_at now) ≡ true)
        × (joining_user env new_id authenticated found.0 payload s.accounts ≡ ok (found.1, found.2))
  unfolding accept_checks
  accept_checks-ok now new_id authenticated i payload s found h =
      let (invitation, known, h1) = >>=-eq-ok (or_raise _ (find (λ r. r.id) i s.invitations)) _ h in
      let (_, unused, h2) = >>=-eq-ok (require (is_none invitation.accepted_at) _) _ h1 in
      let (_, in_time, h3) = >>=-eq-ok (require (not (ltb invitation.expires_at now)) _) _ h2 in
      let (joining, joins, q) =
        >>=-eq-ok (joining_user env new_id authenticated invitation payload s.accounts) _ h3 in
      subst
        (λ (x : Invitation × User × Accounts).
          (find (λ r. r.id) i s.invitations ≡ some x.0)
          × (is_none x.0.accepted_at ≡ true)
          × (not (ltb x.0.expires_at now) ≡ true)
          × (joining_user env new_id authenticated x.0 payload s.accounts ≡ ok (x.1, x.2)))
        (ok_injective q)
        (or_raise-eq-ok _ _ known, require-eq-ok _ _ unused, require-eq-ok _ _ in_time, joins)

  accepted_twice :
      (now new_id : ℕ) (authenticated : Option ℕ) (i : ℕ) (payload : InvitationAcceptRequest)
      (s : Office) (r : Invitation)
      → find (λ x. x.id) i s.invitations ≡ some r
      → is_none r.accepted_at ≡ false
      → accept_invitation env now new_id authenticated i payload s ≡ (err already_accepted, s)
  unfolding accept_invitation accept_checks
  accepted_twice now new_id authenticated i payload s r here taken =
      rw (here, taken, accept_checks) refl

  -- The account of the invitation's address, in which the caller has signed in, or a new one.
  abbrev pub JoinsAs : Option ℕ → Invitation → List User → User → List User → Type 0
  JoinsAs authenticated r users user users' =
      ((find_by_email r.email users ≡ some user)
        × (signed_in authenticated user.id ≡ true)
        × (users' ≡ users))
      ⊎ ((find_by_email r.email users ≡ none) × (user.email ≡ r.email) × (users' ≡ user ∷ users))

  new_user-ok :
      (new_id : ℕ) (r : Invitation) (payload : InvitationAcceptRequest) (s : Accounts)
      (joining : User × Accounts)
      → new_user env new_id r payload s ≡ ok joining
      → (joining.0.id ≡ new_id)
        × (joining.0.email ≡ r.email)
        × (joining.1.users ≡ joining.0 ∷ s.users)
        × (joining.1.company_users ≡ s.company_users)
  unfolding new_user
  new_user-ok new_id r payload s joining h =
      let (_, named, h1) = >>=-eq-ok (require (not (is_none payload.full_name)) _) _ h in
      let (password, known, q) = >>=-eq-ok (or_raise _ payload.password) _ h1 in
      subst
        (λ (x : User × Accounts).
          (x.0.id ≡ new_id)
          × (x.0.email ≡ r.email)
          × (x.1.users ≡ x.0 ∷ s.users)
          × (x.1.company_users ≡ s.company_users))
        (ok_injective q) (refl, refl, refl, refl)

  existing_user-ok :
      (authenticated : Option ℕ) (r : Invitation) (existing : User) (s : Accounts)
      (joining : User × Accounts)
      → existing_user env authenticated r existing s ≡ ok joining
      → (signed_in authenticated existing.id ≡ true)
        × (not (any (is_member r.company_id existing.id) s.company_users) ≡ true)
        × ((existing, s) ≡ joining)
  unfolding existing_user
  existing_user-ok authenticated r existing s joining h =
      let (_, same, h1) = >>=-eq-ok (require (signed_in authenticated existing.id) _) _ h in
      let (_, absent, q) =
        >>=-eq-ok (require (not (any (is_member r.company_id existing.id) s.company_users)) _) _
          h1 in
      (require-eq-ok _ _ same, require-eq-ok _ _ absent, ok_injective q)

  -- What is known of an account that joins, and of the memberships.
  abbrev Joins : ℕ → Option ℕ → Invitation → Accounts → User × Accounts → Type 0
  Joins new_id authenticated r s joining =
      JoinsAs authenticated r s.users joining.0 joining.1.users
      × (joining.1.company_users ≡ s.company_users)
      × ((not (any (is_member r.company_id joining.0.id) s.company_users) ≡ true)
          ⊎ (joining.0.id ≡ new_id))

  joining_user-ok :
      (new_id : ℕ) (authenticated : Option ℕ) (r : Invitation) (payload : InvitationAcceptRequest)
      (s : Accounts) (joining : User × Accounts)
      → joining_user env new_id authenticated r payload s ≡ ok joining
      → Joins new_id authenticated r s joining
  unfolding joining_user joining_by
  joining_user-ok new_id authenticated r payload s joining h =
      elim (Option-cases (find_by_email r.email s.users)) [
        | inl missing ↦
            let (id, email, users, members) = new_user-ok new_id r payload s joining (
              subst (λ o. joining_by env new_id authenticated r payload s o ≡ ok joining) missing
                h) in
            (inr (missing, email, users), members, inr id)
        | inr (existing, e) ↦
            let (same, absent, q) =
              existing_user-ok authenticated r existing s joining
                (subst (λ o. joining_by env new_id authenticated r payload s o ≡ ok joining) e h) in
            subst (Joins new_id authenticated r s) q (inl (e, same, refl), refl, inl absent)
      ]

  -- When accept_invitation returns, it read an unused invitation in time; who joins is the account of
  -- the invitation's address, in which the caller has signed in, or a new account of that address if
  -- none has it; that account has got a membership with the company and the role of the invitation;
  -- and every later request to accept the invitation is refused and writes nothing.
  pub accept_invitation_lem :
      (now new_id : ℕ) (authenticated : Option ℕ) (i : ℕ) (payload : InvitationAcceptRequest)
      (s s' : Office) (accepted : Invitation) (later other_id : ℕ) (other : Option ℕ)
      (again : InvitationAcceptRequest)
      → accept_invitation env now new_id authenticated i payload s ≡ (ok accepted, s')
      → (r : Invitation) × (user : User) × (find (λ x. x.id) i s.invitations ≡ some r)
        × (is_none r.accepted_at ≡ true)
        × (not (ltb r.expires_at now) ≡ true)
        × (accepted ≡ record r { accepted_at = some now })
        × JoinsAs authenticated r s.accounts.users user s'.accounts.users
        × (s'.accounts.company_users ≡ membership now r user ∷ s.accounts.company_users)
        × (accept_invitation env later other_id other i again s' ≡ (err already_accepted, s'))
  unfolding accept_invitation joined log_action
  accept_invitation_lem now new_id authenticated i payload s s' accepted later other_id other again
        h =
      let (found, checked, q) =
        decided-eq-ok s (accept_checks env now new_id authenticated i payload s) _ h in
      let (here, unused, in_time, joins) =
        accept_checks-ok now new_id authenticated i payload s found checked in
      let (joins_as, members, _) =
        joining_user-ok new_id authenticated found.0 payload s.accounts (found.1, found.2) joins in
      let after : Office = (joined env now found.0 found.1 found.2 s).1 in
      let written : after ≡ s' = ap (λ (r : Result Invitation × Office). r.1) q in
      let used : Invitation = record (found.0) { accepted_at = some now } in
      (
        found.0,
        found.1,
        here,
        unused,
        in_time,
        sym (ok_injective (ap (λ (r : Result Invitation × Office). r.0) q)),
        subst (JoinsAs authenticated found.0 s.accounts.users found.1)
            (ap (λ (o : Office). o.accounts.users) written) joins_as,
        sym (ap (λ (o : Office). o.accounts.company_users) written)
            ∙ ap (λ m. membership now found.0 found.1 ∷ m) members,
        subst
            (λ o. accept_invitation env later other_id other i again o ≡ (err already_accepted, o))
            written
            (accepted_twice later other_id other i again after used
              (find-replace_own (λ x. x.id) used found.0 i s.invitations here refl) refl),
      )

  one_more :
      (c u : ℕ) (m : CompanyUser) (rows : List CompanyUser)
      → count_where (is_member c u) (m ∷ rows) ≡ (
          if is_member c u m
          then count_where (is_member c u) rows + 1
          else count_where (is_member c u) rows)
  unfolding count_where
  one_more c u m rows = refl

  none_counted :
      (c u c' u' : ℕ) (rows : List CompanyUser)
      → (c' == c && u' == u) ≡ true
      → not (any (is_member c' u') rows) ≡ true
      → count_where (is_member c u) rows ≡ 0
  unfolding count_where
  none_counted c u c' u' [] same h = refl
  none_counted c u c' u' (m ∷ rows) same h = ground (arith, none_counted c u c' u' rows)

  none_of_new :
      (c u c' u' new_id : ℕ) (rows : List CompanyUser)
      → (c' == c && u' == u) ≡ true
      → u' ≡ new_id
      → count_where (is_member c new_id) rows ≡ 0
      → count_where (is_member c u) rows ≡ 0
  unfolding count_where
  none_of_new c u c' u' new_id [] same e h = refl
  none_of_new c u c' u' new_id (m ∷ rows) same e h =
      ground (arith, none_of_new c u c' u' new_id rows)

  counted :
      (c u c' u' new_id : ℕ) (rows : List CompanyUser)
      → count_where (is_member c u) rows ≤ 1
      → count_where (is_member c new_id) rows ≡ 0
      → (not (any (is_member c' u') rows) ≡ true) ⊎ (u' ≡ new_id)
      → (if c' == c && u' == u
          then count_where (is_member c u) rows + 1
          else count_where (is_member c u) rows)
        ≤ 1
  counted c u c' u' new_id rows few fresh (inl absent) = ground (arith, none_counted c u c' u' rows)
  counted c u c' u' new_id rows few fresh (inr e) =
      ground (arith, none_of_new c u c' u' new_id rows)

  -- Accepting an invitation, whether it succeeds or not, leaves no user with two memberships in a
  -- company, if none had two, and the identifier drawn for a new account had none.
  pub accept_invitation-one_membership :
      (now new_id : ℕ) (authenticated : Option ℕ) (i : ℕ) (payload : InvitationAcceptRequest)
      (s : Office) (c u : ℕ)
      → count_where (is_member c u) s.accounts.company_users ≤ 1
      → count_where (is_member c new_id) s.accounts.company_users ≡ 0
      → count_where
          (is_member c u)
          (accept_invitation env now new_id authenticated i payload s).1.accounts.company_users
        ≤ 1
  unfolding accept_invitation joined log_action
  accept_invitation-one_membership now new_id authenticated i payload s c u few fresh =
      go (accept_checks env now new_id authenticated i payload s) refl
    where
      go :
          (m : Result (Invitation × User × Accounts))
          → accept_checks env now new_id authenticated i payload s ≡ m
          → count_where
              (is_member c u)
              (decided s m (λ x. joined env now x.0 x.1 x.2 s)).1.accounts.company_users
            ≤ 1
      go (err e) h = few
      go (ok found) h =
          let (_, _, _, joins) = accept_checks-ok now new_id authenticated i payload s found h in
          let (_, members, absent) =
            joining_user-ok new_id authenticated found.0 payload s.accounts (found.1, found.2)
              joins in
          rw (members, one_more)
            (counted c u found.0.company_id found.1.id new_id s.accounts.company_users few fresh
              absent)
