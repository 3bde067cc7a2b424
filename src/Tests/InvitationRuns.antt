-- ===== src/Tests/InvitationRuns.antt =====
-- Invitations of a person without an account.
use new_builders_stream.Prelude.{
  ◌≤◌, ◌≡◌, refl, ltb, not, is_none, true, none, some, [], ◌∷◌, arith,
}
use new_builders_stream.Prelude.Table.{find, replace, count_where}
use new_builders_stream.Models.{project_manager}
use new_builders_stream.Core.Exec.{err}
use new_builders_stream.Auth.Accounts.{User, find_by_email, log_action}
use new_builders_stream.Auth.Invitations.{
  Invitation, InvitationAcceptRequest, Office, already_accepted, is_member, new_user, joining_by,
  joining_user, membership, accept_checks, joined, accept_invitation,
}
use new_builders_stream.Auth.Invitations.Accept.{
  JoinsAs, accept_invitation_lem, accept_invitation-one_membership,
}
use new_builders_stream.Tests.SignInRuns.{env, tables}

abbrev invited : Invitation
invited = record {
  id = 70;
  company_id = 1;
  email = "sam@example.com";
  role = project_manager;
  expires_at = 1000;
  accepted_at = none;
}

abbrev office : Office
office = record { accounts = tables; invitations = invited ∷ [] }

abbrev sam : InvitationAcceptRequest
sam = record { full_name = some "Sam"; password = some 4 }

accept_invitation_lem_example :
    let s' = (accept_invitation env 900 20 none 70 sam office).1 in
    (r : Invitation) × (user : User) × (find (λ x. x.id) 70 office.invitations ≡ some r)
    × (is_none r.accepted_at ≡ true)
    × (not (ltb r.expires_at 900) ≡ true)
    × (record invited { accepted_at = some 900 } ≡ record r { accepted_at = some 900 })
    × JoinsAs env none r tables.users user s'.accounts.users
    × (s'.accounts.company_users ≡ membership 900 r user ∷ tables.company_users)
    × (accept_invitation env 950 21 (some 3) 70 sam s' ≡ (err already_accepted, s'))
unfolding accept_invitation accept_checks joining_user joining_by new_user joined log_action find
    replace find_by_email
accept_invitation_lem_example =
    accept_invitation_lem env 900 20 none 70 sam office
      (accept_invitation env 900 20 none 70 sam office).1
      (record invited { accepted_at = some 900 }) 950 21 (some 3) sam refl

one_before : count_where (is_member 1 3) tables.company_users ≤ 1
unfolding count_where
one_before = omega arith

none_before : count_where (is_member 1 20) tables.company_users ≡ 0
unfolding count_where
none_before = refl

accept_invitation-one_membership_example :
    count_where
      (is_member 1 3)
      (accept_invitation env 900 20 none 70 sam office).1.accounts.company_users
    ≤ 1
accept_invitation-one_membership_example =
    accept_invitation-one_membership env 900 20 none 70 sam office 1 3 one_before none_before
