-- ===== src/Auth/Invitations.antt =====
-- backend/app/routers/invitations.py: how a company's administrator brings in a member. The names of
-- users and the lengths of passwords are left out, and so is the mail.
pub mod Accept
use new_builders_stream.Prelude.{
  ℕ, ◌+◌, ◌*◌, ◌==◌, ◌&&◌, ◌||◌, ltb, not, any, if◌then◌else◌, is_none, Bool, true, false, Option,
  none, some, String, List, [], ◌∷◌, ◌++◌,
}
use new_builders_stream.Prelude.Table.{find, replace, select}
use new_builders_stream.Models.{Db, CurrentUser, Role, admin, AuditLog, MetaValue, text}
use new_builders_stream.Core.Exec.{
  HttpError, Result, ok, err, not_found, conflict, gone, unauthorized, unprocessable,
}
use new_builders_stream.Core.Access.{get, post, delete, authorize_write, require_role}
use new_builders_stream.Auth.Accounts.{
  User, CompanyUser, Accounts, Environment, find_by_email, log_action, ◌>>=◌, ◌>>◌, require,
  or_raise,
}

pub record Invitation : Type 0 where
  pub id : ℕ
  pub company_id : ℕ
  pub email : String
  pub role : Role
  pub expires_at : ℕ
  pub accepted_at : Option ℕ

-- The invitations, and the accounts that they lead to.
pub record Office : Type 0 where
  pub accounts : Accounts
  pub invitations : List Invitation

pub record InvitationCreateRequest : Type 0 where
  pub email : String
  pub role : Role

pub record InvitationAcceptRequest : Type 0 where
  pub full_name : Option String
  pub password : Option ℕ

-- INVITATION_TTL_DAYS, in seconds.
abbrev invitation_ttl : ℕ
invitation_ttl = 7 * 86400

-- A transaction that commits after its checks.
abbrev pub decided :
    {A B : Type 0} → Office → Result A → (A → Result B × Office) → Result B × Office
decided s (ok a) write = write a
decided s (err e) write = (err e, s)

unfoldable pub create_invitation :
    CurrentUser → ℕ → ℕ → InvitationCreateRequest → Db → Office → Result Invitation × Office
create_invitation current now id payload db s =
    decided s ((authorize_write current (admin ∷ []) post db).0) λ _.
      let invitation : Invitation = record {
        id = id;
        company_id = current.company_id;
        email = payload.email;
        role = payload.role;
        expires_at = now + invitation_ttl;
        accepted_at = none;
      } in
      let entry : AuditLog = record {
        company_id = current.company_id;
        actor_id = some current.user_id;
        action = "invitation.created";
        entity_type = "invitation";
        entity_id = id;
        log_metadata = ("email", text payload.email) ∷ [];
      } in
      (
        ok invitation,
        record {
          accounts = record s.accounts { audit_log = entry ∷ s.accounts.audit_log };
          invitations = invitation ∷ s.invitations;
        },
      )

-- A row of the invitation's company and of the user.
abbrev pub is_member : ℕ → ℕ → CompanyUser → Bool
is_member company_id user_id m = m.company_id == company_id && m.user_id == user_id

abbrev pub already_accepted : HttpError
already_accepted = conflict "Invitation already accepted"

-- The membership that an invitation gives.
abbrev pub membership : ℕ → Invitation → User → CompanyUser
membership now invitation user = record {
  company_id = invitation.company_id;
  user_id = user.id;
  role = invitation.role;
  created_at = now;
}

abbrev pub signed_in : Option ℕ → ℕ → Bool
signed_in none user_id = false
signed_in (some authenticated) user_id = authenticated == user_id

module _ (env : Environment) where
  -- A new account needs a name and a password.
  unfoldable pub new_user :
      ℕ → Invitation → InvitationAcceptRequest → Accounts → Result (User × Accounts)
  new_user new_id invitation payload s = do
    require (not (is_none payload.full_name))
        (unprocessable "full_name and password are required to create a new account")
    password ←
        or_raise (unprocessable "full_name and password are required to create a new account")
          payload.password
    let user : User = record {
      id = new_id;
      email = invitation.email;
      password_hash = env.hash_password password;
      mfa_activated_at = none;
      totp_secret_encrypted = none;
      totp_last_used_step = none;
    }
    ok (user, record s { users = user ∷ s.users })

  -- An account that exists joins only if the caller has signed in as it.
  unfoldable pub existing_user : Option ℕ → Invitation → User → Accounts → Result (User × Accounts)
  existing_user authenticated_user_id invitation existing s = do
    require (signed_in authenticated_user_id existing.id)
        (unauthorized "An account already exists for this address")
    require (not (any (is_member invitation.company_id existing.id) s.company_users))
        (conflict "You are already a member of this company")
    ok (existing, s)

  -- By what is found for the invitation's address.
  unfoldable pub joining_by :
      ℕ
      → Option ℕ
      → Invitation
      → InvitationAcceptRequest
      → Accounts
      → Option User
      → Result (User × Accounts)
  joining_by new_id authenticated_user_id invitation payload s none =
      new_user new_id invitation payload s
  joining_by new_id authenticated_user_id invitation payload s (some existing) =
      existing_user authenticated_user_id invitation existing s

  unfoldable pub joining_user :
      ℕ → Option ℕ → Invitation → InvitationAcceptRequest → Accounts → Result (User × Accounts)
  joining_user new_id authenticated_user_id invitation payload s =
      joining_by new_id authenticated_user_id invitation payload s
        (find_by_email invitation.email s.users)

  unfoldable pub accept_checks :
      ℕ
      → ℕ
      → Option ℕ
      → ℕ
      → InvitationAcceptRequest
      → Office
      → Result (Invitation × User × Accounts)
  accept_checks now new_id authenticated_user_id invitation_id payload s = do
    invitation ←
        or_raise (not_found "Invitation not found") (find (λ r. r.id) invitation_id s.invitations)
    require (is_none invitation.accepted_at) already_accepted
    require (not (ltb invitation.expires_at now)) (gone "Invitation has expired")
    joining ← joining_user new_id authenticated_user_id invitation payload s.accounts
    ok (invitation, joining.0, joining.1)

  unfoldable pub joined : ℕ → Invitation → User → Accounts → Office → Result Invitation × Office
  joined now invitation user accounts s =
      let accepted : Invitation = record invitation { accepted_at = some now } in
      (
        ok accepted,
        record {
          accounts =
              log_action invitation.company_id user.id "invitation.accepted" "invitation"
                invitation.id
                (record accounts {
                  company_users = membership now invitation user ∷ accounts.company_users;
                });
          invitations = replace (λ r. r.id) accepted s.invitations;
        },
      )

  unfoldable pub accept_invitation :
      ℕ → ℕ → Option ℕ → ℕ → InvitationAcceptRequest → Office → Result Invitation × Office
  accept_invitation now new_id authenticated_user_id invitation_id payload s =
      decided s (accept_checks now new_id authenticated_user_id invitation_id payload s)
        λ (invitation, user, accounts). joined now invitation user accounts s

-- ORDER BY expires_at DESC, id.
unfoldable pub insert_by_expiry : Invitation → List Invitation → List Invitation
insert_by_expiry a [] = a ∷ []
insert_by_expiry a (b ∷ rows) =
    if ltb b.expires_at a.expires_at || (a.expires_at == b.expires_at && ltb a.id b.id)
    then a ∷ b ∷ rows
    else b ∷ insert_by_expiry a rows

unfoldable pub by_expiry : List Invitation → List Invitation
by_expiry [] = []
by_expiry (a ∷ rows) = insert_by_expiry a (by_expiry rows)

unfoldable pub list_invitations : CurrentUser → Bool → Db → Office → Result (List Invitation)
list_invitations current include_accepted db s = do
  (require_role current (admin ∷ []) db).0
  ok (
      by_expiry (
        select
          (λ r. r.company_id == current.company_id && (include_accepted || is_none r.accepted_at))
          s.invitations))

unfoldable pub revocable : CurrentUser → ℕ → Db → Office → Result Invitation
revocable current invitation_id db s = do
  (authorize_write current (admin ∷ []) delete db).0
  invitation ← or_raise (not_found "Invitation not found") (
      find (λ r. r.id) invitation_id
        (select (λ r. r.company_id == current.company_id) s.invitations))
  require (is_none invitation.accepted_at) (conflict "This invitation was already accepted")
  ok invitation

unfoldable pub revoke_invitation : CurrentUser → ℕ → Db → Office → Result (Unit {0}) × Office
revoke_invitation current invitation_id db s =
    decided s (revocable current invitation_id db s) λ invitation. (
      ok tt,
      record {
        accounts =
            log_action current.company_id current.user_id "invitation.revoked" "invitation"
              invitation_id s.accounts;
        invitations = select (λ r. not (r.id == invitation.id)) s.invitations;
      },
    )
