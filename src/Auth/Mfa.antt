-- ===== src/Auth/Mfa.antt =====
-- backend/app/services/mfa.py (verify_totp_code) and the second factor of a sign-in.
pub mod SingleUse
use new_builders_stream.Prelude.{
  ℕ, ◌+◌, ◌-◌, ◌/◌, ◌==◌, leb, Bool, true, false, if◌then◌else◌, Option, none, some, List, [], ◌∷◌,
}
use new_builders_stream.Auth.Accounts.{User, Environment}

-- TOTP_PERIOD_SECONDS.
abbrev pub totp_period_seconds : ℕ
totp_period_seconds = 30

-- `candidate_step <= user.totp_last_used_step`.
unfoldable pub is_replay : ℕ → Option ℕ → Bool
is_replay step none = false
is_replay step (some used) = leb step used

-- `no_secret` is the RuntimeError of a user without a stored secret; the row that an accepted code
-- leaves comes with it.
pub data Verification : Type 0 where
  accepted : User → Verification
  refused no_secret : Verification

abbrev pub verdict : Option User → Verification
verdict none = refused
verdict (some user) = accepted user

-- `for offset in (0, -1, 1)`, for a clock after the first half minute of 1970.
abbrev pub candidate_steps : ℕ → List ℕ
candidate_steps now =
    let current = now / totp_period_seconds in current ∷ (current - 1) ∷ (current + 1) ∷ []

module _ (env : Environment) where
  -- The loop over the steps: the first that gives the code decides. The user after an accepted code,
  -- and none for a refused one.
  unfoldable pub try_steps : ℕ → User → ℕ → List ℕ → Option User
  unfolding is_replay
  try_steps secret user code [] = none
  try_steps secret user code (step ∷ steps) =
      if code == env.totp_at secret step
      then if is_replay step user.totp_last_used_step
        then none
        else some (record user { totp_last_used_step = some step })
      else try_steps secret user code steps

  unfoldable pub check_code : Option ℕ → User → ℕ → ℕ → Verification
  check_code none user code now = no_secret
  check_code (some encrypted) user code now =
      verdict (try_steps (env.decrypt_token encrypted) user code (candidate_steps now))

  unfoldable pub verify_totp_code : User → ℕ → ℕ → Verification
  unfolding check_code
  verify_totp_code user code now = check_code user.totp_secret_encrypted user code now
