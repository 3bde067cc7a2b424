-- ===== src/Auth/Mfa/SingleUse.antt =====
-- A code of the second factor is good once, and time steps only go forward.
use new_builders_stream.Prelude.{
  ℕ, ◌+◌, ◌/◌, ◌≤◌, ◌<◌, ◌≡◌, refl, ap, inl, inr, ◌==◌, true, false, Bool-cases, Option, none, some,
  List, [], ◌∷◌, All, arith, ==_iff,
}
use mathlib.Core.Path.{subst}
use new_builders_stream.Auth.Accounts.{User, Environment}
use new_builders_stream.Auth.Mfa.{
  is_replay, try_steps, candidate_steps, totp_period_seconds, accepted, refused, verify_totp_code,
  check_code, verdict,
}

-- The step is later than the one used before, if there is one.
abbrev pub IsLater : ℕ → Option ℕ → Type 0
IsLater step none = Unit
IsLater step (some used) = used < step

is_replay-IsLater : (step : ℕ) (used : Option ℕ) → is_replay step used ≡ false → IsLater step used
unfolding is_replay
is_replay-IsLater step none h = tt
is_replay-IsLater step (some used) h = ground arith

is_replay_self : (step : ℕ) → is_replay step (some step) ≡ true
unfolding is_replay
is_replay_self step = ground arith

module _ (env : Environment) where
  -- Where the steps lie in a range, so does the step of an accepted code.
  try_steps_lem :
      (P : ℕ → Type 0) (secret : ℕ) (user user' : User) (code : ℕ) (steps : List ℕ)
      → All P steps
      → try_steps env secret user code steps ≡ some user'
      → (step : ℕ) × (code ≡ env.totp_at secret step)
        × P step
        × IsLater step user.totp_last_used_step
        × (user' ≡ record user { totp_last_used_step = some step })
        × (try_steps env secret user' code steps ≡ none)
  unfolding try_steps
  try_steps_lem P secret user user' code [] p h = absurd (cc)
  try_steps_lem P secret user user' code (step ∷ steps) p h =
      elim (Bool-cases (code == env.totp_at secret step)) [
        | inr e ↦
            let (s, a, b, c, d, again) =
              try_steps_lem P secret user user' code steps p.1 (rw e at h) in
            (s, a, b, c, d, rw e again)
        | inl e ↦ elim (Bool-cases (is_replay step user.totp_last_used_step)) [
          | inl r ↦ absurd (cc (rw (e, r) at h))
          | inr r ↦
              let stamped : user' ≡ record user { totp_last_used_step = some step } =
                cc (rw (e, r) at h) in
              (
                step,
                (==_iff code (env.totp_at secret step)).0 e,
                p.0,
                is_replay-IsLater step user.totp_last_used_step r,
                stamped,
                rw (e, stamped, is_replay_self step),
              )
        ]
      ]

  abbrev Shows : Option ℕ → User → User → ℕ → ℕ → Type 0
  Shows secret user user' code now =
      (encrypted step : ℕ) × (secret ≡ some encrypted)
      × (code ≡ env.totp_at (env.decrypt_token encrypted) step)
      × (now / totp_period_seconds ≤ step + 1)
      × (step ≤ now / totp_period_seconds + 1)
      × IsLater step user.totp_last_used_step
      × (user' ≡ record user { totp_last_used_step = some step })
      × (check_code env secret user' code now ≡ refused)

  verdict-accepted : (o : Option User) (user : User) → verdict o ≡ accepted user → o ≡ some user
  verdict-accepted none user h = absurd (cc)
  verdict-accepted (some u) user h = cc

  check_code_lem :
      (secret : Option ℕ) (user user' : User) (code now : ℕ)
      → check_code env secret user code now ≡ accepted user'
      → Shows secret user user' code now
  unfolding check_code
  check_code_lem none user user' code now h = absurd (cc)
  check_code_lem (some encrypted) user user' code now h =
      let current = now / totp_period_seconds in
      let (step, a, (near, near'), b, c, again) =
        try_steps_lem (λ s. (current ≤ s + 1) × (s ≤ current + 1)) (env.decrypt_token encrypted)
          user user' code (candidate_steps now)
          (
            (omega arith, omega arith),
            ((omega arith, omega arith), ((omega arith, omega arith), tt)),
          )
          (verdict-accepted _ user' h) in
      (encrypted, step, refl, a, near, near', b, c, rw again)

  -- What an accepted code shows: the user has a secret, the code is that of a step at most one away
  -- from the present one and later than the last step that was used, that step is recorded and
  -- nothing else of the user changes, and the code is refused if it is presented again at once.
  pub verify_totp_code_lem :
      (user user' : User) (code now : ℕ)
      → verify_totp_code env user code now ≡ accepted user'
      → (encrypted step : ℕ) × (user.totp_secret_encrypted ≡ some encrypted)
        × (code ≡ env.totp_at (env.decrypt_token encrypted) step)
        × (now / totp_period_seconds ≤ step + 1)
        × (step ≤ now / totp_period_seconds + 1)
        × IsLater step user.totp_last_used_step
        × (user' ≡ record user { totp_last_used_step = some step })
        × (verify_totp_code env user' code now ≡ refused)
  unfolding verify_totp_code
  verify_totp_code_lem user user' code now h =
      let (encrypted, step, e, a, near, near', b, c, again) =
        check_code_lem user.totp_secret_encrypted user user' code now h in
      (encrypted, step, e, a, near, near', b, c, rw c (rw c at again))

  -- A code that is accepted twice in a row, at whatever times, is the code of two different time
  -- steps of the user's secret.
  pub accepted_twice :
      (user user' user'' : User) (code now later : ℕ)
      → verify_totp_code env user code now ≡ accepted user'
      → verify_totp_code env user' code later ≡ accepted user''
      → (secret first second : ℕ) × (first < second)
        × (code ≡ env.totp_at secret first)
        × (code ≡ env.totp_at secret second)
  accepted_twice user user' user'' code now later h k =
      let (encrypted, first, e, a, _, _, _, c, _) = verify_totp_code_lem user user' code now h in
      let (encrypted', second, e', a', _, _, b', _, _) =
        verify_totp_code_lem user' user'' code later k in
      let same : encrypted' ≡ encrypted = cc (ap (λ (u : User). u.totp_secret_encrypted) c) in
      (
        env.decrypt_token encrypted,
        first,
        second,
        subst (IsLater second) (ap (λ (u : User). u.totp_last_used_step) c) b',
        a,
        subst (λ z. code ≡ env.totp_at (env.decrypt_token z) second) same a',
      )
