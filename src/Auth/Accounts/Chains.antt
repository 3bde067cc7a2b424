-- ===== src/Auth/Accounts/Chains.antt =====
-- Chains of checks that return, and what a transaction that commits has written.
use new_builders_stream.Prelude.{◌≡◌, refl, Bool, true, false, Option, none, some}
use new_builders_stream.Core.Exec.{Result, ok, err, HttpError}
use new_builders_stream.Auth.Accounts.{Accounts, ◌>>=◌, or_raise, committed, require}

pub >>=-eq-ok :
    {A B : Type 0} (check : Result A) (next : A → Result B) {b : B}
    → (check >>= next) ≡ ok b
    → (found : A) × (check ≡ ok found) × (next found ≡ ok b)
>>=-eq-ok (err raised) next passed = absurd (cc)
>>=-eq-ok (ok found) next passed = (found, refl, passed)

pub or_raise-eq-ok :
    {A : Type 0} (e : HttpError) (o : Option A) {a : A} → or_raise e o ≡ ok a → o ≡ some a
or_raise-eq-ok e none h = absurd (cc)
or_raise-eq-ok e (some a) h = cc

pub committed-eq-ok :
    {A B : Type 0} (s : Accounts) (m : Result A) (write : A → Result B × Accounts) {b : B}
    {s' : Accounts}
    → committed s m write ≡ (ok b, s')
    → (a : A) × (m ≡ ok a) × (write a ≡ (ok b, s'))
committed-eq-ok s (ok a) write h = (a, refl, h)
committed-eq-ok s (err e) write h = absurd (cc)

pub require-eq-ok : (b : Bool) (e : HttpError) {u : Unit {0}} → require b e ≡ ok u → b ≡ true
require-eq-ok true e h = refl
require-eq-ok false e h = absurd (cc)
