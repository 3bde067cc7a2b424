-- ===== src/Core/Exec.antt =====
-- An action of a request: it reads and writes the database, and returns or raises. What it wrote
-- before it raised is still in the session's database; Transaction.antt rolls it back.
pub mod Reads
pub mod Spares
pub mod Preserves
use new_builders_stream.Prelude.{ℕ, ◌+◌, ◌≡◌, refl, Bool, true, false, String, Option, none, some}
use new_builders_stream.Models.{Db}

-- fastapi.HTTPException by its status; the detail keeps the fixed part of the message.
-- `server_error` is any other exception.
pub data HttpError : Type 0 where
  bad_request too_many_requests gone : String → HttpError
  unauthorized forbidden not_found conflict too_large unprocessable server_error :
      String → HttpError

pub data Result (A : Type 0) : Type 0 where
  ok : A → Result A
  err : HttpError → Result A

abbrev pub Exec : Type 0 → Type 0
Exec A = Db → Result A × Db

module _ {A : Type 0} where
  abbrev pub pure : A → Exec A
  pure a db = (ok a, db)

  abbrev pub raise : HttpError → Exec A
  raise e db = (err e, db)

  -- A query.
  abbrev pub gets : (Db → A) → Exec A
  gets f db = (ok (f db), db)

  -- `scalar_one_or_none()` and the test for None that follows it.
  abbrev pub or_raise : HttpError → Option A → Exec A
  or_raise e none db = (err e, db)
  or_raise e (some a) db = (ok a, db)

abbrev pub resume : {A B : Type 0} → Result A × Db → (A → Exec B) → Result B × Db
resume (ok a, db) f = f a db
resume (err e, db) f = (err e, db)

infixl 5 ◌>>=◌ ◌>>◌
abbrev pub ◌>>=◌ : {A B : Type 0} → Exec A → (A → Exec B) → Exec B
◌>>=◌ m f db = resume (m db) f

abbrev pub ◌>>◌ : {A B : Type 0} → Exec A → Exec B → Exec B
m >> k = m >>= λ _. k

-- An insert, an update or a delete that is flushed.
abbrev pub modify : (Db → Db) → Exec (Unit {0})
modify f db = (ok tt, f db)

-- `if not test: raise e`.
abbrev pub require : Bool → HttpError → Exec (Unit {0})
require true e db = (ok tt, db)
require false e db = (err e, db)

-- `uuid.uuid4()`.
abbrev pub uuid4 : Exec ℕ
uuid4 db = (ok db.next_id, record db { next_id = db.next_id + 1 })

-- Inversion of a chain that returns.
pub >>=-eq-ok :
    {A B : Type 0} (m : Exec A) (k : A → Exec B) (db : Db) {b : B} {db' : Db}
    → (m >>= k) db ≡ (ok b, db')
    → (a : A) × (mid : Db) × (m db ≡ (ok a, mid)) × (k a mid ≡ (ok b, db'))
>>=-eq-ok {A} m k db {b} {db'} = go (m db) refl
  where
    go :
        (r : Result A × Db)
        → m db ≡ r
        → resume r k ≡ (ok b, db')
        → (a : A) × (mid : Db) × (m db ≡ (ok a, mid)) × (k a mid ≡ (ok b, db'))
    go (ok a, mid) e h = (a, mid, e, h)
    go (err x, mid) e h = absurd (cc)

-- A query for one row, and the error for a missing one.
abbrev pub fetch : {A : Type 0} → HttpError → (Db → Option A) → Exec A
fetch e query db = or_raise e (query db) db
