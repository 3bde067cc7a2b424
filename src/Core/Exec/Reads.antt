-- ===== src/Core/Exec/Reads.antt =====
-- Actions that only read: they return or raise, and the database is as it was.
use new_builders_stream.Prelude.{◌≡◌, refl, ap, sym, ◌∙◌, Bool, true, false, Option, none, some}
use mathlib.Core.Path.{subst}
use new_builders_stream.Models.{Db}
use new_builders_stream.Core.Exec.{
  Exec, HttpError, Result, ok, err, pure, raise, gets, require, or_raise, fetch, resume, ◌>>=◌,
  ◌>>◌, >>=-eq-ok,
}

pub record Reads {A : Type 0} (m : Exec A) : Type 0 where
  pub same : (db : Db) → (m db).1 ≡ db

module _ {A : Type 0} where
  pub Reads-pure : (a : A) → Reads (pure a)
  Reads-pure a = record { same = λ db. refl }

  pub Reads-raise : (e : HttpError) → Reads (raise {A = A} e)
  Reads-raise e = record { same = λ db. refl }

  pub Reads-gets : (f : Db → A) → Reads (gets f)
  Reads-gets f = record { same = λ db. refl }

  or_raise-same : (e : HttpError) (o : Option A) (db : Db) → (or_raise e o db).1 ≡ db
  or_raise-same e none db = refl
  or_raise-same e (some a) db = refl

  pub Reads-or_raise : (e : HttpError) (o : Option A) → Reads (or_raise e o)
  Reads-or_raise e o = record { same = or_raise-same e o }

  pub Reads-fetch : (e : HttpError) (query : Db → Option A) → Reads (fetch e query)
  Reads-fetch e query = record { same = λ db. or_raise-same e (query db) db }

require-same : (b : Bool) (e : HttpError) (db : Db) → (require b e db).1 ≡ db
require-same true e db = refl
require-same false e db = refl

pub Reads-require : (b : Bool) (e : HttpError) → Reads (require b e)
Reads-require b e = record { same = require-same b e }

-- A test of the database, as `require` makes it.
pub Reads-test : (test : Db → Bool) (e : HttpError) → Reads (λ db. require (test db) e db)
Reads-test test e = record { same = λ db. require-same (test db) e db }

module _ {A B : Type 0} where
  -- What holds after an action that reads, by what it returned.
  pub after_read :
      (P : Db → Type 0) (m : Exec A) (k : A → Exec B) (db : Db)
      → Reads m
      → P db
      → ((a : A) → m db ≡ (ok a, db) → P (k a db).1)
      → P ((m >>= k) db).1
  after_read P m k db reads here after = go (m db) refl
    where
      go : (r : Result A × Db) → m db ≡ r → P (resume r k).1
      go (err e, db') q = subst P (sym (reads.same db) ∙ ap (λ (r : Result A × Db). r.1) q) here
      go (ok a, db') q =
          let e : db' ≡ db = sym (ap (λ (r : Result A × Db). r.1) q) ∙ reads.same db in
          rw e (after a (rw q (rw e)))

  pub Reads-bind :
      (m : Exec A) (k : A → Exec B) → Reads m → ((a : A) → Reads (k a)) → Reads (m >>= k)
  Reads-bind m k hm hk = record {
    same = λ db. after_read (λ x. x ≡ db) m k db hm refl (λ a _. (hk a).same db);
  }

pub ruleset reads_rules = (
  Reads-pure, Reads-raise, Reads-gets, Reads-or_raise, Reads-fetch, Reads-require, Reads-test,
  Reads-bind,
)

-- What a check or a query that passed has found.
pub require-eq-ok :
    (b : Bool) (e : HttpError) (db : Db) {u : Unit {0}} {db' : Db}
    → require b e db ≡ (ok u, db')
    → b ≡ true
require-eq-ok true e db h = refl
require-eq-ok false e db h = absurd (cc)

module _ {A : Type 0} where
  pub or_raise-eq-ok :
      (e : HttpError) (o : Option A) (db : Db) {a : A} {db' : Db}
      → or_raise e o db ≡ (ok a, db')
      → o ≡ some a
  or_raise-eq-ok e none db h = absurd (cc)
  or_raise-eq-ok e (some x) db h = cc

  -- A row that is fetched, checked and returned.
  pub checked_row :
      (e : HttpError) (query : Db → Option A) (check : A → Exec (Unit {0})) (db : Db) {a : A}
      {db' : Db}
      → (fetch e query >>= λ x. check x >> pure x) db ≡ (ok a, db')
      → query db ≡ some a
  checked_row e query check db h =
      let (x, mid, f, rest) = >>=-eq-ok (fetch e query) (λ x. check x >> pure x) db h in
      let (_, mid', _, p) = >>=-eq-ok (check x) (λ _. pure x) mid rest in
      cc (or_raise-eq-ok e (query db) db f)

-- A chain that returns after an action that reads: the rest runs on the same database.
pub after_read-eq-ok :
    {A B : Type 0} (m : Exec A) (k : A → Exec B) (db : Db) {b : B} {db' : Db}
    → Reads m
    → (m >>= k) db ≡ (ok b, db')
    → (a : A) × (m db ≡ (ok a, db)) × (k a db ≡ (ok b, db'))
after_read-eq-ok {A} {B} m k db {b} {db'} reads h =
    let (a, mid, r, q) = >>=-eq-ok m k db h in
    let same : mid ≡ db = sym (ap (λ (x : Result A × Db). x.1) r) ∙ reads.same db in
    (a, subst (λ t. m db ≡ (ok a, t)) same r, subst (λ t. k a t ≡ (ok b, db')) same q)

-- A chain that returns after a check or a fetched value, and one that ends in a value.
pub require-ok :
    {A : Type 0} (b : Bool) (e : HttpError) (k : Unit {0} → Exec A) (db : Db) {a : A} {db' : Db}
    → (require b e >>= k) db ≡ (ok a, db')
    → (b ≡ true) × (k tt db ≡ (ok a, db'))
require-ok true e k db h = (refl, h)
require-ok false e k db h = absurd (cc)

pub returns-ok :
    {A B : Type 0} (m : Exec A) (b : B) (db : Db) {x : B} {db' : Db}
    → (m >>= λ _. pure b) db ≡ (ok x, db')
    → x ≡ b
returns-ok m b db h = let (_, mid, _, q) = >>=-eq-ok m (λ _. pure b) db h in cc

pub or_raise-ok :
    {A B : Type 0} (e : HttpError) (o : Option A) (k : A → Exec B) (db : Db) {b : B} {db' : Db}
    → (or_raise e o >>= k) db ≡ (ok b, db')
    → (a : A) × (o ≡ some a) × (k a db ≡ (ok b, db'))
or_raise-ok e none k db h = absurd (cc)
or_raise-ok e (some a) k db h = (a, refl, h)

-- What an action leaves is what it and a value after it leave.
pub then-pure_db :
    {A B : Type 0} (m : Exec A) (b : B) (db : Db) → ((m >>= λ _. pure b) db).1 ≡ (m db).1
then-pure_db {A} {B} m b db = go (m db)
  where
    go : (r : Result A × Db) → (resume r (λ _. pure b)).1 ≡ r.1
    go (ok a, db') = refl
    go (err e, db') = refl

-- A chain raises, and writes nothing, if it reads first and then raises whatever it has read.
pub after_read-raises :
    {A B : Type 0} (m : Exec A) (k : A → Exec B) (db : Db)
    → Reads m
    → ((a : A) → m db ≡ (ok a, db) → (e : HttpError) × (k a db ≡ (err e, db)))
    → (e : HttpError) × ((m >>= k) db ≡ (err e, db))
after_read-raises {A} {B} m k db reads raises = go (m db) refl
  where
    go : (r : Result A × Db) → m db ≡ r → (e : HttpError) × ((m >>= k) db ≡ (err e, db))
    go (err e, db') q =
        let same : db' ≡ db = sym (ap (λ (x : Result A × Db). x.1) q) ∙ reads.same db in
        (e, rw (q, same, resume))
    go (ok a, db') q =
        let same : db' ≡ db = sym (ap (λ (x : Result A × Db). x.1) q) ∙ reads.same db in
        let (e, raised) = raises a (subst (λ t. m db ≡ (ok a, t)) same q) in
        (e, rw (q, same, resume) raised)

pub require-raises :
    {A : Type 0} (b : Bool) (x : HttpError) (k : Unit {0} → Exec A) (db : Db)
    → b ≡ false
    → (e : HttpError) × ((require b x >>= k) db ≡ (err e, db))
require-raises true x k db h = absurd (cc)
require-raises false x k db h = (x, refl)
