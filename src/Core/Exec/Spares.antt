-- ===== src/Core/Exec/Spares.antt =====
-- Actions that leave some tables alone, and only move the next identifier forward.
use new_builders_stream.Prelude.{◌≤◌, ◌≡◌, refl, ◌∙◌, Bool, true, false, arith, if◌then◌else◌}
use new_builders_stream.Models.{Db}
use new_builders_stream.Core.Exec.{Exec, Result, ok, err, modify, resume, ◌>>=◌}
use new_builders_stream.Core.Exec.Reads.{Reads}

module _ {T : Type 0} (tables : Db → T) where
  pub record Spares {A : Type 0} (m : Exec A) : Type 0 where
    pub kept : (db : Db) → tables (m db).1 ≡ tables db
    pub forward : (db : Db) → db.next_id ≤ (m db).1.next_id

  module _ {A : Type 0} where
    pub Spares-Reads : (m : Exec A) → Reads m → Spares m
    Spares-Reads m r = record { kept = λ db. rw r.same; forward = λ db. rw r.same (omega arith) }

    pub Spares-if : (b : Bool) (m k : Exec A) → Spares m → Spares k → Spares (if b then m else k)
    Spares-if true m k hm hk = hm
    Spares-if false m k hm hk = hk

  pub Spares-modify :
      (f : Db → Db)
      → ((db : Db) → tables (f db) ≡ tables db)
      → ((db : Db) → (f db).next_id ≡ db.next_id)
      → Spares (modify f)
  Spares-modify f same next = record { kept = same; forward = λ db. omega (arith, next db) }

  pub Spares-bind :
      {A B : Type 0} (m : Exec A) (k : A → Exec B)
      → Spares m
      → ((a : A) → Spares (k a))
      → Spares (m >>= k)
  Spares-bind {A} {B} m k hm hk = record {
    kept = λ db. kept_by (m db) ∙ hm.kept db;
    forward = λ db. omega (arith, forward_by (m db), hm.forward db);
  }
    where
      kept_by : (r : Result A × Db) → tables (resume r k).1 ≡ tables r.1
      kept_by (ok a, db) = (hk a).kept db
      kept_by (err e, db) = refl

      forward_by : (r : Result A × Db) → r.1.next_id ≤ (resume r k).1.next_id
      forward_by (ok a, db) = (hk a).forward db
      forward_by (err e, db) = omega arith
