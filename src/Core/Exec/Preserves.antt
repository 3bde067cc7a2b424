-- ===== src/Core/Exec/Preserves.antt =====
-- Actions that preserve a property of the database, whether they return or raise.
use new_builders_stream.Prelude.{Bool, true, false, if◌then◌else◌}
use new_builders_stream.Models.{Db}
use new_builders_stream.Core.Exec.{Exec, Result, ok, err, modify, resume, ◌>>=◌}
use new_builders_stream.Core.Exec.Reads.{Reads}

module _ (P : Db → Type 0) where
  pub record Preserves {A : Type 0} (m : Exec A) : Type 0 where
    pub keep : (db : Db) → P db → P (m db).1

  module _ {A : Type 0} where
    pub Preserves-Reads : (m : Exec A) → Reads m → Preserves m
    Preserves-Reads m r = record { keep = λ db h. rw r.same h }

    pub Preserves-if :
        (b : Bool) (m k : Exec A) → Preserves m → Preserves k → Preserves (if b then m else k)
    Preserves-if true m k hm hk = hm
    Preserves-if false m k hm hk = hk

  pub Preserves-modify : (f : Db → Db) → ((db : Db) → P db → P (f db)) → Preserves (modify f)
  Preserves-modify f h = record { keep = h }

  pub Preserves-bind :
      {A B : Type 0} (m : Exec A) (k : A → Exec B)
      → Preserves m
      → ((a : A) → Preserves (k a))
      → Preserves (m >>= k)
  Preserves-bind {A} {B} m k hm hk = record { keep = λ db h. go (m db) (hm.keep db h) }
    where
      go : (r : Result A × Db) → P r.1 → P (resume r k).1
      go (ok a, db) h = (hk a).keep db h
      go (err e, db) h = h
