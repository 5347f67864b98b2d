-- ===== src/Jobs/Exec/Keeps.antt =====
-- Invariants of the database under actions, one rule for each way to build an action.
use cad2ml.Prelude.{◌≡◌, refl, Bool, true, false, if◌then◌else◌}
use cad2ml.Jobs.Db.{Database, Result, ok, err, Failure}
use cad2ml.Jobs.Queue.{Client}
use cad2ml.Jobs.Exec.{
  World, Exec, pure, raise, on_db, read_db, on_redis, resume, ◌>>=◌, ◌>>◌, commit,
}

-- `m` keeps `P` of the database, whether it returns or raises.
pub record Keeps {c : Client} {A : Type 0} (P : Database → Type 0) (m : Exec (World c) A)
    : Type 0 where
  pub at : (w : World c) → P w.db → P (m w).0.db

module _ {c : Client} {P : Database → Type 0} where
  pub Keeps-pure : {A : Type 0} (a : A) → Keeps {c = c} P (pure a)
  unfolding pure
  Keeps-pure a = record { at = λ w h. h }

  pub Keeps-raise : {A : Type 0} (f : Failure) → Keeps {c = c} {A = A} P (raise f)
  unfolding raise
  Keeps-raise f = record { at = λ w h. h }

  pub Keeps-read_db : {A : Type 0} (f : Database → Result A) → Keeps {c = c} P (read_db f)
  unfolding read_db
  Keeps-read_db f = record { at = λ w h. h }

  pub Keeps-on_redis : (f : c.Store → c.Store) → Keeps {c = c} P (on_redis f)
  unfolding on_redis
  Keeps-on_redis f = record { at = λ w h. h }

  pub Keeps-on_db :
      {A : Type 0} (f : Database → Result (Database × A))
      → ((db : Database) → P db → (r : Database × A) → f db ≡ ok r → P r.0)
      → Keeps {c = c} P (on_db f)
  unfolding on_db
  Keeps-on_db {A} f k = record { at = λ w h. go w h (f w.db) refl }
    where
      go : (w : World c) → P w.db → (r : Result (Database × A)) → f w.db ≡ r → P (commit w r).0.db
      go w h (ok (db, a)) q = k w.db h (db, a) q
      go w h (err x) q = h

  pub Keeps-resume :
      {A B : Type 0} (f : A → Exec (World c) B) (r : Result A)
      → ((a : A) → Keeps P (f a))
      → Keeps P (resume f r)
  unfolding resume
  Keeps-resume f (ok a) k = k a
  Keeps-resume f (err x) k = record { at = λ w h. h }

  pub Keeps-bind :
      {A B : Type 0} (m : Exec (World c) A) (f : A → Exec (World c) B)
      → Keeps P m
      → ((a : A) → Keeps P (f a))
      → Keeps P (m >>= f)
  unfolding ◌>>=◌
  Keeps-bind m f km kf = record { at = λ w h. (Keeps-resume f (m w).1 kf).at (m w).0 (km.at w h) }

  pub Keeps-then :
      {A B : Type 0} (m : Exec (World c) A) (k : Exec (World c) B)
      → Keeps P m
      → Keeps P k
      → Keeps P (m >> k)
  unfolding ◌>>◌
  Keeps-then m k km kk = Keeps-bind m (λ _. k) km (λ _. kk)

  pub Keeps-if :
      {A : Type 0} (b : Bool) (m n : Exec (World c) A)
      → Keeps P m
      → Keeps P n
      → Keeps P (if b then m else n)
  Keeps-if true m n km kn = km
  Keeps-if false m n km kn = kn

pub ruleset keeps_rules =
    (Keeps-pure, Keeps-raise, Keeps-read_db, Keeps-on_redis, Keeps-bind, Keeps-then, Keeps-if)
