-- ===== src/Jobs/Exec.antt =====
-- What the API and the worker share, the database and the transport, and actions on both that may
-- raise: an exception keeps what was committed before it.
pub mod Keeps
use cad2ml.Jobs.Db.{Database, Result, ok, err, Failure}
use cad2ml.Jobs.Queue.{Client}

pub record World (c : Client) : Type 0 where
  pub db : Database
  pub redis : c.Store

abbrev pub Exec : Type 0 → Type 0 → Type 0
Exec S A = S → S × Result A

module _ {S : Type 0} where
  unfoldable pub pure : {A : Type 0} → A → Exec S A
  pure a s = (s, ok a)

  unfoldable pub raise : {A : Type 0} → Failure → Exec S A
  raise f s = (s, err f)

  unfoldable pub resume : {A B : Type 0} → (A → Exec S B) → Result A → Exec S B
  resume f (ok a) s = f a s
  resume f (err x) s = (s, err x)

  infixl 5 ◌>>=◌ ◌>>◌
  unfoldable pub ◌>>=◌ : {A B : Type 0} → Exec S A → (A → Exec S B) → Exec S B
  unfolding resume
  ◌>>=◌ m f s = let (s', r) = m s in resume f r s'

  unfoldable pub ◌>>◌ : {A B : Type 0} → Exec S A → Exec S B → Exec S B
  unfolding ◌>>=◌
  m >> k = m >>= λ _. k

-- A call that returns nothing but the new state.
abbrev pub no_value : Result Database → Result (Database × Unit {0})
no_value (ok db) = ok (db, tt)
no_value (err x) = err x

module _ {c : Client} where
  abbrev pub commit : {A : Type 0} → World c → Result (Database × A) → World c × Result A
  commit w (err x) = (w, err x)
  commit w (ok (db, a)) = (record w { db = db }, ok a)

  -- A call of the database that returns a value beside the new state.
  unfoldable pub on_db : {A : Type 0} → (Database → Result (Database × A)) → Exec (World c) A
  on_db f w = commit w (f w.db)

  unfoldable pub read_db : {A : Type 0} → (Database → Result A) → Exec (World c) A
  read_db f w = (w, f w.db)

  unfoldable pub on_redis : (c.Store → c.Store) → Exec (World c) (Unit {0})
  on_redis f w = (record w { redis = f w.redis }, ok tt)
