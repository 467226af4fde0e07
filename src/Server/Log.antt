-- ===== src/Server/Log.antt =====
-- The statements that change the database, with what the program knows of their values, and handlers as sequences
-- of them, whether they return or fail: one rule for each way to build a handler.
pub mod Statements
pub mod Operations
pub mod Steps
pub mod Integrity
pub mod Changes
pub mod History
pub mod Reading
use khronos.Prelude.{◌≡◌, refl, sym, Bool, true, false, if◌then◌else◌, Bool-cases, inl, inr, arith}
use mathlib.Core.Path.{subst}
use khronos.Prelude.Result.{Result, ok, err, ok-injective}
use khronos.Prelude.Exec.{Exec, pure, lift, continue, ◌>>=◌}
use khronos.Values.{DateTime}
use khronos.External.{External}
use khronos.Db.Error.{DbError}
use khronos.Db.Schema.{Db}
use khronos.Server.State.{
  loaded, stored, kept, Server, EngineEvent, db_write, db_read, db_try, notify, spawn_timer,
}
use khronos.Server.Log.Statements.{Statement}

pub data Log (x : External) (db : Db) : Db → Type 0 where
  untouched : Log x db db
  ran : (before after : Db) → Log x db before → Statement x before after → Log x db after

-- an operation of the database that is a statement, or several, where it succeeds
pub record IsStatement (x : External) (f : Db → Result Db DbError) : Type 0 where
  pub at : (db : Db) {db' : Db} → f db ≡ ok db' → Log x db db'

pub record IsLogged (x : External) {E A : Type 0} (m : Exec Server E A) : Type 0 where
  pub at : (s : Server) → Log x s.db (m s).1.db

module _ {x : External} where
  pub Log-append : {a b c : Db} → Log x a b → Log x b c → Log x a c
  Log-append first untouched = first
  Log-append first (ran before after rest last) = ran before after (Log-append first rest) last

  pub IsStatement-one :
      (f : Db → Result Db DbError)
      → ((db db' : Db) → f db ≡ ok db' → Statement x db db')
      → IsStatement x f
  IsStatement-one f one = record { at = λ db {db' = d} h. ran db d untouched (one db d h) }

  -- a statement that depends on a test of the database
  pub IsStatement-if :
      (test : Db → Bool) (f g : Db → Result Db DbError)
      → IsStatement x f
      → IsStatement x g
      → IsStatement x (λ db. if test db then f db else g db)
  IsStatement-if test f g sf sg = record {
    at = λ db {db' = d} h. elim (Bool-cases (test db)) [
      | inl e ↦ sf.at db {db' = d} (ground arith)
      | inr e ↦ sg.at db {db' = d} (ground arith)
    ];
  }

  pub IsStatement-ok : IsStatement x (λ db. ok db)
  IsStatement-ok = record { at = λ db {db' = d} h. subst (Log x db) (ok-injective h) untouched }

module _ {x : External} {E A : Type 0} where
  pub IsLogged-pure : (a : A) → IsLogged x {E = E} (pure a)
  IsLogged-pure a = record { at = λ s. untouched }

  pub IsLogged-lift : (r : Result A E) → IsLogged x (lift r)
  IsLogged-lift r = record { at = λ s. untouched }

  pub IsLogged-if :
      (b : Bool) (m n : Exec Server E A)
      → IsLogged x m
      → IsLogged x n
      → IsLogged x (if b then m else n)
  IsLogged-if true m n lm ln = lm
  IsLogged-if false m n lm ln = ln

  read_logged :
      (f : DbError → E) (s : Server) (r : Result A DbError) → Log x s.db (loaded f s r).1.db
  read_logged f s (ok a) = untouched
  read_logged f s (err e) = untouched

  pub IsLogged-db_read :
      (f : DbError → E) (run : Db → Result A DbError) → IsLogged x (db_read f run)
  IsLogged-db_read f run = record { at = λ s. read_logged f s (run s.db) }

module _ {x : External} {E A B : Type 0} where
  continue_logged :
      (r : Result A E) (f : A → Exec Server E B) (s : Server)
      → ((a : A) → r ≡ ok a → IsLogged x (f a))
      → Log x s.db (continue r f s).1.db
  continue_logged (ok a) f s logs = (logs a refl).at s
  continue_logged (err e) f s logs = untouched

  pub IsLogged-bind :
      (m : Exec Server E A) (f : A → Exec Server E B)
      → IsLogged x m
      → ((a : A) → IsLogged x (f a))
      → IsLogged x (m >>= f)
  IsLogged-bind m f lm lf = record {
    at = λ s. Log-append (lm.at s) (continue_logged (m s).0 f (m s).1 (λ a e. lf a));
  }

  -- where what follows depends on where its value is from
  pub IsLogged-bind_lift :
      (r : Result A E) (f : A → Exec Server E B)
      → ((a : A) → r ≡ ok a → IsLogged x (f a))
      → IsLogged x (lift r >>= f)
  IsLogged-bind_lift r f lf = record { at = λ s. continue_logged r f s lf }

sent_logged :
    {x : External} (b : Bool) (db : Db) (s t : Server)
    → s.db ≡ db
    → t.db ≡ db
    → Log x db (if b then s else t).db
sent_logged {x} true db s t es et = subst (Log x db) (sym es) untouched
sent_logged {x} false db s t es et = subst (Log x db) (sym et) untouched

try_logged :
    {x : External} (s : Server) (r : Result Db DbError)
    → ((db' : Db) → r ≡ ok db' → Log x s.db db')
    → Log x s.db (kept s r).db
try_logged s (ok db) after = after db refl
try_logged s (err e) after = untouched

module _ {x : External} {E : Type 0} where
  write_logged :
      (f : DbError → E) (s : Server) (r : Result Db DbError)
      → ((db' : Db) → r ≡ ok db' → Log x s.db db')
      → Log x s.db (stored f s r).1.db
  write_logged f s (ok db) after = after db refl
  write_logged f s (err e) after = untouched

  pub IsLogged-db_write :
      (f : DbError → E) (run : Db → Result Db DbError)
      → IsStatement x run
      → IsLogged x (db_write f run)
  IsLogged-db_write f run logs = record {
    at = λ s. write_logged f s (run s.db) (λ db'. logs.at s.db {db' = db'});
  }

  pub IsLogged-db_try :
      (run : Db → Result Db DbError) → IsStatement x run → IsLogged x (db_try {E = E} run)
  IsLogged-db_try run logs = record {
    at = λ s. try_logged s (run s.db) (λ db'. logs.at s.db {db' = db'});
  }

  pub IsLogged-notify : (event : EngineEvent) → IsLogged x (notify {E = E} event)
  IsLogged-notify event = record { at = λ s. sent_logged s.engine_tx s.db _ s refl refl }

  pub IsLogged-spawn_timer :
      (now at : DateTime) (event : EngineEvent) → IsLogged x (spawn_timer {E = E} now at event)
  IsLogged-spawn_timer now at event = record { at = λ s. untouched }

pub ruleset log_rules = (
  IsLogged-pure, IsLogged-lift, IsLogged-if, IsLogged-db_read, IsLogged-bind, IsLogged-db_write,
  IsLogged-db_try, IsLogged-notify, IsLogged-spawn_timer,
)
