-- ===== src/Jobs/Manager/Keeps.antt =====
-- Invariants of actions of the manager, one rule for each way to build an action.
use dokploymigrator.Base.{
  Option, none, some, Bool, true, false, Result, ok, err, ◌≡◌, refl, if◌then◌else◌,
}
use dokploymigrator.State.Tables.{Store}
use dokploymigrator.State.Jobs.{Op}
use dokploymigrator.Jobs.Adapter.{DbAdapter}
use dokploymigrator.Jobs.Manager.{
  JobsError, World, M, pure, raise, lift, attempt, on_store, or_else, require_db, require_store,
  on_db, continue, handle, ◌>>=◌,
}

-- `m` keeps `P`, whether it returns a value or an error.
pub record Keeps {d : DbAdapter} {A : Type 0} (P : World d → Type 0) (m : M d A) : Type 0 where
  pub at : (w : World d) → P w → P (m w).1

module _ {d : DbAdapter} {A : Type 0} {P : World d → Type 0} where
  handled :
      (handler : JobsError d.Failure → M d A)
      → ((e : JobsError d.Failure) → Keeps P (handler e))
      → (r : Result (JobsError d.Failure) A × World d) → P r.1
      → P (handle handler r.0 r.1).1
  handled handler kh (ok a, w) h = h
  handled handler kh (err e, w) h = (kh e).at w h

  pub Keeps-pure : (a : A) → Keeps P (pure a)
  unfolding pure
  Keeps-pure a = record { at = λ w holds. holds }

  pub Keeps-attempt : (m : M d A) → Keeps P m → Keeps P (attempt m)
  unfolding attempt
  Keeps-attempt m k = record { at = λ w h. k.at w h }

  pub Keeps-raise : (e : JobsError d.Failure) → Keeps P (raise {A = A} e)
  unfolding raise
  Keeps-raise e = record { at = λ w holds. holds }

  pub Keeps-lift : (r : Result (JobsError d.Failure) A) → Keeps P (lift r)
  unfolding lift
  Keeps-lift r = record { at = λ w holds. holds }

  pub Keeps-or_else :
      (m : M d A) (handler : JobsError d.Failure → M d A)
      → Keeps P m
      → ((e : JobsError d.Failure) → Keeps P (handler e))
      → Keeps P (or_else m handler)
  unfolding or_else
  Keeps-or_else m handler km kh = record { at = λ w h. handled handler kh (m w) (km.at w h) }

  pub Keeps-if :
      (test : Bool) (yes_branch no_branch : M d A)
      → (test ≡ true → Keeps P yes_branch)
      → (test ≡ false → Keeps P no_branch)
      → Keeps P (if test then yes_branch else no_branch)
  Keeps-if true yes_branch no_branch on_true on_false = on_true refl
  Keeps-if false yes_branch no_branch on_true on_false = on_false refl

module _ {d : DbAdapter} {A : Type 0} {P : World d → Type 0} where
  Keeps-continue :
      {B : Type 0} (f : A → M d B) (r : Result (JobsError d.Failure) A)
      → ((a : A) → Keeps P (f a))
      → Keeps P (continue r f)
  Keeps-continue f (ok a) kf = kf a
  Keeps-continue f (err e) kf = record { at = λ w holds. holds }

  pub Keeps-bind :
      {B : Type 0} (m : M d A) (f : A → M d B)
      → Keeps P m
      → ((a : A) → Keeps P (f a))
      → Keeps P (m >>= f)
  unfolding ◌>>=◌
  Keeps-bind m f km kf = record {
    at = λ w h. let (r, w') = m w in (Keeps-continue f r kf).at w' (km.at w h);
  }

  pub Keeps-on_store :
      (op : Op A)
      → ((s : Store) (db : Option d.State)
          → P (record { store = some s; db = db })
          → P (record { store = some (op s).1; db = db }))
      → Keeps P (on_store op)
  unfolding on_store
  Keeps-on_store op k = record { at = λ w h. go w.store w.db h }
    where
      go :
          (store : Option Store) (db : Option d.State)
          → P (record { store = store; db = db })
          → P (on_store {d = d} op (record { store = store; db = db })).1
      go none db h = h
      go (some s) db h = k s db h

module _ {d : DbAdapter} {P : World d → Type 0} where
  pub Keeps-require_db : Keeps P (require_db {d = d})
  unfolding require_db
  Keeps-require_db = record { at = λ w h. go w.store w.db h }
    where
      go :
          (store : Option Store) (db : Option d.State)
          → P (record { store = store; db = db })
          → P (require_db {d = d} (record { store = store; db = db })).1
      go store none h = h
      go store (some x) h = h

  pub Keeps-require_store : Keeps P (require_store {d = d})
  unfolding require_store
  Keeps-require_store = record { at = λ w h. go w.store w.db h }
    where
      go :
          (store : Option Store) (db : Option d.State)
          → P (record { store = store; db = db })
          → P (require_store {d = d} (record { store = store; db = db })).1
      go none db h = h
      go (some s) db h = h

  pub Keeps-on_db :
      (op : d.State → Result d.Failure (Unit {0}) × d.State)
      → ((store : Option Store) (x : d.State)
          → P (record { store = store; db = some x })
          → P (record { store = store; db = some (op x).1 }))
      → Keeps P (on_db op)
  unfolding on_db
  Keeps-on_db op k = record { at = λ w h. go w.store w.db h }
    where
      go :
          (store : Option Store) (db : Option d.State)
          → P (record { store = store; db = db })
          → P (on_db {d = d} op (record { store = store; db = db })).1
      go store none h = h
      go store (some x) h = k store x h

pub ruleset keeps_rules = (
  Keeps-pure, Keeps-raise, Keeps-lift, Keeps-attempt, Keeps-or_else, Keeps-if, Keeps-bind,
  Keeps-require_db, Keeps-require_store,
)
