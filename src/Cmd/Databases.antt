-- ===== src/Cmd/Databases.antt =====
-- What the commands of cmd/dokploy-migrator/main.go do to the Dokploy databases.
use dokploymigrator.Base.{
  Text, [], none, some, Bool, text_eq, Result, ok, err, Result-cases, Option-cases, Bool-cases, ◌≡◌,
  ◌≢◌, refl, ap, arith, ◌⊎◌, inl, inr,
}
use dokploymigrator.Model.{MigrationPlan}
use dokploymigrator.Config.{Config, require_dokploy_db}
use dokploymigrator.State.Opening.{Disk, OpenError}
use dokploymigrator.Cmd.Runtime.{
  Process, Machine, CliError, put, Runtime, connect, build_runtime, if_opened, leave, put_database,
  run_with, with_runtime, read_plan, direct_or_wrapped, wrapped_plan,
}

wrapped_plan-ok :
    (wrapped : Result Text MigrationPlan) (plan : MigrationPlan)
    → wrapped_plan wrapped ≡ ok plan
    → (wrapped ≡ ok plan) × (plan.id ≢ [])
unfolding wrapped_plan
wrapped_plan-ok (err e) plan h = cc
wrapped_plan-ok (ok q) plan h = ground arith

direct_or_wrapped-ok :
    (direct wrapped : Result Text MigrationPlan) (plan : MigrationPlan)
    → direct_or_wrapped direct wrapped ≡ ok plan
    → (plan.id ≢ []) × ((direct ≡ ok plan) ⊎ (wrapped ≡ ok plan))
unfolding direct_or_wrapped
direct_or_wrapped-ok (err e) wrapped plan h =
    let (found, named) = wrapped_plan-ok wrapped plan h in (named, inr found)
direct_or_wrapped-ok (ok q) wrapped plan h = elim (text_eq.dec q.id []) [
  | yes e ↦ let (found, named) = wrapped_plan-ok wrapped plan (ground arith) in (named, inr found)
  | no n ↦ (ground arith, inl (ground arith))
]

-- `readPlan` never returns a plan without an ID, and what it returns is what the file holds: a plan,
-- or a record with the plan.
pub read_plan-ok :
    (p : Process) (path : Text) (m : Machine) (plan : MigrationPlan)
    → read_plan p path m ≡ ok plan
    → (body : Text) × (m.files path ≡ ok body)
      × (plan.id ≢ [])
      × ((p.decode_direct body ≡ ok plan) ⊎ (p.decode_wrapped body ≡ ok plan))
unfolding read_plan
read_plan-ok p path m plan h = elim (Result-cases (m.files path)) [
  | inl (body, read) ↦
      let (named, found) =
        direct_or_wrapped-ok (p.decode_direct body) (p.decode_wrapped body) plan (rw read at h) in
      (body, read, named, found)
  | inr (e, unread) ↦ absurd (ground arith)
]

pub put-same : {A : Type 0} (key : Text) (at : Text → A) (k : Text) → put key (at key) at k ≡ at k
put-same key at k = elim (text_eq.dec key k) [ yes e ↦ rw e (ground arith) | no n ↦ ground arith ]

module _ (p : Process) (cfg : Config) where
  -- A runtime has no database, or the one that a DSN names which is not empty.
  abbrev pub IsConnected : Machine → Runtime p cfg → Type 0
  IsConnected m w =
      (w.db ≡ none)
      ⊎ ((w.db ≡ some (m.databases cfg.dokploy_postgres_dsn)) × (cfg.dokploy_postgres_dsn ≢ []))

  dsn_given : (u : Unit {0}) → require_dokploy_db cfg ≡ ok u → cfg.dokploy_postgres_dsn ≢ []
  unfolding require_dokploy_db
  dsn_given u h = ground arith

  connect-IsConnected :
      (require_db : Bool) (disk : Disk) (m : Machine) (w : Runtime p cfg)
      → connect p cfg require_db disk m ≡ ok w
      → IsConnected m w
  unfolding connect
  connect-IsConnected require_db disk m w h = elim (Result-cases (require_dokploy_db cfg)) [
    | inl (u, given) ↦ elim (Option-cases (p.sql_open cfg.dokploy_postgres_dsn)) [
      | inl opened ↦ inr (ground arith, dsn_given u given)
      | inr (e, failed) ↦ absurd (ground arith)
    ]
    | inr (e, missing) ↦ elim (Bool-cases require_db) [
      | inl required ↦ absurd (ground arith)
      | inr optional ↦ inl (ground arith)
    ]
  ]

  if_opened-ok :
      (opened : Result OpenError (Unit {0})) (next : Result CliError (Runtime p cfg))
      (w : Runtime p cfg)
      → if_opened p cfg opened next ≡ ok w
      → next ≡ ok w
  if_opened-ok (err e) next w h = absurd (ground arith)
  if_opened-ok (ok u) next w h = h

  build_runtime-IsConnected :
      (require_db : Bool) (m : Machine) (w : Runtime p cfg)
      → (build_runtime p cfg require_db m).0 ≡ ok w
      → IsConnected m w
  unfolding build_runtime
  build_runtime-IsConnected require_db m w h =
      connect-IsConnected require_db _ m w (if_opened-ok _ _ w h)

  build_runtime-databases :
      (require_db : Bool) (m : Machine)
      → (build_runtime p cfg require_db m).1.databases ≡ m.databases
  unfolding build_runtime
  build_runtime-databases require_db m = refl

  module _ {A : Type 0} (require_db : Bool)
      (action : Runtime p cfg → Result CliError A × Runtime p cfg) (m : Machine) where
    run_with-databases :
        (built : Result CliError (Runtime p cfg)) (m' : Machine)
        → ((w : Runtime p cfg) → built ≡ ok w → IsConnected m w)
        → m'.databases ≡ m.databases
        → ((run_with p cfg built action m').1.databases ≡ m.databases)
          ⊎ ((w : Runtime p cfg) × IsConnected m w
              × ((run_with p cfg built action m').1.databases
                  ≡ put_database p cfg (action w).1.db m.databases))
    unfolding run_with leave
    run_with-databases (err e) m' connected same = inl same
    run_with-databases (ok w) m' connected same =
        inr (w, connected w refl, ap (put_database p cfg (action w).1.db) same)

    -- A command leaves the databases as they are, or leaves what its action made of the one that is
    -- connected.
    pub with_runtime-databases :
        ((with_runtime p cfg require_db action m).1.databases ≡ m.databases)
        ⊎ ((w : Runtime p cfg) × IsConnected m w
            × ((with_runtime p cfg require_db action m).1.databases
                ≡ put_database p cfg (action w).1.db m.databases))
    unfolding with_runtime
    with_runtime-databases =
        run_with-databases (build_runtime p cfg require_db m).0 (build_runtime p cfg require_db m).1
          (build_runtime-IsConnected require_db m) (build_runtime-databases require_db m)
