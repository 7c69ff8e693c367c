-- ===== src/Startup.antt =====
-- cmd/server/main.go: `run`, from the environment to the server that listens, and what it is made of.
-- The migrations and the script engine are those of internal/database; http.Server itself is not
-- modelled, and neither are the log lines.
pub mod Started
use securevault.Files.Node.{new_repo}
use securevault.Auth.Sessions.{new_service, set_registration_policy}
use securevault.Config.{Env, Config, load}
use securevault.Auth.Policy.{parse_registration_mode}
use securevault.Database.Migrations.{Outcome, migrate, Schema}
use securevault.Api.Guards.{new_server, Ui, Server}
use securevault.Effect.{pure, lift, World, M, call, ◌>>=◌, ◌>>◌}
use securevault.Storage.Store.{Store, new}
use securevault.Base.{
  if◌then◌else◌, nat_eq, string_eq, Bytes, bytes_eq, Fault, Error, Result, pg, internal, ok, err, ℕ,
  ◌-◌, ◌*◌, Bool, Option, List,
}
use securevault.Platform.{Platform}

-- The http.Server, with its limits in seconds.
pub record Listener : Type 0 where
  pub addr : Bytes
  pub handler : Server
  pub read_header_timeout : ℕ
  pub read_timeout : ℕ
  pub write_timeout : ℕ
  pub idle_timeout : ℕ

-- What `run` comes to before it listens: the server or the error, the database and the rest.
pub record Start (S : Type 0) : Type 0 where
  pub result : Result Listener
  pub schema : Schema S
  pub world : World

abbrev pub listener : Store → Bytes → Option Ui → Config → Listener
listener store mode ui cfg = record {
  addr = cfg.listen_addr;
  handler =
      new_server
        (set_registration_policy (record { mode = mode; max_users = cfg.max_users }) new_service)
        (new_repo store cfg.max_upload_bytes) cfg.dev cfg.max_upload_bytes ui;
  read_header_timeout = 10;
  read_timeout = 5 * 60;
  write_timeout = 5 * 60;
  idle_timeout = 2 * 60;
}

module _ (p : Platform) where
  -- pgxpool.New and Ping.
  unfoldable pub connect : M (Unit {0})
  unfolding call
  connect = call p >> call p

  -- From storage.New on.
  unfoldable pub assemble : Option Ui → Config → M Listener
  unfolding new parse_registration_mode set_registration_policy
  assemble ui cfg = do
    store ← new p cfg.data_dir cfg.master_key
    mode ← lift (parse_registration_mode p cfg.registration_mode)
    pure (listener store mode ui cfg)

module _ (p : Platform) {S : Type 0} (exec : Bytes → S → Option S) (fails : ℕ → Bool)
    (entries : List (Bytes × Bytes)) (ui : Option Ui) where
  abbrev pub stopped : Error → Schema S → World → Start S
  stopped e s w = record { result = err e; schema = s; world = w }

  abbrev pub ended : Schema S → Result Listener × World → Start S
  ended s (r, w) = record { result = r; schema = s; world = w }

  -- After database.Migrate.
  abbrev pub migrated : Config → Outcome S → World → Start S
  migrated cfg o w =
      if o.failed then stopped internal o.schema w else ended o.schema (assemble p ui cfg w)

  abbrev pub connected : Config → Schema S → Result (Unit {0}) × World → Start S
  connected cfg s (ok _, w) = migrated cfg (migrate exec fails entries s) w
  connected cfg s (err e, w) = stopped e s w

  abbrev pub configured : Result Config → Schema S → World → Start S
  configured (ok cfg) s w = connected cfg s (connect p w)
  configured (err e) s w = stopped e s w

  unfoldable pub run : Env → Schema S → World → Start S
  unfolding load connect migrate assemble
  run env s w = configured (load p env) s w
