-- ===== src/Tests/Startup.antt =====
-- The configuration and the migrations, run.

use securevault.Startup.{listener, Listener}
use securevault.Startup.Started.{IsConfigured, run-IsStarted, run-starts, IsStarted}
use securevault.Tests.{start}
use securevault.Text.{lower_text}
use securevault.Text.Numbers.{decode_hex, digits, parse_int}
use securevault.Storage.Store.{hex_digit, hex}
use securevault.Config.Usable.{load-IsUsable, IsUsable}
use securevault.Database.Migrations.Rerun.{migrate-again}
use securevault.Database.Migrations.Prefix.{apply_all-IsPrefix, pending, IsPrefix}
use securevault.Database.Migrations.{
  insert_migration, sort_migrations, prefix, apply_one, parse_version, apply_all, read_entries,
  load_migrations, apply_loaded, Migration, Outcome, migrate, Schema,
}
use securevault.Config.{load_mode, load_limit, load, load_key, Env, Config}
use securevault.Base.Chain.{◌>>=◌}
use securevault.Base.{
  if◌then◌else◌, ◌==◌, nat_eq, string_eq, Bytes, bytes_beq, bytes_eq, replicate, Result, codes, ok,
  err, ℕ, ◌≡◌, refl, Bool, false, Option, none, some, List, [], ◌∷◌,
}
use securevault.Startup
use securevault.Platform.Sample.{sample}

abbrev master_key : Bytes
master_key = replicate 32 171

abbrev variables : Env
variables key =
    if key == "DATABASE_URL"
    then codes "postgres://"
    else if key == "SECUREVAULT_MASTER_KEY"
    then hex master_key
    else if key == "REGISTRATION_MODE"
    then codes "Invite"
    else []

abbrev loaded : Result Config
loaded = load sample variables

abbrev config_of : Result Config → Config
config_of (ok c) = c
config_of (err e) = record {
  listen_addr = [];
  database_url = [];
  data_dir = [];
  master_key = [];
  max_upload_bytes = 0;
  dev = false;
  registration_mode = [];
  max_users = 0;
}

loaded_eq : load sample variables ≡ ok (config_of loaded)
unfolding load load_key load_limit load_mode parse_int lower_text decode_hex hex hex_digit bytes_beq
    ◌>>=◌
loaded_eq = refl

load-IsUsable_example : IsUsable sample (config_of loaded)
load-IsUsable_example = load-IsUsable sample variables loaded_eq

abbrev files_of_migrations : List (Bytes × Bytes)
files_of_migrations =
    (codes "0002_shares.sql", codes "CREATE TABLE grants")
    ∷ (codes "0001_schema.sql", codes "CREATE TABLE users")
    ∷ []

abbrev first_migration : Migration
first_migration = record {
  version = 1;
  name = codes "0001_schema.sql";
  sql = codes "CREATE TABLE users";
}

abbrev second_migration : Migration
second_migration = record {
  version = 2;
  name = codes "0002_shares.sql";
  sql = codes "CREATE TABLE grants";
}

-- A database that keeps the scripts it ran.
abbrev keep_script : Bytes → List Bytes → Option (List Bytes)
keep_script sql ran = some (sql ∷ ran)

abbrev empty_schema : Schema (List Bytes)
empty_schema = record { tables = []; versions = [] }

abbrev never : ℕ → Bool
never t = false

abbrev migrated : Outcome (List Bytes)
migrated = migrate keep_script never files_of_migrations empty_schema

apply_all-IsPrefix_example :
    IsPrefix keep_script
      (pending 1 (first_migration ∷ second_migration ∷ []))
      empty_schema
      0
      (apply_all keep_script never 4 1 0 (first_migration ∷ second_migration ∷ []) empty_schema)
apply_all-IsPrefix_example =
    apply_all-IsPrefix keep_script never 4 1 0 (first_migration ∷ second_migration ∷ [])
      empty_schema

migrated_eq : migrated.failed ≡ false
unfolding migrate apply_loaded apply_all apply_one load_migrations read_entries parse_version prefix
    parse_int digits sort_migrations insert_migration bytes_beq ◌>>=◌
migrated_eq = refl

migrate-again_example :
    ((migrate keep_script never files_of_migrations migrated.schema).applied ≡ 0)
    × ((migrate keep_script never files_of_migrations migrated.schema).schema ≡ migrated.schema)
migrate-again_example =
    migrate-again keep_script never never files_of_migrations empty_schema migrated_eq

abbrev config : Config
config = config_of loaded

run-starts_example :
    (l : Listener) × ((Startup.run sample keep_script never files_of_migrations none variables
        empty_schema start).result
      ≡ ok l)
    × IsConfigured config none l
run-starts_example =
    run-starts sample keep_script never files_of_migrations none variables empty_schema start config
      (λ t. refl) loaded_eq migrated_eq

-- The server that is started with these variables.
abbrev started : Listener
started =
    (run-starts sample keep_script never files_of_migrations none variables empty_schema start
      config (λ t. refl) loaded_eq migrated_eq).0

started_eq :
    (Startup.run sample keep_script never files_of_migrations none variables empty_schema
      start).result
    ≡ ok started
started_eq =
    (run-starts sample keep_script never files_of_migrations none variables empty_schema start
      config (λ t. refl) loaded_eq migrated_eq).1

run-IsStarted_example :
    IsStarted sample variables none started
    × ((migrate keep_script never files_of_migrations empty_schema).failed ≡ false)
run-IsStarted_example =
    run-IsStarted sample keep_script never files_of_migrations none variables empty_schema start
      started_eq
