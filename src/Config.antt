-- ===== src/Config.antt =====
-- internal/config/config.go: the environment, read and checked at the start. An unset variable reads
-- as the empty text, as for os.Getenv. Every error is an anonymous one.
pub mod Usable
pub mod Keys
use securevault.Auth.Policy.{is_mode}
use securevault.Text.{lower_text}
use securevault.Text.Numbers.{decode_hex, parse_int}
use securevault.Base.Chain.{or_error, ◌>>=◌, ◌>>◌, fail_if}
use securevault.Base.{
  ltb, if◌then◌else◌, ◌==◌, nat_eq, string_eq, Bytes, bytes_eq, length, Fault, Result, codes, ℤ,
  internal, ok, err, pos, ℕ, ◌-◌, ◌*◌, ◌/◌, String, code, Bool, not, Option, some, [],
}
use securevault.Platform.{Platform}

abbrev pub master_key_size : ℕ
master_key_size = 32

abbrev default_listen_addr : Bytes
default_listen_addr = codes "127.0.0.1:8080"

abbrev default_data_dir : Bytes
default_data_dir = codes "./data"

abbrev default_max_upload_bytes : ℕ
default_max_upload_bytes = 25 * 1048576

pub record Config : Type 0 where
  pub listen_addr : Bytes
  pub database_url : Bytes
  pub data_dir : Bytes
  pub master_key : Bytes
  pub max_upload_bytes : ℕ
  pub dev : Bool
  pub registration_mode : Bytes
  pub max_users : ℕ

abbrev pub Env : Type 0
Env = String → Bytes

abbrev pub env_or : Env → String → Bytes → Bytes
env_or env key fallback = if env key == [] then fallback else env key

unfoldable pub load_key : Env → Result Bytes
unfolding decode_hex
load_key env = do
  fail_if (env "SECUREVAULT_MASTER_KEY" == []) internal
  key ← or_error (decode_hex (env "SECUREVAULT_MASTER_KEY")) internal
  fail_if (not (length key == master_key_size)) internal
  ok key

-- A limit, of which 0 may be let through.
abbrev check_limit : ℕ → Option ℤ → Result ℕ
check_limit least (some (pos n)) = if ltb n least then err internal else ok n
check_limit least _ = err internal

unfoldable pub load_limit : Env → String → ℕ → ℕ → Result ℕ
unfolding parse_int
load_limit env key fallback least =
    if env key == [] then ok fallback else check_limit least (parse_int (env key))

unfoldable pub load_mode : Platform → Env → Result Bytes
unfolding lower_text
load_mode p env =
    let m = lower_text p (env_or env "REGISTRATION_MODE" (codes "open")) in
    if is_mode m then ok m else err internal

unfoldable pub load : Platform → Env → Result Config
unfolding load_key load_limit load_mode
load p env = do
  fail_if (env "DATABASE_URL" == []) internal
  key ← load_key env
  limit ← load_limit env "MAX_UPLOAD_BYTES" default_max_upload_bytes 1
  mode ← load_mode p env
  users ← load_limit env "MAX_USERS" 0 0
  ok (record {
    listen_addr = env_or env "LISTEN_ADDR" default_listen_addr;
    database_url = env "DATABASE_URL";
    data_dir = env_or env "DATA_DIR" default_data_dir;
    master_key = key;
    max_upload_bytes = limit;
    dev = env_or env "ENV" (codes "dev") == codes "dev";
    registration_mode = mode;
    max_users = users;
  })
