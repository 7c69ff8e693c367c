-- ===== src/Config/Usable.antt =====
-- What a configuration that is loaded satisfies.
use securevault.Text.{decode_rune, lower_text, trim_space}
use securevault.Auth.Policy.{mode_closed, mode_invite, mode_open, parse_registration_mode, is_mode}
use securevault.Text.Numbers.{parse_int}
use securevault.Config.{
  master_key_size, Env, check_limit, load_mode, Config, load_key, load_limit, load,
}
use mathlib.Core.Path.{subst}
use securevault.Base.Chain.{ok-injective}
use securevault.Base.Chain.{fail_if_ok, chain_ok}
use securevault.Base.{
  Bool-cases, ◌==◌, eq_iff, nat_eq, string_eq, Bytes, bytes_beq, bytes_eq, eq_cases, length, ℤ, ok,
  pos, ℕ, ◌≤◌, String, ◌≡◌, refl, ◌≢◌, inl, inr, true, Option, some, [], arith,
}
use securevault.Platform.{Platform}

pub record IsUsable (p : Platform) (c : Config) : Type 0 where
  pub url : c.database_url ≢ []
  pub key : length c.master_key ≡ master_key_size
  pub upload : (1 ≤ c.max_upload_bytes) × (c.max_upload_bytes ≤ 9223372036854775807)
  pub users : c.max_users ≤ 9223372036854775807
  pub mode : is_mode c.registration_mode ≡ true
  pub accepted : parse_registration_mode p c.registration_mode ≡ ok c.registration_mode

load_key_ok : (env : Env) {key : Bytes} → load_key env ≡ ok key → length key ≡ master_key_size
unfolding load_key
load_key_ok env h = chain_ok _ _ h λ _ set h1. chain_ok _ _ h1 λ key decoded h2.
    chain_ok _ _ h2 λ _ sized h3. elim (eq_cases (length key) master_key_size) [
      | inl (_, same) ↦ cc (same, h3)
      | inr (other, _) ↦ absurd (cc (fail_if_ok _ _ sized, other))
    ]

parse_int_bound : (s : Bytes) (n : ℕ) → parse_int s ≡ some (pos n) → n ≤ 9223372036854775807
unfolding parse_int
parse_int_bound s n h = ground arith

check_limit_ok :
    (least : ℕ) (o : Option ℤ) {n : ℕ}
    → check_limit least o ≡ ok n
    → (o ≡ some (pos n)) × (least ≤ n)
check_limit_ok least o h = ground arith

load_limit_ok :
    (env : Env) (key : String) (fallback least : ℕ) {n : ℕ}
    → load_limit env key fallback least ≡ ok n
    → least ≤ fallback
    → fallback ≤ 9223372036854775807
    → (least ≤ n) × (n ≤ 9223372036854775807)
unfolding load_limit
load_limit_ok env key fallback least {n} h low high = elim (Bool-cases (env key == [])) [
  | inl unset ↦ ground arith
  | inr given ↦
      let (parsed, low') = check_limit_ok least (parse_int (env key)) (rw (given) at h) in
      (low', parse_int_bound (env key) n parsed)
]

load_mode_ok : (p : Platform) (env : Env) {m : Bytes} → load_mode p env ≡ ok m → is_mode m ≡ true
unfolding load_mode
load_mode_ok p env h = ground arith

-- A mode as `load` keeps it is one that the server takes.
parse-eq_of_mode :
    (p : Platform) (m : Bytes) → is_mode m ≡ true → parse_registration_mode p m ≡ ok m
unfolding bytes_beq decode_rune parse_registration_mode trim_space lower_text
parse-eq_of_mode p m h = elim (eq_cases m mode_open) [
  | inl (_, same) ↦ rw (same) refl
  | inr (not_open, _) ↦ elim (eq_cases m mode_invite) [
    | inl (_, same) ↦ rw (same) refl
    | inr (not_invite, _) ↦ elim (eq_cases m mode_closed) [
      | inl (_, same) ↦ rw (same) refl
      | inr (not_closed, _) ↦ absurd (ground (arith, not_open, not_invite, not_closed, h))
    ]
  ]
]

-- A configuration that is loaded has a database address, a key of 32 bytes, an upload limit from 1
-- to the largest int64, a cap on users up to the largest int64, and a registration mode that the
-- authentication service accepts as it is.
pub load-IsUsable : (p : Platform) (env : Env) {c : Config} → load p env ≡ ok c → IsUsable p c
unfolding load
load-IsUsable p env {c} h = chain_ok _ _ h λ _ given h1. chain_ok _ _ h1 λ key got_key h2.
    chain_ok _ _ h2 λ limit got_limit h3. chain_ok _ _ h3 λ m got_mode h4.
      chain_ok _ _ h4 λ users got_users h5.
        let c_eq = ok-injective h5 in
        let (upload_low, upload_high) =
          load_limit_ok env "MAX_UPLOAD_BYTES" 26214400 1 got_limit (omega arith) (omega arith) in
        let (_, users_high) =
          load_limit_ok env "MAX_USERS" 0 0 got_users (omega arith) (omega arith) in
        let mode_ok = load_mode_ok p env got_mode in
        subst (IsUsable p) c_eq (record {
          url =
              λ empty. ground (arith, eq_iff (env "DATABASE_URL") [], fail_if_ok _ _ given, empty);
          key = load_key_ok env got_key;
          upload = (upload_low, upload_high);
          users = users_high;
          mode = mode_ok;
          accepted = parse-eq_of_mode p m mode_ok;
        })
