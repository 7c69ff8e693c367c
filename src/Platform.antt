-- ===== src/Platform.antt =====
-- What the program uses and does not implement: the outcome of its external calls, the clock, the
-- random source, and the functions of crypto/*, unicode, mime and net/http. All of it is an argument
-- of the definitions that use it. The calls of a run are numbered by `World.step`.
pub mod Laws
pub mod Sample
use securevault.Base.{
  if◌then◌else◌, nat_eq, string_eq, Bytes, bytes_eq, length, Fault, err, ℕ, suc, ◌-◌, ◌*◌, String,
  code, Bool, Option, none,
}

pub record Platform : Type 0 where
  -- How the external call with this number ends: `none` is success.
  pub fault : ℕ → Option Fault
  -- The clock at a call, in nanoseconds: PostgreSQL's now(), or time.Now().
  pub now : ℕ → ℕ
  -- gen_random_uuid() of a column default, at a call.
  pub uuid : ℕ → String
  -- The bytes that rand.Read puts in a buffer of the given length, at a call.
  pub random : ℕ → ℕ → Bytes
  -- What os.CreateTemp puts for the `*` of its pattern, at a call.
  pub temp_name : ℕ → Bytes
  -- sha256.Sum256
  pub sha256 : Bytes → Bytes
  -- AES-GCM with a 12-byte nonce: Seal and Open under a key, a nonce, a text and associated data.
  pub gcm_seal : Bytes → Bytes → Bytes → Bytes → Bytes
  pub gcm_open : Bytes → Bytes → Bytes → Bytes → Option Bytes
  -- unicode.IsPrint
  pub is_print : ℕ → Bool
  -- The media type that mime.ParseMediaType returns; `none` is an error.
  pub parse_media_type : String → Option String
  -- How many numbers of an identity column have been used up by inserts that failed since the newest
  -- row, at the call of this number.
  pub identity_gap : ℕ → ℕ
  -- The host that net.SplitHostPort returns; `none` is an error.
  pub split_host_port : String → Option String
  -- http.DetectContentType
  pub detect_content_type : Bytes → String
  -- strings.ToLower
  pub to_lower : String → String
  -- ORDER BY of a text column: whether the first text comes no later, in the database's collation
  pub collates : String → String → Bool
  -- strings.ToLower and strings.ToUpper of a text with a character beyond ASCII
  pub to_lower_wide : Bytes → Bytes
  pub to_upper_wide : Bytes → Bytes
  -- mime.FormatMediaType of an attachment with a file name, and strconv.FormatInt in base 10
  pub format_attachment : Bytes → Bytes
  pub format_int : ℕ → Bytes
  -- argon2.IDKey: the password, the salt, the time, the memory, the threads and the key's length
  pub argon2_id_key : Bytes → Bytes → ℕ → ℕ → ℕ → ℕ → Bytes
