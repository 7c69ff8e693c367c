-- ===== src/Storage/Store.antt =====
-- internal/storage/store.go: staging, publishing, reading and removing objects.
use securevault.Base.{
  ltb, if◌then◌else◌, is_some, ◌==◌, nat_eq, string_eq, Bytes, bytes_eq, length, take, drop, Error,
  Result, lookup, insert, codes, no_object, corrupt, too_large, internal, ok, err, ℕ, suc, ◌+◌, ◌-◌,
  ◌/◌, ◌%◌, Bool, true, false, not, ◌||◌, Option, none, some, List, [], ◌∷◌, ◌++◌,
}
use securevault.Platform.{Platform}
use securevault.Effect.{
  attempt, lift, M, World, pure, ◌>>=◌, ◌>>◌, gets, modify, raise_if, ignore, on_error, os_call,
}
use securevault.Storage.Crypto.{nonce_size, new_dek, wrap_dek, unwrap_dek, encrypt, decrypt}
use securevault.Storage.Disk.{create_temp, write, remove_file, rename, read_file, content_at}

abbrev pub hash_size : ℕ
hash_size = 32

abbrev pub obj_magic : Bytes
obj_magic = codes "SVL1"

pub record Store : Type 0 where
  pub root : Bytes
  pub kek : Bytes

-- `handle` names the Go object, of which `World.done` keeps the `done` field.
pub record Staged : Type 0 where
  pub hash : Bytes
  pub size : ℕ
  pub wrapped_dek : Bytes
  pub tmp_path : Bytes
  pub handle : ℕ

-- An io.Reader: what it yields, and then its error, or the end.
pub record Reader : Type 0 where
  pub content : Bytes
  pub failure : Option Error

-- The largest int64.
abbrev pub max_int64 : ℕ
max_int64 = 9223372036854775807

-- `limit+1` in int64, as io.LimitReader takes it: past the largest one it is negative, and a reader
-- limited to a negative count is at its end at once.
unfoldable pub read_limit : ℕ → ℕ
read_limit limit = if ltb limit max_int64 then suc limit else 0

-- io.ReadAll(io.LimitReader(r, n)): the reader's error is met only where the bytes do not fill n.
unfoldable pub read_all : Reader → ℕ → Result Bytes
read_all r n =
    if ltb (length r.content) n
    then elim r.failure [ none ↦ ok r.content | some e ↦ err e ]
    else ok (take n r.content)

unfoldable pub hex_digit : ℕ → ℕ
hex_digit d = if ltb d 10 then b'0' + d else b'a' + (d - 10)

-- hex.EncodeToString
unfoldable pub hex : Bytes → Bytes
unfolding hex_digit
hex [] = []
hex (b ∷ s) = hex_digit (b / 16) ∷ hex_digit (b % 16) ∷ hex s

-- filepath.Join of clean parts.
unfoldable pub object_path : Store → Bytes → Bytes
unfolding hex
object_path s hash =
    let h = hex hash in s.root ++ codes "/objects/" ++ take 2 h ++ codes "/" ++ h ++ codes ".obj"

abbrev pub is_done : ℕ → World → Bool
is_done handle w = elim (lookup handle w.done) [ none ↦ false | some b ↦ b ]

abbrev pub set_done : ℕ → Bool → World → World
set_done handle b w = record w { done = insert handle b w.done }

-- errors.Is(err, os.ErrNotExist)
abbrev pub is_not_exist : Error → Bool
is_not_exist no_object = true
is_not_exist _ = false

abbrev pub is_failure : Result (Unit {0}) → Bool
is_failure (ok _) = false
is_failure (err e) = not (is_not_exist e)

module _ (p : Platform) where
  unfoldable pub new : Bytes → Bytes → M Store
  unfolding os_call
  new dir kek = do
    raise_if (not (length kek == 32)) internal
    os_call p
    os_call p
    pure (record { root = dir; kek = kek })

  -- The loop over the three parts.
  unfoldable pub write_parts : Bytes → List Bytes → M (Unit {0})
  write_parts path [] = pure tt
  write_parts path (part ∷ parts) = write p path part >> write_parts path parts

  -- From os.CreateTemp on: the parts, Sync and Close, with the cleanup of each.
  unfoldable pub write_temp : Store → List Bytes → M Bytes
  unfolding write_parts os_call
  write_temp s parts = do
    tmp ← create_temp p (s.root ++ codes "/tmp") (codes "staged-")
    on_error (ignore (os_call p) >> ignore (remove_file p tmp)) (λ _. internal)
        (write_parts tmp parts >> os_call p)
    on_error (ignore (remove_file p tmp)) (λ _. internal) (os_call p)
    pure tmp

  unfoldable pub stage : Store → Reader → ℕ → M Staged
  stage s r limit = do
    raise_if (limit == 0) internal
    plaintext ← lift (read_all r (read_limit limit))
    raise_if (ltb limit (length plaintext)) too_large
    let hash = p.sha256 plaintext
    dek ← new_dek p
    wrapped ← wrap_dek p s.kek dek hash
    (nonce, sealed) ← encrypt p dek plaintext hash
    tmp ← write_temp s (obj_magic ∷ nonce ∷ sealed ∷ [])
    handle ← gets (λ w. w.step)
    modify (set_done handle false)
    pure (record {
      hash = hash;
      size = length plaintext;
      wrapped_dek = wrapped;
      tmp_path = tmp;
      handle = handle;
    })

  -- The directory is opened and fsynced after the rename, and errors of that are dropped.
  unfoldable pub commit : Store → Staged → M (Unit {0})
  unfolding object_path os_call
  commit s st = do
    finalized ← gets (is_done st.handle)
    raise_if finalized internal
    modify (set_done st.handle true)
    let dst = object_path s st.hash
    on_error (ignore (remove_file p st.tmp_path)) (λ _. internal) (os_call p)
    on_error (ignore (remove_file p st.tmp_path)) (λ _. internal) (rename p st.tmp_path dst)
    ignore (os_call p)

  unfoldable pub abort : Staged → M (Unit {0})
  abort st = do
    finalized ← gets (is_done st.handle)
    if finalized
        then pure tt
        else (modify (set_done st.handle true) >> ignore (remove_file p st.tmp_path))

  -- The checks of `Open` on the bytes of an object file.
  unfoldable pub verify : Store → Bytes → Bytes → Bytes → M Bytes
  verify s hash wrapped_dek raw = do
    raise_if
        (ltb (length raw) (length obj_magic + nonce_size)
          || not (take (length obj_magic) raw == obj_magic))
        corrupt
    let nonce = take nonce_size (drop (length obj_magic) raw)
    let sealed = drop (length obj_magic + nonce_size) raw
    dek ← on_error (pure tt) (λ _. corrupt) (unwrap_dek p s.kek wrapped_dek hash)
    plaintext ← on_error (pure tt) (λ _. corrupt) (decrypt p dek nonce sealed hash)
    raise_if (not (p.sha256 plaintext == hash)) corrupt
    pure plaintext

  unfoldable pub open_object : Store → Bytes → Bytes → M Bytes
  unfolding verify
  open_object s hash wrapped_dek = do
    raise_if (not (length hash == hash_size)) internal
    raw ← read_file p (object_path s hash)
    verify s hash wrapped_dek raw

  unfoldable pub exists : Store → Bytes → M Bool
  unfolding os_call
  exists s hash w =
      let (r, w') = os_call p w in
      elim r [
        | ok _ ↦ (ok (is_some (content_at (object_path s hash) w')), w')
        | err _ ↦ (ok false, w')
      ]

  -- A missing file is not an error.
  unfoldable pub remove : Store → Bytes → M (Unit {0})
  unfolding object_path
  remove s hash = do
    r ← attempt (remove_file p (object_path s hash))
    raise_if (is_failure r) internal
