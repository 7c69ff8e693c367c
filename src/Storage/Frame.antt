-- ===== src/Storage/Frame.antt =====
-- What the calls of the store leave alone: the database and the audit log always, and on the disk
-- every file but their own.
use securevault.Storage.Crypto.{
  dek_size, decrypt, unwrap_dek, encrypt, wrap_dek, new_gcm, new_dek, random_bytes,
}
use securevault.Storage.Store.{
  verify, Reader, Staged, object_path, open_object, abort, remove, write_temp, stage, commit, Store,
  set_done, write_parts,
}
use securevault.Base.{
  eq_iff, nat_eq, string_eq, Bytes, bytes_eq, lookup-without, lookup-insert, codes, ok, ℕ, ◌≡◌, ◌≢◌,
  Bool, Option, List, [], ◌∷◌, ◌++◌, arith,
}
use securevault.Platform.{Platform}
use securevault.Database.Schema.{Db, AuditRow}
use securevault.Effect.{◌>>=◌, os_call, modify, World}
use securevault.Effect.Keeps.{
  Keeps-bind_where, Keeps-bind, Keeps, keeps_rules, Keeps-modify, Keeps-os_call,
}
use securevault.Storage.Disk.{
  create_temp, read_file, remove_file, rename, write, content_at, put_file, drop_file,
}

-- A file, the database and the audit log are as given.
pub record Frame (path : Bytes) (c : Option Bytes) (d : Db) (es : List AuditRow) (w : World)
    : Type 0 where
  pub file : content_at path w ≡ c
  pub tables : w.db ≡ d
  pub events : w.audit_events ≡ es

-- The files that os.CreateTemp makes for the store.
abbrev pub temp_path : Store → Bytes → Bytes
temp_path s suffix = (s.root ++ codes "/tmp") ++ codes "/" ++ codes "staged-" ++ suffix

-- A file that is none of the store's temporary files.
abbrev pub IsNoTemp : Store → Bytes → Type 0
IsNoTemp s path = (suffix : Bytes) → temp_path s suffix ≢ path

pub create_temp-path :
    (p : Platform) (s : Store) (w : World) {tmp : Bytes} {w' : World}
    → create_temp p (s.root ++ codes "/tmp") (codes "staged-") w ≡ (ok tmp, w')
    → tmp ≡ temp_path s (p.temp_name w.step)
unfolding create_temp ◌>>=◌
create_temp-path p s w h = ground arith

module _ (p : Platform) (path : Bytes) (c : Option Bytes) (d : Db) (es : List AuditRow) where
  pub Frame-os_call : Keeps (Frame path c d es) (os_call p)
  Frame-os_call =
      Keeps-os_call p λ w h. record { file = h.file; tables = h.tables; events = h.events }

  pub Frame-put :
      (other content : Bytes)
      → other ≢ path
      → Keeps (Frame path c d es) (modify (put_file other content))
  Frame-put other content ne = Keeps-modify _ λ w h. record {
    file = ground (arith, lookup-insert path other content w.disk, eq_iff other path, h.file);
    tables = h.tables;
    events = h.events;
  }

  pub Frame-drop :
      (other : Bytes) → other ≢ path → Keeps (Frame path c d es) (modify (drop_file other))
  Frame-drop other ne = Keeps-modify _ λ w h. record {
    file = ground (arith, lookup-without path other w.disk, eq_iff other path, h.file);
    tables = h.tables;
    events = h.events;
  }

  pub Frame-set_done :
      (handle : ℕ) (b : Bool) → Keeps (Frame path c d es) (modify (set_done handle b))
  Frame-set_done handle b =
      Keeps-modify _ λ w h. record { file = h.file; tables = h.tables; events = h.events }

  ruleset frame_rules = (keeps_rules, Frame-os_call, Frame-put, Frame-drop, Frame-set_done)

  Frame-write : (other part : Bytes) → other ≢ path → Keeps (Frame path c d es) (write p other part)
  unfolding write
  Frame-write other part ne = search frame_rules

  Frame-remove_file :
      (other : Bytes) → other ≢ path → Keeps (Frame path c d es) (remove_file p other)
  unfolding remove_file
  Frame-remove_file other ne = search frame_rules

  Frame-rename :
      (old new : Bytes) → old ≢ path → new ≢ path → Keeps (Frame path c d es) (rename p old new)
  unfolding rename
  Frame-rename old new ne ne' = search frame_rules

  Frame-read_file : (other : Bytes) → Keeps (Frame path c d es) (read_file p other)
  unfolding read_file
  Frame-read_file other = search frame_rules

  Frame-write_parts :
      (other : Bytes) (parts : List Bytes)
      → other ≢ path
      → Keeps (Frame path c d es) (write_parts p other parts)
  unfolding write_parts
  Frame-write_parts other [] ne = search frame_rules
  Frame-write_parts other (part ∷ parts) ne =
      Keeps-bind _ _ (Frame-write other part ne) (λ _. Frame-write_parts other parts ne)

  Frame-random_bytes : (n : ℕ) → Keeps (Frame path c d es) (random_bytes p n)
  unfolding random_bytes
  Frame-random_bytes n = search frame_rules

  Frame-new_gcm : (key : Bytes) → Keeps (Frame path c d es) (new_gcm key)
  unfolding new_gcm
  Frame-new_gcm key = search frame_rules

  ruleset disk_rules = (
    frame_rules, Frame-write, Frame-remove_file, Frame-rename, Frame-read_file, Frame-write_parts,
    Frame-random_bytes, Frame-new_gcm,
  )

  Frame-new_dek : Keeps (Frame path c d es) (new_dek p)
  unfolding new_dek
  Frame-new_dek = Frame-random_bytes dek_size

  Frame-wrap_dek : (kek dek aad : Bytes) → Keeps (Frame path c d es) (wrap_dek p kek dek aad)
  unfolding wrap_dek
  Frame-wrap_dek kek dek aad = search disk_rules

  Frame-encrypt : (dek text aad : Bytes) → Keeps (Frame path c d es) (encrypt p dek text aad)
  unfolding encrypt
  Frame-encrypt dek text aad = search disk_rules

  Frame-unwrap_dek :
      (kek wrapped aad : Bytes) → Keeps (Frame path c d es) (unwrap_dek p kek wrapped aad)
  unfolding unwrap_dek
  Frame-unwrap_dek kek wrapped aad = search disk_rules

  Frame-decrypt :
      (dek nonce sealed aad : Bytes) → Keeps (Frame path c d es) (decrypt p dek nonce sealed aad)
  unfolding decrypt
  Frame-decrypt dek nonce sealed aad = search disk_rules

  ruleset store_rules =
      (disk_rules, Frame-new_dek, Frame-wrap_dek, Frame-encrypt, Frame-unwrap_dek, Frame-decrypt)

  Frame-create_temp :
      (s : Store)
      → IsNoTemp s path
      → Keeps (Frame path c d es) (create_temp p (s.root ++ codes "/tmp") (codes "staged-"))
  unfolding create_temp
  Frame-create_temp s ne = search (frame_rules, ne) depth 8

  Frame-write_temp :
      (s : Store) (parts : List Bytes)
      → IsNoTemp s path
      → Keeps (Frame path c d es) (write_temp p s parts)
  unfolding write_temp
  Frame-write_temp s parts ne =
      Keeps-bind_where (λ tmp. tmp ≢ path) _ _ (λ w tmp w' e. rw (create_temp-path p s w e) (ne _))
        (Frame-create_temp s ne) λ tmp ne'. search (store_rules, ne') depth 7

  -- Staging touches no file but a temporary one of its own, whatever fails.
  pub Frame-stage :
      (s : Store) (r : Reader) (limit : ℕ)
      → IsNoTemp s path
      → Keeps (Frame path c d es) (stage p s r limit)
  unfolding stage
  Frame-stage s r limit ne = search (store_rules, Frame-write_temp, ne) depth 14

  -- Aborting removes at most the temporary file.
  pub Frame-abort : (st : Staged) → st.tmp_path ≢ path → Keeps (Frame path c d es) (abort p st)
  unfolding abort
  Frame-abort st ne = search store_rules

  pub Frame-commit :
      (s : Store) (st : Staged)
      → st.tmp_path ≢ path
      → object_path s st.hash ≢ path
      → Keeps (Frame path c d es) (commit p s st)
  unfolding commit
  Frame-commit s st ne ne' = search store_rules depth 9

  -- A read changes nothing.
  pub Frame-open_object :
      (s : Store) (hash wrapped : Bytes) → Keeps (Frame path c d es) (open_object p s hash wrapped)
  unfolding open_object verify
  Frame-open_object s hash wrapped = search store_rules depth 9

  pub Frame-remove :
      (s : Store) (hash : Bytes)
      → object_path s hash ≢ path
      → Keeps (Frame path c d es) (remove p s hash)
  unfolding remove
  Frame-remove s hash ne = search store_rules depth 7
