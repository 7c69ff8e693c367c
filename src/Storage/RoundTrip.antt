-- ===== src/Storage/RoundTrip.antt =====
-- What was staged and published is read back.
use securevault.Storage.Disk.{read_file, content_at, rename}
use securevault.Storage.Store.{
  set_done, verify, stage, max_int64, hash_size, Reader, is_done, object_path, Staged, Store,
  open_object, commit,
}
use securevault.Base.{
  ◌==◌, eq_iff, eq_refl, nat_eq, string_eq, Bytes, bytes_eq, length, Result, without, lookup-insert,
  ok, ℕ, suc, ◌<◌, ◌≡◌, sym, ap, ◌∙◌, true, false, not, none, some, arith,
}
use securevault.Platform.{Platform}
use securevault.Platform.Laws.{IsCryptoLawful}
use securevault.Effect.{os_call, World, ◌>>=◌}
use securevault.Effect.Bind.{
  ignore_ok, modify_ok, gets_ok, pass_cases, bind_ok, bind_cases, pass_ok, on_error-eq-ok,
}
use securevault.Storage.Integrity.{read_file_found}
use securevault.Storage.Opens.{Opens}
use securevault.Storage.Staging.{os_call_ok, stage-IsStaged}

rename_ok :
    (p : Platform) (old new raw : Bytes) (w : World) {a : Unit {0}} {w' : World}
    → rename p old new w ≡ (ok a, w')
    → content_at old w ≡ some raw
    → content_at new w' ≡ some raw
unfolding rename ◌>>=◌
rename_ok p old new raw w h e =
    ground (arith, eq_refl new, lookup-insert new new raw (without old w.disk))

os_call_keeps :
    (p : Platform) (path : Bytes) (w : World) → content_at path (os_call p w).1 ≡ content_at path w
unfolding os_call
os_call_keeps p path w = ground arith

-- A commit that succeeds moves the temporary file of the staged object to its address.
pub commit_ok :
    (p : Platform) (s : Store) (st : Staged) (raw : Bytes) (w : World) {a : Unit {0}} {w' : World}
    → commit p s st w ≡ (ok a, w')
    → content_at st.tmp_path w ≡ some raw
    → (is_done st.handle w ≡ false) × (content_at (object_path s st.hash) w' ≡ some raw)
unfolding commit
commit_ok p s st raw w h e = bind_ok _ _ w h λ finalized w1 asked h1.
    pass_ok _ _ _ w1 h1 λ fresh h2. bind_ok _ _ w1 h2 λ _ w2 marked h3.
      bind_ok _ _ w2 h3 λ _ w3 dir h4. bind_ok _ _ w3 h4 λ _ w4 moved h5.
        let (asked_eq, same) = gets_ok _ w asked in
        let now_marked : w2 ≡ set_done st.handle true w1 = modify_ok _ w1 marked in
        let here : content_at st.tmp_path w2 ≡ some raw = rw (now_marked, same) e in
        let there : content_at st.tmp_path w3 ≡ some raw =
          os_call_ok p st.tmp_path w2 (on_error-eq-ok _ _ _ w2 dir) ∙ here in
        let published : content_at (object_path s st.hash) w4 ≡ some raw =
          rename_ok p st.tmp_path (object_path s st.hash) raw w3 (on_error-eq-ok _ _ _ w3 moved)
            there in
        (
          sym asked_eq ∙ fresh,
          rw (ignore_ok _ w4 h5) (os_call_keeps p (object_path s st.hash) w4 ∙ published),
        )

-- The object of an address opens, under the wrapped key, to the text.
pub open-eq_of_Opens :
    (p : Platform) (s : Store) (hash wrapped raw text : Bytes) (w : World)
    → length hash ≡ 32
    → p.fault w.step ≡ none
    → content_at (object_path s hash) w ≡ some raw
    → Opens p s hash wrapped raw text
    → (open_object p s hash wrapped w).0 ≡ ok text
unfolding open_object
open-eq_of_Opens p s hash wrapped raw text w size up found opens =
    pass_cases Q _ _ _ w (λ misfit. absurd (cc (misfit, fits)))
      λ _.
        bind_cases Q _ _ w (λ raw' w2 read. verified raw' w2 read)
          (λ e w2 failed. absurd (cc (failed, reads)))
  where
    Q : Result Bytes × World → Type 0
    Q x = x.0 ≡ ok text

    fits : not (length hash == hash_size) ≡ false
    fits = ground (arith, eq_iff (length hash) hash_size)

    reads : read_file p (object_path s hash) w ≡ (ok raw, record w { step = suc w.step })
    reads = read_file_found p (object_path s hash) raw w up found

    same :
        (raw' : Bytes) (w2 : World)
        → read_file p (object_path s hash) w ≡ (ok raw', w2)
        → raw' ≡ raw
    same raw' w2 read = cc (read, reads)

    verified :
        (raw' : Bytes) (w2 : World)
        → read_file p (object_path s hash) w ≡ (ok raw', w2)
        → (verify p s hash wrapped raw' w2).0 ≡ ok text
    verified raw' w2 read =
        rw (same raw' w2 read) (ap (λ (x : Result Bytes × World). x.0) (opens w2))

-- Where the cipher and the digest are lawful and the limit is below the largest int64: once a stage
-- and the commit of it have succeeded, a read at the address that was returned, with the wrapped
-- key that was returned, gives the content back, where the read call itself does not fail.
pub open-commit-stage :
    (p : Platform) (s : Store) (r : Reader) (limit : ℕ) (w w1 w2 : World) (st : Staged)
    → IsCryptoLawful p
    → limit < max_int64
    → stage p s r limit w ≡ (ok st, w1)
    → commit p s st w1 ≡ (ok tt, w2)
    → p.fault w2.step ≡ none
    → (open_object p s st.hash st.wrapped_dek w2).0 ≡ ok r.content
open-commit-stage p s r limit w w1 w2 st law small staged committed up =
    let (good, _) = stage-IsStaged p s r limit w st w1 law small staged in
    let (_, found) = commit_ok p s st good.raw w1 committed good.file in
    open-eq_of_Opens p s st.hash st.wrapped_dek good.raw r.content w2
      (rw good.digest (law.length-sha256 r.content)) up found good.opens
