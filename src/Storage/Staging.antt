-- ===== src/Storage/Staging.antt =====
-- What a stage that succeeds has made: a temporary file that opens to exactly the content.
use securevault.Platform.Laws.{IsCryptoLawful}
use securevault.Base.{
  ltb, eq_refl, nat_eq, string_eq, Bytes, bytes_eq, length, length-take, lookup, insert,
  lookup-insert, codes, ok, ℕ, suc, ◌≤◌, ◌<◌, ◌≡◌, refl, true, false, some, List, [], ◌∷◌, ◌++◌,
  arith,
}
use securevault.Platform.{Platform}
use securevault.Effect.{◌>>◌, modify, lift, gets, os_call, pure, World, ◌>>=◌}
use securevault.Effect.Bind.{pass_ok, bind_ok, on_error-eq-ok}
use securevault.Storage.Frame.{temp_path, create_temp-path}
use securevault.Storage.Opens.{sealed-Opens, Opens}
use securevault.Storage.Crypto.{random_bytes, wrap_dek, encrypt, is_aes_key}
use securevault.Storage.Disk.{create_temp, write, content_at}
use securevault.Storage.Store.{
  obj_magic, read_limit, set_done, max_int64, stage, Store, Staged, Reader, write_temp, write_parts,
  read_all, is_done,
}

module _ (p : Platform) where
  pub random_bytes_ok :
      (n : ℕ) (w : World) {b : Bytes} {w' : World}
      → random_bytes p n w ≡ (ok b, w')
      → b ≡ p.random w.step n
  unfolding random_bytes ◌>>=◌
  random_bytes_ok n w h = ground arith

  write_ok :
      (path part old : Bytes) (w : World) {a : Unit {0}} {w' : World}
      → write p path part w ≡ (ok a, w')
      → content_at path w ≡ some old
      → content_at path w' ≡ some (old ++ part)
  unfolding write ◌>>=◌
  write_ok path part old w h e =
      ground (arith, eq_refl path, lookup-insert path path (old ++ part) w.disk)

  create_temp_ok :
      (dir pattern : Bytes) (w : World) {tmp : Bytes} {w' : World}
      → create_temp p dir pattern w ≡ (ok tmp, w')
      → content_at tmp w' ≡ some []
  unfolding create_temp ◌>>=◌
  create_temp_ok dir pattern w h =
      let path = dir ++ codes "/" ++ pattern ++ p.temp_name w.step in
      ground (arith, eq_refl path, lookup-insert path path [] w.disk)

  pub os_call_ok :
      (path : Bytes) (w : World) {a : Unit {0}} {w' : World}
      → os_call p w ≡ (ok a, w')
      → content_at path w' ≡ content_at path w
  unfolding os_call
  os_call_ok path w h = ground arith

-- Parts written behind one another.
abbrev pub joined : Bytes → List Bytes → Bytes
joined old [] = old
joined old (part ∷ parts) = joined (old ++ part) parts

module _ (p : Platform) where
  write_parts_ok :
      (path : Bytes) (parts : List Bytes) (old : Bytes) (w : World) {a : Unit {0}} {w' : World}
      → write_parts p path parts w ≡ (ok a, w')
      → content_at path w ≡ some old
      → content_at path w' ≡ some (joined old parts)
  unfolding write_parts pure
  write_parts_ok path [] old w h e = cc
  write_parts_ok path (part ∷ parts) old w h e = bind_ok _ _ w h λ _ w1 written rest.
      write_parts_ok path parts (old ++ part) w1 rest (write_ok p path part old w written e)

  write_temp_ok :
      (s : Store) (parts : List Bytes) (w : World) {tmp : Bytes} {w' : World}
      → write_temp p s parts w ≡ (ok tmp, w')
      → content_at tmp w' ≡ some (joined [] parts)
  unfolding write_temp pure
  write_temp_ok s parts w {tmp} {w'} h = bind_ok _ _ w h λ path w1 made h1.
      bind_ok _ _ w1 h1 λ _ w2 written h2. bind_ok _ _ w2 h2 λ _ w3 closed h3.
        bind_ok _ _ w1 (on_error-eq-ok _ _ _ w1 written) λ _ w4 parts_written synced. ground (
          arith,
          write_parts_ok path parts [] w1 parts_written (create_temp_ok p _ _ w made),
          os_call_ok p path w4 synced,
          os_call_ok p path w2 (on_error-eq-ok _ _ _ w2 closed),
        )

  write_temp-path :
      (s : Store) (parts : List Bytes) (w : World) {tmp : Bytes} {w' : World}
      → write_temp p s parts w ≡ (ok tmp, w')
      → tmp ≡ temp_path s (p.temp_name w.step)
  unfolding write_temp pure
  write_temp-path s parts w h = bind_ok _ _ w h λ path w1 made h1.
      bind_ok _ _ w1 h1 λ _ w2 written h2.
        bind_ok _ _ w2 h2 λ _ w3 closed h3. let same = create_temp-path p s w made in cc (h3, same)

  wrap_dek_ok :
      (kek dek aad : Bytes) (w : World) {wrapped : Bytes} {w' : World}
      → wrap_dek p kek dek aad w ≡ (ok wrapped, w')
      → (is_aes_key kek ≡ true)
        × (wrapped ≡ p.random w.step 12 ++ p.gcm_seal kek (p.random w.step 12) dek aad)
  unfolding wrap_dek ◌>>=◌
  wrap_dek_ok kek dek aad w h = ground arith

  encrypt_ok :
      (dek text aad : Bytes) (w : World) {nonce sealed : Bytes} {w' : World}
      → encrypt p dek text aad w ≡ (ok (nonce, sealed), w')
      → (is_aes_key dek ≡ true)
        × (nonce ≡ p.random w.step 12)
        × (sealed ≡ p.gcm_seal dek nonce text aad)
  unfolding encrypt ◌>>=◌
  encrypt_ok dek text aad w h = ground arith

-- Reading to the limit and one byte further yields all of a content that is not too large.
read_all_ok :
    (r : Reader) (limit : ℕ) (text : Bytes)
    → read_all r (suc limit) ≡ ok text
    → ltb limit (length text) ≡ false
    → text ≡ r.content
unfolding read_all
read_all_ok r limit text h fits = ground (arith, length-take (suc limit) r.content)

-- A staged object: its temporary file holds bytes that open to the content, and it is not done.
pub record IsStaged (p : Platform) (s : Store) (content : Bytes) (st : Staged) (w : World)
    : Type 0 where
  pub raw : Bytes
  pub suffix : Bytes
  pub temp : st.tmp_path ≡ temp_path s suffix
  pub file : content_at st.tmp_path w ≡ some raw
  pub opens : Opens p s st.hash st.wrapped_dek raw content
  pub digest : st.hash ≡ p.sha256 content
  pub size : st.size ≡ length content
  pub fresh : is_done st.handle w ≡ false

abbrev staged_as : Bytes → Bytes → Bytes → ℕ → ℕ → Staged
staged_as hash wrapped tmp size handle = record {
  hash = hash;
  size = size;
  wrapped_dek = wrapped;
  tmp_path = tmp;
  handle = handle;
}

-- The last steps of `stage`.
stage_end :
    (hash wrapped tmp : Bytes) (size : ℕ) (w : World) (st : Staged) (w' : World)
    → (gets (λ v. v.step) >>= λ handle.
          (modify (set_done handle false) >> pure (staged_as hash wrapped tmp size handle)))
        w
      ≡ (ok st, w')
    → (st ≡ staged_as hash wrapped tmp size w.step) × (w' ≡ set_done w.step false w)
unfolding ◌>>=◌
stage_end hash wrapped tmp size w st w' h = (cc, cc)

read_below :
    (r : Reader) (limit : ℕ) (text : Bytes) (w w' : World)
    → limit < max_int64
    → lift (read_all r (read_limit limit)) w ≡ (ok text, w')
    → read_all r (suc limit) ≡ ok text
unfolding lift read_limit
read_below r limit text w w' small h = ground arith

is_done-set_done : (handle : ℕ) (w : World) → is_done handle (set_done handle false w) ≡ false
unfolding lookup insert
is_done-set_done handle w = ground (arith, eq_refl handle)

-- Where the cipher and the digest are lawful and the limit is below the largest int64: a stage that
-- succeeds has read all of the content, which is no longer than the limit, returns its digest and
-- its length, and leaves a temporary file that opens to exactly the content under the key it
-- wrapped, not yet published or aborted.
pub stage-IsStaged :
    (p : Platform) (s : Store) (r : Reader) (limit : ℕ) (w : World) (st : Staged) (w' : World)
    → IsCryptoLawful p
    → limit < max_int64
    → stage p s r limit w ≡ (ok st, w')
    → IsStaged p s r.content st w' × (st.size ≤ limit)
unfolding stage
stage-IsStaged p s r limit w st w' law small h = pass_ok _ _ _ w h λ _ h1.
    bind_ok _ _ w h1 λ text w1 read h2. pass_ok _ _ _ w1 h2 λ fits h3.
      bind_ok _ _ w1 h3 λ dek w2 made h4. bind_ok _ _ w2 h4 λ wrapped w3 wrap h5.
        bind_ok _ _ w3 h5 λ sealed w4 enc h6. bind_ok _ _ w4 h6 λ tmp w5 wrote h7.
          let (kek_key, wrapped_eq) = wrap_dek_ok p s.kek dek (p.sha256 text) w2 wrap in
          let (dek_key, nonce_eq, sealed_eq) = encrypt_ok p dek text (p.sha256 text) w3 enc in
          let (same, after) = stage_end (p.sha256 text) wrapped tmp (length text) w5 st w' h7 in
          let content : text ≡ r.content =
            read_all_ok r limit text (read_below r limit text w w1 small read) fits in
          let opens : Opens p s (p.sha256 text) wrapped
              (joined [] (obj_magic ∷ sealed.0 ∷ sealed.1 ∷ [])) text =
            rw (wrapped_eq, sealed_eq, nonce_eq)
              (sealed-Opens p law s text dek (p.random w3.step 12) (p.random w2.step 12) kek_key
                dek_key (law.length-random w3.step 12) (law.length-random w2.step 12)) in
          rw (same, after, ← content)
            (
              record {
                raw = joined [] (obj_magic ∷ sealed.0 ∷ sealed.1 ∷ []);
                suffix = p.temp_name w4.step;
                temp = write_temp-path p s _ w4 wrote;
                file = write_temp_ok p s _ w4 wrote;
                opens = opens;
                digest = refl;
                size = refl;
                fresh = is_done-set_done w5.step w5;
              },
              ground arith,
            )
