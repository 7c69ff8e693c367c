-- ===== src/Files/Stored/Deletes.antt =====
-- A delete keeps the blobs of the tables held: the object goes after the last reference only.
use securevault.Files.Authorized.{authorize_ok}
use securevault.Audit.{result_ok}
use securevault.Files.Counts.Deleted.{without_node}
use securevault.Effect.Bind.{bind_cases}
use securevault.Files.Stored.Blobs.{without_reference-last, without_reference-AllHeld}
use securevault.Files.Counts.{refs_of}
use securevault.Files.Stored.Kept.{remove-Promised}
use securevault.Storage.Tables.{Tables-remove}
use securevault.Files.Counts.Deletes.{delete_body_ok}
use securevault.Files.Quiet.{authorize-Keeps, record_event-Keeps}
use securevault.Authz.{action_delete}
use securevault.Effect.Files.{transaction_with, run-Keeps}
use securevault.Storage.Store.{remove}
use securevault.Effect.Runs.{transaction_ok}
use securevault.Auth.User.{User}
use securevault.Files.Held.{AllHeld}
use securevault.Effect.Keeps.{Keeps-pure, keeps_rules, Keeps-bind, Keeps}
use securevault.Files.Statements.{blob_of}
use securevault.Database.Schema.{named, Db}
use securevault.Files.Access.{delete_file, delete_body, delete_object, delete_rows}
use securevault.Platform.Laws.{IsDigestLawful, IsCryptoLawful}
use securevault.Files.Node.{NodeState, event, authorize, Repo}
use securevault.Effect.{pure, tick, World}
use mathlib.Core.Path.{subst}
use securevault.Base.{
  if◌then◌else◌, ◌==◌, eq_iff, nat_eq, string_eq, Bytes, bytes_eq, count, Result, ok, ℕ, suc,
  String, ◌≡◌, refl, sym, ap, ◌∙◌, Bool, true, false, none, List, arith,
}
use securevault.Platform.{Platform}

module _ (p : Platform) (r : Repo) (law : IsCryptoLawful p) (bytes : IsDigestLawful p) where
  -- The tables are as given, and their blobs are held.
  abbrev Pinned : Db → Db → List (Bytes × Bytes) → Type 0
  Pinned d d' disk = (d' ≡ d) × AllHeld p r.store d disk

  delete_body-Promised :
      (d : Db) (id : String) (hash : Bytes)
      → Keeps (λ w. AllHeld p r.store d w.disk) (delete_body p r id hash)
  unfolding delete_body
  delete_body-Promised d id hash =
      search (keeps_rules, run-Keeps p (λ disk _. AllHeld p r.store d disk)) depth 9

  pub delete_rows-AllHeld :
      (id : String) (hash : Bytes) (w : World)
      → AllHeld p r.store w.db w.disk
      → AllHeld p r.store (delete_rows p r id hash w).1.db (delete_rows p r id hash w).1.disk
  unfolding delete_rows
  delete_rows-AllHeld id hash w held =
      let kept = (delete_body-Promised w.db id hash).at (tick w) held in
      transaction_with p (AllHeld p r.store) (delete_body p r id hash) w held kept λ left w2 ran.
        subst (λ d. AllHeld p r.store d w2.disk) (sym (delete_body_ok p r id hash (tick w) ran).1)
          (without_reference-AllHeld p r.store w2.disk hash (without_node id w.db)
            (subst (λ (x : Result ℕ × World). AllHeld p r.store w.db x.1.disk) ran kept))

  -- Where no reference is left, the tables do not name the blob any more.
  pub delete_rows_last :
      (id : String) (hash : Bytes) (w : World) {left : ℕ} {w' : World}
      → delete_rows p r id hash w ≡ (ok left, w')
      → (left == 0) ≡ true
      → blob_of w'.db hash ≡ none
  unfolding delete_rows
  delete_rows_last id hash w {left} h last = transaction_ok p _ w h λ w2 ran same.
      let (count, tables) = delete_body_ok p r id hash (tick w) ran in
      let none_left : left ≡ 0 = ground (arith, eq_iff left 0) in
      let one : suc 0 ≡ refs_of (without_node id w.db) hash = ap suc (sym none_left) ∙ count in
      ap (λ (v : World). blob_of v.db hash) same
      ∙ (ap (λ d. blob_of d hash) tables ∙ without_reference-last hash (without_node id w.db) one)

  remove-Pinned :
      (d : Db) (text hash : Bytes)
      → hash ≡ p.sha256 text
      → blob_of d hash ≡ none
      → Keeps (λ w. Pinned d w.db w.disk) (remove p r.store hash)
  remove-Pinned d text hash digest absent = record {
    at = λ w (same, held). (
      ((Tables-remove p w.db w.audit_events r.store hash).at w
            (record { tables = refl; events = refl })).tables
          ∙ same,
      subst (λ h. AllHeld p r.store d (remove p r.store h w).1.disk) (sym digest)
          ((remove-Promised p r.store law bytes d text
              (subst (λ h. blob_of d h ≡ none) digest absent)).at
            w held),
    );
  }

  object-Pinned :
      (d : Db) (text hash : Bytes) (b : Bool)
      → hash ≡ p.sha256 text
      → (b ≡ true → blob_of d hash ≡ none)
      → Keeps (λ w. Pinned d w.db w.disk) (if b then remove p r.store hash else pure tt)
  object-Pinned d text hash true digest absent = remove-Pinned d text hash digest (absent refl)
  object-Pinned d text hash false digest absent = Keeps-pure tt

  pub delete_object-AllHeld :
      (u : User) (id : String) (text hash : Bytes) (left : ℕ) (w : World)
      → hash ≡ p.sha256 text
      → ((left == 0) ≡ true → blob_of w.db hash ≡ none)
      → AllHeld p r.store w.db w.disk
      → let w' = (delete_object p r u id hash left w).1 in AllHeld p r.store w'.db w'.disk
  unfolding delete_object
  delete_object-AllHeld u id text hash left w digest absent held =
      let (same, held') =
        (Keeps-bind _ _ (object-Pinned w.db text hash (left == 0) digest absent) (λ _.
            record_event-Keeps p (Pinned w.db) (event u "file.delete" (named id) result_ok ""))).at
          w (refl, held) in
      subst (λ d. AllHeld p r.store d (delete_object p r u id hash left w).1.disk) (sym same) held'

  pub delete_file-AllHeld :
      (u : User) (id : String) (w : World)
      → AllHeld p r.store w.db w.disk
      → let w' = (delete_file p r u id w).1 in AllHeld p r.store w'.db w'.disk
  unfolding delete_file
  delete_file-AllHeld u id w held =
      bind_cases (λ x. AllHeld p r.store x.1.db x.1.disk) _ _ w
        (λ st w1 let_in.
          let (l, _, same) = authorize_ok p u id action_delete w let_in in
          let held1 =
            subst (λ (x : Result NodeState × World). AllHeld p r.store x.1.db x.1.disk) let_in
              (seen w held) in
          let rows = delete_rows-AllHeld id st.blob_hash w1 held1 in
          let k = held l.node.blob_hash l.blob l.blob_found in
          bind_cases (λ x. AllHeld p r.store x.1.db x.1.disk) _ _ w1
            (λ left w2 did.
              delete_object-AllHeld u id k.text st.blob_hash left w2 (l.hash ∙ k.digest)
                (delete_rows_last id st.blob_hash w1 did)
                (subst (λ (x : Result ℕ × World). AllHeld p r.store x.1.db x.1.disk) did rows))
            (λ e w2 failed.
              subst (λ (x : Result ℕ × World). AllHeld p r.store x.1.db x.1.disk) failed rows))
        (λ e w1 failed.
          subst (λ (x : Result NodeState × World). AllHeld p r.store x.1.db x.1.disk) failed
            (seen w held))
    where
      seen :
          (w : World)
          → AllHeld p r.store w.db w.disk
          → let w' = (authorize p u id action_delete w).1 in AllHeld p r.store w'.db w'.disk
      seen w held = (authorize-Keeps p (AllHeld p r.store) u id action_delete).at w held
