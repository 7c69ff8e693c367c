-- ===== src/Files/Stored/Uploads.antt =====
-- The transaction of an upload keeps every blob of the tables held, committed or rolled back.
use securevault.Effect.Runs.{run_ok, query_ok}
use securevault.Effect.Files.{query-Keeps, run-Keeps}
use securevault.Effect.Bind.{gets_ok, bind_ok, bind_cases}
use securevault.Files.Stored.Finished.{abort-AtHand, commit_moves, commit-AtHand, IsAtHand}
use securevault.Files.Held.{AllHeld}
use securevault.Effect.Keeps.{Keeps-pure, Keeps-gets, keeps_rules, Keeps-bind, Keeps}
use securevault.Files.Upload.{insert_body, reference_blob}
use securevault.Auth.User.{User}
use securevault.Files.Stored.Kept.{abort-Promised, commit-Promised, IsSealed}
use securevault.Storage.Store.{object_path, Staged}
use securevault.Platform.Laws.{IsDigestLawful, IsCryptoLawful}
use securevault.Database.Schema.{NodeRow, Db}
use securevault.Files.Node.{Repo}
use securevault.Files.Statements.{blob_of, select_refs}
use securevault.Effect.{pure, World}
use mathlib.Core.Path.{subst}
use securevault.Base.{
  nat_eq, string_eq, Bytes, bytes_eq, Result, lookup, ok, ℕ, String, ◌≡◌, sym, ap, ◌∙◌, ◌≢◌, Option,
  none, some, arith,
}
use securevault.Platform.{Platform}

unreferenced : (hash : Bytes) (d : Db) → none ≡ select_refs hash d → blob_of d hash ≡ none
unfolding select_refs
unreferenced hash d h = ground arith

referenced : (hash : Bytes) (n : ℕ) (d : Db) → some n ≡ select_refs hash d → blob_of d hash ≢ none
unfolding select_refs
referenced hash n d h = ground arith

module _ (p : Platform) (r : Repo) (law : IsCryptoLawful p) (bytes : IsDigestLawful p)
    (staged : Staged) (content raw : Bytes) (sealed : IsSealed p r.store staged content raw) where
  reference_blob-Promised :
      (d : Db) (o : Option ℕ)
      → o ≡ select_refs staged.hash d
      → Keeps (λ w. AllHeld p r.store d w.disk) (reference_blob p r staged o)
  unfolding reference_blob
  reference_blob-Promised d none e =
      Keeps-bind _ _ (run-Keeps p (λ disk _. AllHeld p r.store d disk) _) λ _.
        commit-Promised p r.store law bytes d staged content raw sealed
          (unreferenced staged.hash d e)
  reference_blob-Promised d (some n) e =
      Keeps-bind _ _ (run-Keeps p (λ disk _. AllHeld p r.store d disk) _)
        λ _. abort-Promised p r.store law bytes d staged content raw sealed

  reference_blob-AtHand :
      (o : Option ℕ) → Keeps (λ w. IsAtHand staged raw w.disk w.done) (reference_blob p r staged o)
  unfolding reference_blob
  reference_blob-AtHand none =
      Keeps-bind _ _ (run-Keeps p (IsAtHand staged raw) _) λ _. commit-AtHand p r.store staged raw
  reference_blob-AtHand (some n) =
      Keeps-bind _ _ (run-Keeps p (IsAtHand staged raw) _) λ _. abort-AtHand p r.store staged raw

  reference_blob_publishes :
      (o : Option ℕ) (w : World) {a : Unit {0}} {w' : World}
      → o ≡ select_refs staged.hash w.db
      → reference_blob p r staged o w ≡ (ok a, w')
      → IsAtHand staged raw w.disk w.done
      → blob_of w.db staged.hash ≡ none
      → lookup (object_path r.store staged.hash) w'.disk ≡ some raw
  unfolding reference_blob
  reference_blob_publishes none w e h k absent = bind_ok _ _ w h λ _ w1 ran h1.
      let files = (run_ok p _ w ran).files in
      commit_moves p r.store staged raw w1 h1 (
        subst (λ disk. IsAtHand staged raw disk w1.done) (sym files.disk)
          (subst (IsAtHand staged raw w.disk) (sym files.done) k))
  reference_blob_publishes (some n) w e h k absent = absurd (referenced staged.hash n w.db e absent)

  module _ (u : User) (name : Bytes) (mime : String) (now : ℕ) where
    pub insert_body-AtHand :
        Keeps (λ w. IsAtHand staged raw w.disk w.done) (insert_body p r u name mime staged now)
    unfolding insert_body
    insert_body-AtHand =
        search
          (
            keeps_rules,
            run-Keeps p (IsAtHand staged raw),
            query-Keeps p (IsAtHand staged raw),
            reference_blob-AtHand,
          )
          depth 9

    -- With the tables that it found, which a rollback gives back.
    pub insert_body-Promised :
        (w : World)
        → AllHeld p r.store w.db w.disk
        → AllHeld p r.store w.db (insert_body p r u name mime staged now w).1.disk
    unfolding insert_body
    insert_body-Promised w held =
        bind_cases (λ x. AllHeld p r.store w.db x.1.disk) _ _ w
          (λ o w1 asked.
            let (o_eq, at_tick) = query_ok p _ w asked in
            (Keeps-bind {I = λ v. AllHeld p r.store w.db v.disk} _ _
                (reference_blob-Promised w.db o o_eq)
                λ _. Keeps-bind _ _ (Keeps-gets _) λ id.
                  Keeps-bind _ _ (run-Keeps p (λ disk _. AllHeld p r.store w.db disk) _)
                    λ _. Keeps-pure _).at
              w1 (rw (at_tick) held))
          (λ e w1 failed.
            subst (λ (x : Result (Option ℕ) × World). AllHeld p r.store w.db x.1.disk) failed
              ((query-Keeps p (λ disk _. AllHeld p r.store w.db disk) _).at w held))

    -- A first reference publishes the object.
    pub insert_body_publishes :
        (w : World) {n : NodeRow} {w' : World}
        → insert_body p r u name mime staged now w ≡ (ok n, w')
        → IsAtHand staged raw w.disk w.done
        → blob_of w.db staged.hash ≡ none
        → lookup (object_path r.store staged.hash) w'.disk ≡ some raw
    unfolding insert_body pure
    insert_body_publishes w {n} {w'} h k absent = bind_ok _ _ w h λ o w1 asked h1.
        bind_ok _ _ w1 h1 λ _ w2 did h2. bind_ok _ _ w2 h2 λ id w3 made h3.
          bind_ok _ _ w3 h3 λ _ w4 ran h4.
            let (o_eq, at_tick) = query_ok p _ w asked in
            let there =
              reference_blob_publishes o w1 (rw (at_tick) o_eq) did (rw (at_tick) k)
                (rw (at_tick) absent) in
            let same3 : w3 ≡ w2 = (gets_ok _ w2 made).1 in
            let disk4 : w'.disk ≡ w4.disk = cc h4 in
            ap (lookup (object_path r.store staged.hash))
              (disk4 ∙ ((run_ok p _ w3 ran).files.disk ∙ ap (λ (v : World). v.disk) same3))
            ∙ there
