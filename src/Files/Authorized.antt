-- ===== src/Files/Authorized.antt =====
-- What `authorize` lets pass, and how it answers otherwise.
use securevault.Effect.Bind.{bind_ok}
use securevault.Authz.{can, Action}
use securevault.Auth.User.{User}
use securevault.Database.Schema.{BlobRow, NodeRow, Db}
use securevault.Files.Node.{
  is_not_found, role_of, grant_map, deny, node_state, NodeState, load_node, authorize,
}
use securevault.Files.Statements.{select_grants, blob_of, node_of, NodeJoin, select_node}
use mathlib.Core.Path.{subst}
use securevault.Base.{
  if◌then◌else◌, nat_eq, string_eq, bytes_eq, Error, Result, not_found, ok, err, String, ◌≡◌, refl,
  sym, ap, ◌∙◌, ◌≢◌, Bool, true, false, Option, none, some, [], arith,
}
use securevault.Platform.{Platform}
use securevault.Effect.{handle, pure, World, M, or_raise, raise, rescue, ◌>>=◌}
use securevault.Effect.Runs.{query_ok}

-- What the tables say of a node that was loaded.
pub record Loaded (id : String) (d : Db) (st : NodeState) : Type 0 where
  pub node : NodeRow
  pub blob : BlobRow
  pub node_found : node_of d id ≡ some node
  pub blob_found : blob_of d node.blob_hash ≡ some blob
  pub hash : st.blob_hash ≡ node.blob_hash
  pub wrapped : st.wrapped_dek ≡ blob.wrapped_dek
  pub owner : st.owner_id ≡ node.owner_id
  pub acl : st.acl ≡ record { owner_id = node.owner_id; grants = grant_map [] (select_grants id d) }

or_raise_ok :
    {A : Type 0} (o : Option A) (e : Error) (w : World) {a : A} {w' : World}
    → or_raise o e w ≡ (ok a, w')
    → (o ≡ some a) × (w' ≡ w)
unfolding or_raise ◌>>=◌
or_raise_ok none e w h = absurd (cc h)
or_raise_ok (some a) e w h = (cc, cc)

rescue_ok {ℓ} :
    {A : Type 0} {C : Type ℓ} (f : Error → M A) (m : M A) (w : World) {a : A} {w' : World}
    → rescue f m w ≡ (ok a, w')
    → ((e : Error) (w1 : World) → f e w1 ≡ (ok a, w') → C)
    → (m w ≡ (ok a, w') → C)
    → C
unfolding rescue
rescue_ok {A} {C} f m w {a} {w'} h bad good = go (m w) refl h
  where
    go : (x : Result A × World) → m w ≡ x → handle f x ≡ (ok a, w') → C
    go (ok b, w1) e k = good (e ∙ k)
    go (err x, w1) e k = bad x w1 k

pub select_node_found :
    (id : String) (d : Db) (j : NodeJoin)
    → some j ≡ select_node id d
    → (node_of d id ≡ some j.node) × (blob_of d j.node.blob_hash ≡ some j.blob)
unfolding select_node
select_node_found id d j h = ground arith

module _ (p : Platform) where
  load_node_ok :
      (id : String) (w : World) {st : NodeState} {w' : World}
      → load_node p id w ≡ (ok st, w')
      → Loaded id w.db st × (w'.db ≡ w.db)
  unfolding load_node pure node_state
  load_node_ok id w {st} {w'} h = bind_ok _ _ w h λ found w1 asked h1.
      bind_ok _ _ w1 h1 λ j w2 there h2. bind_ok _ _ w2 h2 λ gs w3 listed h3.
        let (found_eq, at1) = query_ok p _ w asked in
        let (j_eq, at2) = or_raise_ok found not_found w1 there in
        let (gs_eq, at3) = query_ok p _ w2 listed in
        let (node_found, blob_found) = select_node_found id w.db j (sym j_eq ∙ found_eq) in
        let db2 : w2.db ≡ w.db = ap (λ (w : World). w.db) (at2 ∙ at1) in
        let db3 : w'.db ≡ w.db = cc (h3, ap (λ (w : World). w.db) at3, db2) in
        let st_eq : node_state j gs ≡ st = cc h3 in
        let grants_eq = gs_eq ∙ ap (select_grants id) db2 in
        (
          subst (Loaded id w.db) st_eq (record {
            node = j.node;
            blob = j.blob;
            node_found = node_found;
            blob_found = blob_found;
            hash = refl;
            wrapped = refl;
            owner = refl;
            acl =
                ap (λ gs. record { owner_id = j.node.owner_id; grants = grant_map [] gs })
                  grants_eq;
          }),
          db3,
        )

  deny_fails :
      {A : Type 0} (u : User) (id : String) (action : Action) (reason : String) (w : World) {a : A}
      {w' : World}
      → deny p {A = A} u id action reason w ≢ (ok a, w')
  unfolding raise
  deny_fails u id action reason w h = bind_ok _ _ w h λ _ w1 _ h1. absurd (cc h1)

  refused :
      {A : Type 0} (b : Bool) (e : Error) (m : M A) (w : World) {a : A} {w' : World}
      → m w ≢ (ok a, w')
      → (if b then m else raise e) w ≢ (ok a, w')
  unfolding raise
  refused true e m w fails h = fails h
  refused false e m w fails h = absurd (cc h)

  -- A request that is let through is for a node of the table, with its blob; the access list that
  -- decides it is that of the tables, the decision function answers true for it, and the tables
  -- stay as they are.
  pub authorize_ok :
      (u : User) (id : String) (action : Action) (w : World) {st : NodeState} {w' : World}
      → authorize p u id action w ≡ (ok st, w')
      → Loaded id w.db st × (can (some u) st.acl action ≡ true) × (w'.db ≡ w.db)
  unfolding authorize pure raise
  authorize_ok u id action w {st} {w'} h = bind_ok _ _ w h λ st1 w1 got h1.
      rescue_ok _ _ w got
        (λ e w2 failed. absurd (
          refused (is_not_found e) e (deny p u id action "not_found") w2
            (deny_fails u id action "not_found" w2) failed))
        λ loaded. passed st1 w1 loaded (can (some u) st1.acl action) refl h1
    where
      passed :
          (st1 : NodeState) (w1 : World)
          → load_node p id w ≡ (ok st1, w1)
          → (b : Bool) → can (some u) st1.acl action ≡ b
          → (if b
                then pure (record st1 { node = record st1.node { my_role = role_of u st1.acl } })
                else deny p u id action "no_grant")
              w1
            ≡ (ok st, w')
          → Loaded id w.db st × (can (some u) st.acl action ≡ true) × (w'.db ≡ w.db)
      passed st1 w1 loaded true allowed k =
          let (l, same) = load_node_ok id w loaded in
          let st_eq : record st1 { node = record st1.node { my_role = role_of u st1.acl } } ≡ st =
            cc k in
          (
            subst (Loaded id w.db) st_eq (record {
              node = l.node;
              blob = l.blob;
              node_found = l.node_found;
              blob_found = l.blob_found;
              hash = l.hash;
              wrapped = l.wrapped;
              owner = l.owner;
              acl = l.acl;
            }),
            subst (λ (s : NodeState). can (some u) s.acl action ≡ true) st_eq allowed,
            cc (k, same),
          )
      passed st1 w1 loaded false allowed k = absurd (deny_fails u id action "no_grant" w1 k)
