-- ===== src/Files/Shared.antt =====
-- The grants: one at most of each user on each node, with a role of the sharing model.
use securevault.Effect.Files.{Keeps-run}
use securevault.Files.Requests.{perform_all_preserves, perform_all, Request}
use securevault.Files.Counts.Calls.{Keeps-open_object}
use securevault.Files.Preserved.{IsPreserved}
use securevault.Files.Node.{Repo}
use securevault.Database.Table.{find, delete}
use securevault.Files.Statements.{rename_node, delete_grant, set_role, is_grant, upsert_grant}
use securevault.Database.Schema.{Db, GrantRow}
use securevault.Effect.{World}
use mathlib.Core.Path.{subst}
use securevault.Base.{
  if◌then◌else◌, Bool-cases, Option-cases, ◌==◌, eq_iff, nat_eq, string_eq, Bytes, bytes_eq, keep,
  count, any, All, ok, ℕ, ◌≤◌, String, ◌≡◌, refl, sym, ap, ◌∙◌, ◌⊎◌, inl, inr, Bool, false, not,
  List, [], ◌∷◌, arith,
}
use securevault.Platform.{Platform}

abbrev pub IsRole : String → Type 0
IsRole role = (role ≡ "editor") ⊎ (role ≡ "viewer")

-- The primary key and the check of the table of grants.
pub record IsShared (d : Db) : Type 0 where
  pub once : (node user : String) → count (is_grant node user) d.grants ≤ 1
  pub roles : All (λ g. IsRole g.role) d.grants

of_grants : (d d' : Db) → d'.grants ≡ d.grants → IsShared d → IsShared d'
of_grants d d' e s = record {
  once = λ node user. subst (λ gs. count (is_grant node user) gs ≤ 1) (sym e) (s.once node user);
  roles = subst (All (λ g. IsRole g.role)) (sym e) s.roles;
}

count-keep : {A : Type 0} (p q : A → Bool) (xs : List A) → count p (keep q xs) ≤ count p xs
count-keep p q [] = omega arith
count-keep p q (x ∷ xs) = ground (arith, count-keep p q xs)

All-keep : {A : Type 0} (P : A → Type 0) (q : A → Bool) (xs : List A) → All P xs → All P (keep q xs)
All-keep P q [] h = tt
All-keep P q (x ∷ xs) (h, hs) = elim (Bool-cases (q x)) [
  | inl e ↦ rw (e) (h, All-keep P q xs hs)
  | inr e ↦ rw (e) (All-keep P q xs hs)
]

count-delete :
    (p : GrantRow → Bool) (id : String) (gs : List GrantRow)
    → count p (delete (λ g. g.node_id) id gs) ≤ count p gs
count-delete p id [] = omega arith
count-delete p id (g ∷ gs) = ground (arith, count-delete p id gs)

All-delete :
    (P : GrantRow → Type 0) (id : String) (gs : List GrantRow)
    → All P gs
    → All P (delete (λ g. g.node_id) id gs)
All-delete P id [] h = tt
All-delete P id (g ∷ gs) (h, hs) = elim (Bool-cases (g.node_id == id)) [
  | inl e ↦ rw (e) (All-delete P id gs hs)
  | inr e ↦ rw (e) (h, All-delete P id gs hs)
]

count-set_role :
    (node user id grantee role : String) (gs : List GrantRow)
    → count (is_grant node user) (set_role id grantee role gs) ≡ count (is_grant node user) gs
count-set_role node user id grantee role [] = refl
count-set_role node user id grantee role (g ∷ gs) =
    ground (arith, count-set_role node user id grantee role gs)

All-set_role :
    (id grantee role : String) (gs : List GrantRow)
    → IsRole role
    → All (λ g. IsRole g.role) gs
    → All (λ g. IsRole g.role) (set_role id grantee role gs)
All-set_role id grantee role [] r h = tt
All-set_role id grantee role (g ∷ gs) r (h, hs) = elim (Bool-cases (is_grant id grantee g)) [
  | inl e ↦ rw (e) (r, All-set_role id grantee role gs r hs)
  | inr e ↦ rw (e) (h, All-set_role id grantee role gs r hs)
]

count_none :
    (id grantee : String) (gs : List GrantRow)
    → any (is_grant id grantee) gs ≡ false
    → count (is_grant id grantee) gs ≡ 0
count_none id grantee [] h = refl
count_none id grantee (g ∷ gs) h = ground (arith, count_none id grantee gs)

upserted : GrantRow → List GrantRow → List GrantRow
upserted g gs =
    if any (is_grant g.node_id g.grantee_id) gs
    then set_role g.node_id g.grantee_id g.role gs
    else g ∷ gs

upsert_grants :
    (g : GrantRow) (d : Db) {a : Unit {0}} {d' : Db}
    → upsert_grant g d ≡ ok (a, d')
    → IsRole g.role × (d'.grants ≡ upserted g d.grants)
unfolding upsert_grant upserted
upsert_grants g d h = (ground (arith, eq_iff g.role "editor", eq_iff g.role "viewer"), ground arith)

count-new :
    (g : GrantRow) (node user : String) (gs : List GrantRow)
    → any (is_grant g.node_id g.grantee_id) gs ≡ false
    → count (is_grant node user) gs ≤ 1
    → count (is_grant node user) (g ∷ gs) ≤ 1
count-new g node user gs fresh once = elim (Bool-cases (is_grant node user g)) [
  | inl e ↦
      let node_eq : g.node_id ≡ node = ground (arith, e, eq_iff g.node_id node) in
      let user_eq : g.grantee_id ≡ user = ground (arith, e, eq_iff g.grantee_id user) in
      let others : count (is_grant node user) gs ≡ 0 =
        subst (λ u. count (is_grant node u) gs ≡ 0) user_eq
          (subst (λ n. count (is_grant n g.grantee_id) gs ≡ 0) node_eq
            (count_none g.node_id g.grantee_id gs fresh)) in
      rw (e) (omega (arith, others))
  | inr e ↦ rw (e) once
]

upserted-IsShared :
    (g : GrantRow) (d d' : Db)
    → IsRole g.role
    → d'.grants ≡ upserted g d.grants
    → IsShared d
    → IsShared d'
unfolding upserted
upserted-IsShared g d d' r e s =
    elim (Bool-cases (any (is_grant g.node_id g.grantee_id) d.grants)) [
      | inl there ↦
          let changed : d'.grants ≡ set_role g.node_id g.grantee_id g.role d.grants =
            e ∙ rw (there) refl in
          record {
            once = λ node user.
                subst (λ gs. count (is_grant node user) gs ≤ 1) (sym changed)
                  (subst (λ n. n ≤ 1)
                    (sym (count-set_role node user g.node_id g.grantee_id g.role d.grants))
                    (s.once node user));
            roles =
                subst (All (λ g. IsRole g.role)) (sym changed)
                  (All-set_role g.node_id g.grantee_id g.role d.grants r s.roles);
          }
      | inr fresh ↦
          let added : d'.grants ≡ g ∷ d.grants = e ∙ rw (fresh) refl in
          record {
            once = λ node user.
                subst (λ gs. count (is_grant node user) gs ≤ 1) (sym added)
                  (count-new g node user d.grants fresh (s.once node user));
            roles = subst (All (λ g. IsRole g.role)) (sym added) (r, s.roles);
          }
    ]

revoked-IsShared :
    (node name : String) (d : Db) (a : ℕ) (d' : Db)
    → IsShared d
    → delete_grant node name d ≡ ok (a, d')
    → IsShared d'
unfolding delete_grant
revoked-IsShared node name d a d' s h = elim (Option-cases (find (λ u. u.username) name d.users)) [
  | inl absent ↦ of_grants d d' (ground (arith, absent)) s
  | inr (u, found) ↦
      let kept : d'.grants ≡ keep (λ g. not (is_grant node u.id g)) d.grants =
        ground (arith, found) in
      record {
        once = λ n user.
            subst (λ gs. count (is_grant n user) gs ≤ 1) (sym kept)
              (omega (
                arith,
                count-keep (is_grant n user) (λ g. not (is_grant node u.id g)) d.grants,
                s.once n user,
              ));
        roles =
            subst (All (λ g. IsRole g.role)) (sym kept)
              (All-keep (λ g. IsRole g.role) (λ g. not (is_grant node u.id g)) d.grants s.roles);
      }
]

rename_grants :
    (id : String) (name : Bytes) (now : ℕ) (d : Db) {a : Unit {0}} {d' : Db}
    → rename_node id name now d ≡ ok (a, d')
    → d'.grants ≡ d.grants
unfolding rename_node
rename_grants id name now d h = ground arith

IsShared-IsPreserved : (p : Platform) → IsPreserved p IsShared
IsShared-IsPreserved p = record {
  quiet = record {
    on_open = λ s hash wrapped. Keeps-open_object p IsShared s hash wrapped;
    on_grant = λ g.
        Keeps-run p (λ d _. IsShared d) _
          λ d _ a d' s h. let (r, e) = upsert_grants g d h in upserted-IsShared g d d' r e s;
    on_revoke = λ node name.
        Keeps-run p (λ d _. IsShared d) _ λ d _ a d' s h. revoked-IsShared node name d a d' s h;
    on_rename = λ id name now.
        Keeps-run p (λ d _. IsShared d) _
          λ d _ a d' s h. of_grants d d' (rename_grants id name now d h) s;
  };
  grows = λ u name mime staged d n d' i s. of_grants d d' (ap (λ (d : Db). d.grants) i.tables) s;
  shrinks = λ n d s found. record {
    once = λ node user.
        omega (arith, count-delete (is_grant node user) n.id d.grants, s.once node user);
    roles = All-delete (λ g. IsRole g.role) n.id d.grants s.roles;
  };
}

-- Where each user has at most one grant on a node and every grant has the editor or the viewer
-- role, this holds after any sequence of requests on files, whatever external calls fail in them
-- and however each request ends.
pub perform_all-IsShared :
    (p : Platform) (r : Repo) (qs : List Request) (w : World)
    → IsShared w.db
    → IsShared (perform_all p r qs w).db
perform_all-IsShared p r = perform_all_preserves p r IsShared (IsShared-IsPreserved p)
