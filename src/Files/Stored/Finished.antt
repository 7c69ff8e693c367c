-- ===== src/Files/Stored/Finished.antt =====
-- A staged object is at hand until it is published or aborted, and never after.
use securevault.Storage.RoundTrip.{commit_ok}
use securevault.Effect.Bind.{gets_ok, pass_ok, bind_ok}
use securevault.Effect.Keeps.{
  Keeps-pure, Keeps-raise_if, Keeps-if, Keeps-gets, Keeps-bind, Keeps-modify, Keeps-os_call,
  keeps_rules, Keeps,
}
use securevault.Storage.Store.{object_path, abort, commit, Store, is_done, set_done, Staged}
use securevault.Storage.Disk.{content_at, rename, remove_file}
use securevault.Effect.{modify, M, World, ◌>>=◌, ◌>>◌}
use mathlib.Core.Path.{subst}
use securevault.Base.{
  eq_refl, nat_eq, string_eq, Bytes, bytes_eq, lookup, lookup-insert, ok, ℕ, ◌≡◌, refl, sym, ◌∙◌,
  Bool, true, false, none, some, List, arith,
}
use securevault.Platform.{Platform}

abbrev pub is_final : ℕ → List (ℕ × Bool) → Bool
is_final handle done = elim (lookup handle done) [ none ↦ false | some b ↦ b ]

-- Where the object is not finalized, its temporary file has the bytes.
abbrev pub IsAtHand : Staged → Bytes → List (Bytes × Bytes) → List (ℕ × Bool) → Type 0
IsAtHand st raw disk done = is_final st.handle done ≡ false → lookup st.tmp_path disk ≡ some raw

module _ (p : Platform) (handle : ℕ) where
  abbrev Final : World → Type 0
  Final w = is_done handle w ≡ true

  remove_file-Final : (path : Bytes) → Keeps Final (remove_file p path)
  unfolding remove_file
  remove_file-Final path = search (keeps_rules, Keeps-os_call, Keeps-modify) depth 10

  rename-Final : (old new : Bytes) → Keeps Final (rename p old new)
  unfolding rename
  rename-Final old new = search (keeps_rules, Keeps-os_call, Keeps-modify) depth 10

  set_done-Final : (w : World) → Final (set_done handle true w)
  set_done-Final w = ground (arith, eq_refl handle, lookup-insert handle handle true w.done)

  Final-Keeps :
      {A : Type 0} (m : M A) (st : Staged) (raw : Bytes)
      → Keeps Final m
      → (w : World) → st.handle ≡ handle
      → Final w
      → IsAtHand st raw (m w).1.disk (m w).1.done
  Final-Keeps m st raw k w same h open_still =
      absurd (cc (k.at w h, subst (λ n. is_done n (m w).1 ≡ false) same open_still))

module _ (p : Platform) (s : Store) (st : Staged) (raw : Bytes) where
  abbrev AtHand : World → Type 0
  AtHand w = IsAtHand st raw w.disk w.done

  finished :
      {A : Type 0} (m : M A)
      → Keeps (Final p st.handle) m
      → Keeps AtHand (modify (set_done st.handle true) >> m)
  unfolding ◌>>=◌ modify
  finished m k = record {
    at = λ w h. Final-Keeps p st.handle m st raw k _ refl (set_done-Final p st.handle w);
  }

  pub commit-AtHand : Keeps AtHand (commit p s st)
  unfolding commit
  commit-AtHand = Keeps-bind _ _ (Keeps-gets _) λ finalized.
      Keeps-bind _ _ (Keeps-raise_if _ _) λ _.
        finished _ (search (keeps_rules, Keeps-os_call, remove_file-Final, rename-Final) depth 10)

  pub abort-AtHand : Keeps AtHand (abort p st)
  unfolding abort
  abort-AtHand = Keeps-bind _ _ (Keeps-gets _) λ finalized.
      Keeps-if _ _ _ (Keeps-pure tt) (finished _ (search (keeps_rules, remove_file-Final) depth 10))

  commit_fresh :
      (w : World) {a : Unit {0}} {w' : World}
      → commit p s st w ≡ (ok a, w')
      → is_done st.handle w ≡ false
  unfolding commit
  commit_fresh w h =
      bind_ok _ _ w h
        λ finalized w1 asked h1. pass_ok _ _ _ w1 h1 λ fresh h2. sym (gets_ok _ w asked).0 ∙ fresh

  -- A commit that succeeds found the object at hand, and moves its bytes to its address.
  pub commit_moves :
      (w : World) {a : Unit {0}} {w' : World}
      → commit p s st w ≡ (ok a, w')
      → AtHand w
      → content_at (object_path s st.hash) w' ≡ some raw
  commit_moves w h k = (commit_ok p s st raw w h (k (commit_fresh w h))).1
