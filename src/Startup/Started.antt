-- ===== src/Startup/Started.antt =====
-- What a server that was started is made of, and when it is started.
use securevault.Platform.Laws.{NoFault}
use securevault.Database.Migrations.{Outcome, migrate, Schema}
use securevault.Config.Usable.{load-IsUsable, IsUsable}
use securevault.Effect.Bind.{lift_ok, bind_ok, pass_ok}
use securevault.Api.Guards.{Ui}
use securevault.Auth.Sessions.{set_registration_policy}
use securevault.Auth.Policy.{is_mode, RegistrationPolicy, effective_policy}
use securevault.Config.{load, Config, Env}
use securevault.Effect.{tick, raise_if, call, lift, os_call, World, pure, ◌>>=◌}
use securevault.Storage.Store.{Store, new}
use securevault.Startup.{
  ended, stopped, migrated, connected, connect, configured, assemble, listener, Listener, run,
}
use securevault.Base.{
  if◌then◌else◌, nat_eq, string_eq, Bytes, bytes_beq, bytes_eq, eq_cases, Result, internal, ok, err,
  ℕ, suc, ◌≡◌, refl, ap, ◌∙◌, inl, inr, Bool, true, false, Option, List, [],
}
use securevault.Platform.{Platform}

-- A server as its configuration says.
pub record IsConfigured (cfg : Config) (ui : Option Ui) (l : Listener) : Type 0 where
  pub addr : l.addr ≡ cfg.listen_addr
  pub root : l.handler.files.store.root ≡ cfg.data_dir
  pub kek : l.handler.files.store.kek ≡ cfg.master_key
  pub max_bytes : l.handler.files.max_bytes ≡ cfg.max_upload_bytes
  pub max_upload : l.handler.max_upload ≡ cfg.max_upload_bytes
  pub dev_mode : l.handler.dev_mode ≡ cfg.dev
  pub mode : l.handler.auth.policy.mode ≡ cfg.registration_mode
  pub max_users : l.handler.auth.policy.max_users ≡ cfg.max_users
  pub interface : l.handler.ui ≡ ui

pub record IsStarted (p : Platform) (env : Env) (ui : Option Ui) (l : Listener) : Type 0 where
  pub cfg : Config
  pub loaded : load p env ≡ ok cfg
  pub usable : IsUsable p cfg
  pub configured : IsConfigured cfg ui l

new_ok :
    (p : Platform) (dir kek : Bytes) (w : World) {s : Store} {w' : World}
    → new p dir kek w ≡ (ok s, w')
    → s ≡ record { root = dir; kek = kek }
unfolding new pure
new_ok p dir kek w h =
    pass_ok _ _ _ w h
      λ sized h1. bind_ok _ _ w h1 λ _ w1 made h2. bind_ok _ _ w1 h2 λ _ w2 made' h3. cc

no_mode : is_mode [] ≡ false
unfolding bytes_beq
no_mode = refl

effective-eq : (q : RegistrationPolicy) → is_mode q.mode ≡ true → effective_policy q ≡ q
unfolding effective_policy
effective-eq q h = elim (eq_cases q.mode []) [
  | inl (_, empty) ↦ absurd (cc (no_mode, ap is_mode empty, h))
  | inr (given, _) ↦ rw (given) refl
]

listener-IsConfigured :
    (p : Platform) (cfg : Config) (ui : Option Ui) (l : Listener)
    → IsUsable p cfg
    → l
      ≡ listener (record { root = cfg.data_dir; kek = cfg.master_key }) cfg.registration_mode ui cfg
    → IsConfigured cfg ui l
unfolding set_registration_policy
listener-IsConfigured p cfg ui l usable made =
    let policy = ap (λ (l : Listener). l.handler.auth.policy) made ∙ effective-eq _ usable.mode in
    record {
      addr = ap (λ (l : Listener). l.addr) made;
      root = ap (λ (l : Listener). l.handler.files.store.root) made;
      kek = ap (λ (l : Listener). l.handler.files.store.kek) made;
      max_bytes = ap (λ (l : Listener). l.handler.files.max_bytes) made;
      max_upload = ap (λ (l : Listener). l.handler.max_upload) made;
      dev_mode = ap (λ (l : Listener). l.handler.dev_mode) made;
      mode = ap (λ (q : RegistrationPolicy). q.mode) policy;
      max_users = ap (λ (q : RegistrationPolicy). q.max_users) policy;
      interface = ap (λ (l : Listener). l.handler.ui) made;
    }

assemble_ok :
    (p : Platform) (ui : Option Ui) (cfg : Config) (w : World) {l : Listener} {w' : World}
    → assemble p ui cfg w ≡ (ok l, w')
    → IsUsable p cfg
    → l
      ≡ listener (record { root = cfg.data_dir; kek = cfg.master_key }) cfg.registration_mode ui cfg
unfolding assemble pure
assemble_ok p ui cfg w h usable = bind_ok _ _ w h λ store w1 made h1.
    bind_ok _ _ w1 h1 λ mode w2 parsed h2.
      let store_eq = new_ok p cfg.data_dir cfg.master_key w made in
      let mode_eq : mode ≡ cfg.registration_mode = cc ((lift_ok _ w1 parsed).0, usable.accepted) in
      cc (h2, store_eq, mode_eq)

module _ (p : Platform) {S : Type 0} (exec : Bytes → S → Option S) (fails : ℕ → Bool)
    (entries : List (Bytes × Bytes)) (ui : Option Ui) where
  after_migration :
      (cfg : Config) (o : Outcome S) (w : World) {l : Listener}
      → (migrated p exec fails entries ui cfg o w).result ≡ ok l
      → IsUsable p cfg
      → (l
          ≡ listener
              (record { root = cfg.data_dir; kek = cfg.master_key })
              cfg.registration_mode
              ui
              cfg)
        × (o.failed ≡ false)
  after_migration cfg o w {l} h usable = go o.failed refl h
    where
      go :
          (b : Bool)
          → o.failed ≡ b
          → (if b
              then stopped p exec fails entries ui internal o.schema w
              else ended p exec fails entries ui o.schema (assemble p ui cfg w)).result
            ≡ ok l
          → (l
              ≡ listener
                  (record { root = cfg.data_dir; kek = cfg.master_key })
                  cfg.registration_mode
                  ui
                  cfg)
            × (o.failed ≡ false)
      go true e k = absurd (cc k)
      go false e k =
          let did : assemble p ui cfg w ≡ (ok l, (assemble p ui cfg w).1) = cc k in
          (assemble_ok p ui cfg w did usable, e)

  after_connection :
      (cfg : Config) (s : Schema S) (x : Result (Unit {0}) × World) {l : Listener}
      → (connected p exec fails entries ui cfg s x).result ≡ ok l
      → IsUsable p cfg
      → (l
          ≡ listener
              (record { root = cfg.data_dir; kek = cfg.master_key })
              cfg.registration_mode
              ui
              cfg)
        × ((migrate exec fails entries s).failed ≡ false)
  after_connection cfg s (ok _, w) h usable =
      after_migration cfg (migrate exec fails entries s) w h usable
  after_connection cfg s (err e, w) h usable = absurd (cc h)

  -- A server is started only with a configuration that was loaded and is usable, and after all
  -- migrations succeeded: it listens on the address of the configuration, its store has the data
  -- directory and the key, and both limits for uploads, the development mode, the registration mode
  -- and the cap on users are those of the configuration.
  pub run-IsStarted :
      (env : Env) (s : Schema S) (w : World) {l : Listener}
      → (run p exec fails entries ui env s w).result ≡ ok l
      → IsStarted p env ui l × ((migrate exec fails entries s).failed ≡ false)
  unfolding run
  run-IsStarted env s w {l} h = go (load p env) refl h
    where
      go :
          (c : Result Config)
          → load p env ≡ c
          → (configured p exec fails entries ui c s w).result ≡ ok l
          → IsStarted p env ui l × ((migrate exec fails entries s).failed ≡ false)
      go (ok cfg) e k =
          let usable = load-IsUsable p env e in
          let (made, migrated_all) = after_connection cfg s (connect p w) k usable in
          (
            record {
              cfg = cfg;
              loaded = e;
              usable = usable;
              configured = listener-IsConfigured p cfg ui l usable made;
            },
            migrated_all,
          )
      go (err e) _ k = absurd (cc k)

  connect-eq : (w : World) → NoFault p → connect p w ≡ (ok tt, tick (tick w))
  unfolding connect call ◌>>=◌
  connect-eq w up = rw (up w.step, up (suc w.step)) refl

  assemble-eq :
      (cfg : Config) (w : World)
      → NoFault p
      → IsUsable p cfg
      → (assemble p ui cfg w).0
        ≡ ok (
            listener
              (record { root = cfg.data_dir; kek = cfg.master_key })
              cfg.registration_mode
              ui
              cfg)
  unfolding assemble new pure os_call ◌>>=◌ lift raise_if
  assemble-eq cfg w up usable = rw (usable.key, up w.step, up (suc w.step), usable.accepted) refl

  run-eq :
      (env : Env) (s : Schema S) (w : World) (cfg : Config)
      → NoFault p
      → load p env ≡ ok cfg
      → (migrate exec fails entries s).failed ≡ false
      → (run p exec fails entries ui env s w).result
        ≡ ok (
            listener
              (record { root = cfg.data_dir; kek = cfg.master_key })
              cfg.registration_mode
              ui
              cfg)
  unfolding run
  run-eq env s w cfg up loaded fine =
      ap (λ c. (configured p exec fails entries ui c s w).result) loaded
      ∙ (ap (λ x. (connected p exec fails entries ui cfg s x).result) (connect-eq w up)
          ∙ (ap
                (λ b.
                  (if b
                    then stopped p exec fails entries ui internal
                        (migrate exec fails entries s).schema (tick (tick w))
                    else ended p exec fails entries ui (migrate exec fails entries s).schema
                        (assemble p ui cfg (tick (tick w)))).result)
                fine
              ∙ assemble-eq cfg (tick (tick w)) up (load-IsUsable p env loaded)))

  -- Where no call fails, a configuration that loads and migrations that succeed give a server with
  -- the address, the data directory, the key, the limits for uploads, the development mode, the
  -- registration mode and the cap on users of the configuration.
  pub run-starts :
      (env : Env) (s : Schema S) (w : World) (cfg : Config)
      → NoFault p
      → load p env ≡ ok cfg
      → (migrate exec fails entries s).failed ≡ false
      → (l : Listener) × ((run p exec fails entries ui env s w).result ≡ ok l)
        × IsConfigured cfg ui l
  run-starts env s w cfg up loaded fine = (
    _,
    run-eq env s w cfg up loaded fine,
    listener-IsConfigured p cfg ui _ (load-IsUsable p env loaded) refl,
  )
