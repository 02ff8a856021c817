-- ===== src/Manager/Versions.antt =====
-- The version that `Apply` keeps: it advances exactly with an acknowledged success.
use ubuntu_daemon.Base.{
  ◌≡◌, ◌≢◌, refl, ap, ◌∙◌, true, false, none, some, arith, Text, ok, Bool-cases, inl, inr,
  if◌then◌else◌,
}
use ubuntu_daemon.Base.Int.{ℤ, leb_ℤ}
use ubuntu_daemon.Text.{lit}
use ubuntu_daemon.Protocol.{SysConfigPayload}
use ubuntu_daemon.Files.{Disk, read}
use ubuntu_daemon.Config.{Live}
use ubuntu_daemon.Store.{State, load}
use ubuntu_daemon.Store.Laws.{load-save}
use ubuntu_daemon.Manager.{
  World, Stage, next, apply_steps, save_version, failed_ack, ignored_ack, success_ack, acknowledge,
  apply,
}
use ubuntu_daemon.Manager.Steps.{KeepsState, Keeps, apply_steps-Keeps}

module _ (w : World) where
  load_of_read :
      (d d' : Disk)
      → read d' w.store.path ≡ read d w.store.path
      → load w.store none d' ≡ load w.store none d
  unfolding load
  load_of_read d d' e = rw (e, load) refl

  -- What the store holds behind a sequence of steps that ends in an update of the version.
  abbrev Advances : ℤ → State → Live → Stage → Type 0
  Advances version state s r = load w.store none r.1.disk ≡ (elim r.0 [
    | none ↦ ok (record state { last_config_version = version })
    | some e ↦ load w.store none s.disk
  ])

  save_version-Advances :
      (version : ℤ) (state : State) (text : Text) (s : Live)
      → w.state_calls.temp_name ≢ w.store.path
      → w.store.encode (record state { last_config_version = version }) ≡ ok text
      → w.store.decode text ≡ ok (record state { last_config_version = version })
      → Advances version state s (save_version w version state s)
  unfolding save_version
  save_version-Advances version state text s ne e d = ground (
    arith,
    load-save w.store w.state_calls (record state { last_config_version = version }) text s.disk ne
        e d,
  )

  Advances-from :
      (version : ℤ) (state : State) (s t : Live) (r : Stage)
      → Keeps w s (none, t)
      → Advances version state t r
      → Advances version state s r
  Advances-from version state s t (some e, u) h k = k ∙ load_of_read s.disk t.disk h
  Advances-from version state s t (none, u) h k = k

  next-Advances :
      (version : ℤ) (state : State) (s : Live) (r : Stage)
      → Keeps w s r
      → ((t : Live) → Advances version state t (save_version w version state t))
      → Advances version state s (next r (λ t. save_version w version state t))
  next-Advances version state s (some e, t) h k = load_of_read s.disk t.disk h
  next-Advances version state s (none, t) h k =
      Advances-from version state s t (save_version w version state t) h (k t)

  acknowledge-Advances :
      (version : ℤ) (daemon : Text) (state : State) (s : Live) (r : Stage)
      → Advances version state s r
      → load w.store none (acknowledge w version daemon r).1.disk ≡ (
          if (acknowledge w version daemon r).0.applied
          then ok (record state { last_config_version = version })
          else load w.store none s.disk)
  unfolding acknowledge failed_ack success_ack
  acknowledge-Advances version daemon state s (some e, t) h = h
  acknowledge-Advances version daemon state s (none, t) h = h

  -- Whichever calls fail, the state that the store holds behind `Apply` is the old state with the
  -- new version if the acknowledgement says that the configuration was applied, and the old state
  -- if it does not. Conditions: the store could be read, no other file that is written is the state
  -- file, and the new state's JSON decodes to the new state.
  pub apply-Advances :
      (p : SysConfigPayload) (daemon text : Text) (state : State) (s : Live)
      → KeepsState w s.config
      → w.state_failure ≡ none
      → load w.store none s.disk ≡ ok state
      → w.store.encode (record state { last_config_version = p.config_version }) ≡ ok text
      → w.store.decode text ≡ ok (record state { last_config_version = p.config_version })
      → load w.store none (apply w p daemon s).1.disk ≡ (
          if (apply w p daemon s).0.applied
          then ok (record state { last_config_version = p.config_version })
          else ok state)
  unfolding apply ignored_ack
  apply-Advances p daemon text state s k f e en de =
      elim (Bool-cases (leb_ℤ p.config_version state.last_config_version)) [
        | inl old ↦ rw (f, e, old, apply) e
        | inr newer ↦
            rw (f, e, newer, apply)
              (rw e at (
                acknowledge-Advances p.config_version daemon state s
                  (next (apply_steps w p.config s) (λ t. save_version w p.config_version state t))
                  (next-Advances p.config_version state s (apply_steps w p.config s)
                    (apply_steps-Keeps w p.config s k)
                    (λ t. save_version-Advances p.config_version state text t k.state_temp en de))))
      ]

  leb_refl : (v : ℤ) → leb_ℤ v v ≡ true
  leb_refl v = ground arith

  apply_of_old :
      (w' : World) (p : SysConfigPayload) (daemon : Text) (state : State) (s : Live)
      → load w'.store w'.state_failure s.disk ≡ ok state
      → leb_ℤ p.config_version state.last_config_version ≡ true
      → apply w' p daemon s ≡ (ignored_ack p.config_version daemon, s)
  unfolding apply
  apply_of_old w' p daemon state s e old = rw (e, apply) (rw old refl)

  -- A configuration that was applied is not applied again: the same message, delivered once more
  -- with the same store, is acknowledged as ignored and changes neither the configuration in use
  -- nor the disk, whatever the other calls of the second delivery would give. Conditions: the store
  -- could be read at both deliveries, no other file that the first one wrote is the state file, and
  -- the new state's JSON decodes to the new state.
  pub apply-twice :
      (w' : World) (p : SysConfigPayload) (daemon text : Text) (state : State) (s : Live)
      → KeepsState w s.config
      → w.state_failure ≡ none
      → load w.store none s.disk ≡ ok state
      → w.store.encode (record state { last_config_version = p.config_version }) ≡ ok text
      → w.store.decode text ≡ ok (record state { last_config_version = p.config_version })
      → (apply w p daemon s).0.applied ≡ true
      → w'.state_failure ≡ none
      → w'.store ≡ w.store
      → ((apply w' p daemon (apply w p daemon s).1).1 ≡ (apply w p daemon s).1)
        × ((apply w' p daemon (apply w p daemon s).1).0.status ≡ lit "ignored")
        × ((apply w' p daemon (apply w p daemon s).1).0.applied ≡ false)
  unfolding ignored_ack
  apply-twice w' p daemon text state s k f e en de done f' same =
      let t = (apply w p daemon s).1 in
      let updated = record state { last_config_version = p.config_version } in
      let stored : load w.store none t.disk ≡ ok updated =
        rw done at (apply-Advances p daemon text state s k f e en de) in
      let found : load w'.store w'.state_failure t.disk ≡ ok updated = cc in
      let again = apply_of_old w' p daemon updated t found (leb_refl p.config_version) in
      (ap (λ r. r.1) again, ap (λ r. r.0.status) again, ap (λ r. r.0.applied) again)
