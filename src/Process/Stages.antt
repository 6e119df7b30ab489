-- ===== src/Process/Stages.antt =====
-- The stages of `main`: in which order they run, and how the process ends.
use presto_on_k8s_operator.Kube.Client.{Kind}
use presto_on_k8s_operator.Kube.Machinery.{Machinery}
use presto_on_k8s_operator.Prelude.{
  ◌≡◌, refl, sym, subst, ap, Bool, true, false, not, List, [], ◌∷◌, ◌++◌, map, Option, none, some,
  is_some, if◌then◌else◌,
}
use presto_on_k8s_operator.Prelude.Int.{ℤ}
use presto_on_k8s_operator.Process.{
  Flags, Registration, Runtime, Ended, finished, exits, run_main, setup_with_manager, options_of,
  registered_scheme, reconcile_request, start_manager, add_controller, create_manager,
}
use presto_on_k8s_operator.Text.{Text}

-- A call of the library by `main`, with what it is told of the flags.
pub data Stage : Type 0 where
  configuring : Stage
  managing : Text → Bool → Stage
  registering : Kind → ℤ → Stage
  starting : Stage

abbrev pub Log : Type 0
Log = List (Stage × Bool)

-- The library with a note of each call, the last one first, and of whether it succeeded.
abbrev pub logging : Runtime → Runtime
logging runtime = record {
  State = runtime.State × Log;
  Error = runtime.Error;
  Scheme = runtime.Scheme;
  Config = runtime.Config;
  Manager = runtime.Manager;
  client_of = runtime.client_of;
  new_scheme = runtime.new_scheme;
  add_client_go = runtime.add_client_go;
  add_prestooperator = runtime.add_prestooperator;
  get_config = λ (s, log).
      let (found, t) = runtime.get_config s in (found, (t, (configuring, is_some found) ∷ log));
  new_manager = λ config options (s, log).
      let ((err, mgr), t) = runtime.new_manager config options s in
      let stage = managing options.metrics_bind_address options.leader_election in
      ((err, mgr), (t, (stage, not (is_some err)) ∷ log));
  complete = λ mgr registration (s, log).
      let (err, t) = runtime.complete mgr registration s in
      let stage = registering registration.managed registration.max_concurrent_reconciles in
      (err, (t, (stage, not (is_some err)) ∷ log));
  start = λ mgr (s, log).
      let (err, t) = runtime.start mgr s in (err, (t, (starting, not (is_some err)) ∷ log));
}

-- The stages of a whole run, the last one first.
abbrev pub all_stages : Flags → List Stage
all_stages flags =
    starting
    ∷ registering Kind.presto_cluster flags.max_concurrent_reconciles
    ∷ managing flags.metrics_addr flags.enable_leader_election
    ∷ configuring
    ∷ []

abbrev pub passed : List Stage → Log
passed = map (λ stage. (stage, true))

-- A run that comes to its end has passed all stages. One that exits does so with status 1, at the
-- first stage that failed.
abbrev pub IsOrderly : {S : Type 0} → Flags → Ended (S × Log) → Type 0
IsOrderly flags (finished (s, log)) = log ≡ passed (all_stages flags)
IsOrderly flags (exits code (s, log)) =
    (code ≡ 1)
    × (stage : Stage) × (later : List Stage) × (earlier : List Stage) × (all_stages flags
        ≡ later ++ stage ∷ earlier)
    × (log ≡ (stage, false) ∷ passed earlier)

module _ (lib : Machinery) (runtime : Runtime) (flags : Flags) where
  abbrev manager : Stage
  manager = managing flags.metrics_addr flags.enable_leader_election

  abbrev controller : Stage
  controller = registering Kind.presto_cluster flags.max_concurrent_reconciles

  -- A call, of which the process exits on an error.
  call_stage :
      (next : runtime.State × Log → Ended (runtime.State × Log)) (stage : Stage)
      (later earlier : List Stage) (err : Option runtime.Error) (t : runtime.State)
      → all_stages flags ≡ later ++ stage ∷ earlier
      → IsOrderly flags (next (t, passed (stage ∷ earlier)))
      → IsOrderly flags (
          if is_some err
          then exits 1 (t, (stage, not (is_some err)) ∷ passed earlier)
          else next (t, (stage, not (is_some err)) ∷ passed earlier))
  call_stage next stage later earlier none t at h = h
  call_stage next stage later earlier (some e) t at h = (refl, stage, later, earlier, at, refl)

  start_manager-IsOrderly :
      (mgr : runtime.Manager) (s : runtime.State)
      → IsOrderly flags (
          start_manager lib
            (logging runtime)
            mgr
            (s, passed (controller ∷ manager ∷ configuring ∷ [])))
  unfolding start_manager
  start_manager-IsOrderly mgr s =
      let (err, t) = runtime.start mgr s in
      call_stage (λ u. finished u) starting [] (controller ∷ manager ∷ configuring ∷ []) err t refl
        refl

  add_controller-IsOrderly :
      (mgr : runtime.Manager) (s : runtime.State)
      → IsOrderly flags
          (add_controller lib (logging runtime) flags mgr (s, passed (manager ∷ configuring ∷ [])))
  unfolding add_controller setup_with_manager
  add_controller-IsOrderly mgr s =
      let registration : Registration (runtime.client_of mgr) = record {
        managed = Kind.presto_cluster;
        max_concurrent_reconciles = flags.max_concurrent_reconciles;
        serve = reconcile_request lib (runtime.client_of mgr);
      } in
      let (err, t) = runtime.complete mgr registration s in
      call_stage (start_manager lib (logging runtime) mgr) controller (starting ∷ [])
        (manager ∷ configuring ∷ []) err t refl (start_manager-IsOrderly mgr t)

  create_manager-IsOrderly :
      (config : runtime.Config) (s : runtime.State)
      → IsOrderly flags
          (create_manager lib (logging runtime) flags config (s, passed (configuring ∷ [])))
  unfolding create_manager options_of registered_scheme
  create_manager-IsOrderly config s =
      let ((err, mgr), t) = runtime.new_manager config (options_of lib runtime flags) s in
      call_stage (add_controller lib (logging runtime) flags mgr) manager
        (starting ∷ controller ∷ []) (configuring ∷ []) err t refl (add_controller-IsOrderly mgr t)

  from_config-IsOrderly :
      (found : Option runtime.Config) (b : Bool) (t : runtime.State)
      → is_some found ≡ b
      → IsOrderly flags (elim found [
        | none ↦ exits 1 (t, (configuring, b) ∷ [])
        | some config ↦ create_manager lib (logging runtime) flags config (t, (configuring, b) ∷ [])
      ])
  from_config-IsOrderly none b t same = (
    refl,
    configuring,
    starting ∷ controller ∷ manager ∷ [],
    [],
    refl,
    ap (λ c. (configuring, c) ∷ []) (sym same),
  )
  from_config-IsOrderly (some config) b t same =
      subst
        (λ c.
          IsOrderly flags
            (create_manager lib (logging runtime) flags config (t, (configuring, c) ∷ [])))
        same (create_manager-IsOrderly config t)

-- For every manager library, `main` reads the configuration, makes a manager with the flags' address
-- and choice of leader election, registers the controller of clusters with the flags' count of
-- requests at a time, and starts the manager, in this order. At the first of these that fails the
-- process exits with status 1, and none of the later ones is run.
pub run_main-IsOrderly :
    (lib : Machinery) (runtime : Runtime) (flags : Flags) (s : runtime.State)
    → IsOrderly flags (run_main lib (logging runtime) flags (s, []))
unfolding run_main
run_main-IsOrderly lib runtime flags s =
    let (found, t) = runtime.get_config s in
    from_config-IsOrderly lib runtime flags found (is_some found) t refl
