-- ===== src/Process.antt =====
-- main.go, and `Reconcile` and `SetupWithManager` of controllers/controller.go: how the process wires
-- the operator to the manager of controller-runtime. Log lines, metrics and the health of the
-- process are left out.
pub mod Stages
use presto_on_k8s_operator.Controller.{reconcile}
use presto_on_k8s_operator.Go.{Action}
use presto_on_k8s_operator.Kube.Client.{Client, Kind}
use presto_on_k8s_operator.Kube.Machinery.{Machinery}
use presto_on_k8s_operator.Kube.Meta.{NamespacedName}
use presto_on_k8s_operator.Prelude.{ℕ, Bool, false, Option, none, some, is_some, if◌then◌else◌}
use presto_on_k8s_operator.Prelude.Int.{ℤ, pos}
use presto_on_k8s_operator.Reconciler.{ReconcileResult}
use presto_on_k8s_operator.Text.{Text, codes}

-- The values that the three flags have after `flag.Parse`, and their defaults.
pub record Flags : Type 0 where
  pub metrics_addr : Text
  pub enable_leader_election : Bool
  pub max_concurrent_reconciles : ℤ

abbrev pub default_flags : Flags
default_flags = record {
  metrics_addr = codes ":18080";
  enable_leader_election = false;
  max_concurrent_reconciles = pos 1;
}

-- `ctrl.Options`
pub record Options (Scheme : Type 0) : Type 0 where
  pub scheme : Scheme
  pub metrics_bind_address : Text
  pub port : ℕ
  pub leader_election : Bool
  pub leader_election_id : Text

-- What is given to the builder of a controller: the type of its objects, how many requests it serves
-- at a time, and the function that serves one.
pub record Registration (client : Client) : Type 0 where
  pub managed : Kind
  pub max_concurrent_reconciles : ℤ
  pub serve : NamespacedName → Action client.State (ReconcileResult × Option client.Error)

-- The controller-runtime library: a parameter. `client_of` is the manager's client with its event
-- recorder.
pub record Runtime : Type 1 where
  pub State : Type 0
  pub Error : Type 0
  pub Scheme : Type 0
  pub Config : Type 0
  pub Manager : Type 0
  pub client_of : Manager → Client
  -- `runtime.NewScheme`, and the two functions `AddToScheme`
  pub new_scheme : Scheme
  pub add_client_go : Scheme → Option Error × Scheme
  pub add_prestooperator : Scheme → Option Error × Scheme
  -- `ctrl.GetConfigOrDie`: without a configuration the process ends with status 1
  pub get_config : State → Option Config × State
  pub new_manager : Config → Options Scheme → State → (Option Error × Manager) × State
  -- `ctrl.NewControllerManagedBy(mgr).….Complete(r)`
  pub complete : (mgr : Manager) → Registration (client_of mgr) → State → Option Error × State
  -- `mgr.Start`, which returns when the process is told to stop or the manager fails
  pub start : Manager → State → Option Error × State

-- `main` comes to its end, or `os.Exit` is called.
pub data Ended (S : Type 0) : Type 0 where
  finished : S → Ended S
  exits : ℕ → S → Ended S

-- `PrestoClusterReconciler.Reconcile`: a new controller serves the request.
unfoldable pub reconcile_request :
    (lib : Machinery) (client : Client)
    → NamespacedName
    → Action client.State (ReconcileResult × Option client.Error)
reconcile_request lib client req = reconcile lib client req

module _ (lib : Machinery) (runtime : Runtime) where
  open runtime use {
    State, Error, Scheme, Config, Manager, client_of, new_scheme, add_client_go, add_prestooperator,
    get_config, new_manager, complete, start,
  }

  -- `init`: the errors are not looked at.
  unfoldable pub registered_scheme : Scheme
  registered_scheme = (add_prestooperator (add_client_go new_scheme).1).1

  unfoldable pub setup_with_manager : Manager → ℤ → State → Option Error × State
  setup_with_manager mgr max_concurrent_reconciles = complete mgr (record {
    managed = Kind.presto_cluster;
    max_concurrent_reconciles = max_concurrent_reconciles;
    serve = reconcile_request lib (client_of mgr);
  })

  unfoldable pub options_of : Flags → Options Scheme
  options_of flags = record {
    scheme = registered_scheme;
    metrics_bind_address = flags.metrics_addr;
    port = 9443;
    leader_election = flags.enable_leader_election;
    leader_election_id = codes "0eaddc39.k8s.io";
  }

  -- `main` after `flag.Parse`, from its last call to the first.
  unfoldable pub start_manager : Manager → State → Ended State
  start_manager mgr s = let (err, t) = start mgr s in if is_some err then exits 1 t else finished t

  unfoldable pub add_controller : Flags → Manager → State → Ended State
  add_controller flags mgr s =
      let (err, t) = setup_with_manager mgr flags.max_concurrent_reconciles s in
      if is_some err then exits 1 t else start_manager mgr t

  unfoldable pub create_manager : Flags → Config → State → Ended State
  create_manager flags config s =
      let ((err, mgr), t) = new_manager config (options_of flags) s in
      if is_some err then exits 1 t else add_controller flags mgr t

  unfoldable pub run_main : Flags → State → Ended State
  run_main flags s =
      let (found, t) = get_config s in
      elim found [ none ↦ exits 1 t | some config ↦ create_manager flags config t ]
