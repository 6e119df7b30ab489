-- ===== src/Tests/ProcessExamples.antt =====
-- `main` on a manager library that refuses to register the controller.
use presto_on_k8s_operator.Prelude.{ℕ, suc, none, some, []}
use presto_on_k8s_operator.Process.{Runtime, default_flags, run_main}
use presto_on_k8s_operator.Process.Stages.{IsOrderly, logging, run_main-IsOrderly}
use presto_on_k8s_operator.Tests.Data.{plain}
use presto_on_k8s_operator.Tests.Memory.{ApiError, memory}

abbrev unregistrable : Runtime
unregistrable = record {
  State = ℕ;
  Error = ApiError;
  Scheme = ℕ;
  Config = ℕ;
  Manager = ℕ;
  client_of = λ mgr. memory;
  new_scheme = 0;
  add_client_go = λ n. (none, suc n);
  add_prestooperator = λ n. (none, suc n);
  get_config = λ s. (some 7, suc s);
  new_manager = λ config options s. ((none, config), suc s);
  complete = λ mgr registration s. (some ApiError.unavailable, suc s);
  start = λ mgr s. (none, suc s);
}

run_main-IsOrderly_example :
    IsOrderly default_flags (run_main plain (logging unregistrable) default_flags (0, []))
run_main-IsOrderly_example = run_main-IsOrderly plain unregistrable default_flags 0
