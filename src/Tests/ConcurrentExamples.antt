-- ===== src/Tests/ConcurrentExamples.antt =====
-- Requests for many clusters at the same time.
use presto_on_k8s_operator.Controller.Alike.{IsReady}
use presto_on_k8s_operator.Controller.Program.{done}
use presto_on_k8s_operator.Controller.Concurrent.Results.{AsAlone, concurrent-AsAlone}
use presto_on_k8s_operator.Controller.Concurrent.Finishes.{concurrent_converges}
use presto_on_k8s_operator.Controller.Concurrent.System.{
  System, Reach, OwnCalls, OwnCalls-Reach, start, later, again, beginning, IsOver, whole, set,
}
use presto_on_k8s_operator.Kube.Client.{Kind}
use presto_on_k8s_operator.Kube.Meta.{NamespacedName}
use presto_on_k8s_operator.Prelude.{
  ℕ, zero, suc, ◌≡◌, refl, ◌≢◌, ap, [], ◌∷◌, ◌++◌, length, inl, length-append, none, some, arith,
}
use presto_on_k8s_operator.Prelude.Int.{pos}
use presto_on_k8s_operator.Reconciler.Settled.{IsSettled}
use presto_on_k8s_operator.Status.Quiet.{result_for, available, with_status}
use presto_on_k8s_operator.Tests.Data.{plain, plain-IsDocumented, demo, demo_maps, server}
use presto_on_k8s_operator.Tests.Memory.{memory, view, find, same_key}
use presto_on_k8s_operator.Tests.Memory.Laws.{memory_quiet}
use presto_on_k8s_operator.Tests.Memory.Local.{memory-IsLocal}
use presto_on_k8s_operator.Text.{Text, codes, ◌==◌}

unfoldable marks : ℕ → Text
marks zero = []
marks (suc i) = b'x' ∷ marks i

length-marks : (i : ℕ) → length (marks i) ≡ i
unfolding marks
length-marks zero = refl
length-marks (suc i) = ap suc (length-marks i)

-- `demo`, `demox`, `demoxx` and so on.
abbrev many : ℕ → NamespacedName
many i = record { namespace = codes "default"; name = codes "demo" ++ marks i }

many_distinct : (i j : ℕ) → i ≢ j → many i ≢ many j
many_distinct i j differ e = omega (
  arith,
  differ,
  ap (λ n. length n.name) e,
  length-append (codes "demo") (marks i),
  length-append (codes "demo") (marks j),
  length-marks i,
  length-marks j,
)

first_ready : IsReady memory memory_quiet server (many 0)
unfolding marks view find same_key ◌==◌
first_ready = record {
  cluster = demo;
  workers = pos 2;
  found = refl;
  asked = refl;
  maps = demo_maps;
}

abbrev initial : System memory
initial = beginning memory plain plain-IsDocumented view many server

concurrent_converges_example :
    (u : System memory) × OwnCalls memory plain plain-IsDocumented view many 0 initial u
    × (u.workers 0
        ≡ done
            (result_for (available memory memory_quiet (many 0) u.state) first_ready.workers, none))
    × IsSettled memory memory_quiet (many 0) first_ready.workers u.state
    × (view u.state Kind.presto_cluster (many 0)
        ≡ some (with_status first_ready.cluster (available memory memory_quiet (many 0) u.state)))
concurrent_converges_example =
    concurrent_converges plain plain-IsDocumented memory memory_quiet memory-IsLocal many
      many_distinct server initial 0 first_ready start

-- The first request has ended.
first_ended :
    (u : System memory) × Reach memory plain plain-IsDocumented view many initial u
    × IsOver memory (u.workers 0)
first_ended =
    let (u, run, over, _, _) =
      concurrent_converges plain plain-IsDocumented memory memory_quiet memory-IsLocal many
        many_distinct server initial 0 first_ready start in
    (u, OwnCalls-Reach memory plain plain-IsDocumented view many run, inl (_, over))

-- Its cluster is requested again.
abbrev requested_again : System memory
requested_again = record {
  state = first_ended.0.state;
  workers = set first_ended.0.workers 0 (whole memory plain plain-IsDocumented view many 0);
}

concurrent-AsAlone_example :
    AsAlone plain plain-IsDocumented memory view memory-IsLocal many many_distinct server
      requested_again 0
concurrent-AsAlone_example =
    concurrent-AsAlone plain plain-IsDocumented memory view memory-IsLocal many many_distinct server
      requested_again 0 (later first_ended.1 (again 0 first_ended.2))
