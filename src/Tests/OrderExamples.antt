-- ===== src/Tests/OrderExamples.antt =====
-- Two clusters on one server, the second with the name of a child of the first.
use presto_on_k8s_operator.Api.{PrestoCluster}
use presto_on_k8s_operator.Api.DeepCopy.{HasMaps}
use presto_on_k8s_operator.Controller.Alike.{IsReady}
use presto_on_k8s_operator.Controller.Order.{SameInBothOrders, reconcile_order}
use presto_on_k8s_operator.Kube.Meta.{NamespacedName}
use presto_on_k8s_operator.Prelude.{refl, sym, [], ◌∷◌}
use presto_on_k8s_operator.Prelude.Int.{pos}
use presto_on_k8s_operator.Tests.Data.{
  plain, plain-IsDocumented, request, other_request, other_differs, demo, demo_maps, empty_server,
}
use presto_on_k8s_operator.Tests.Memory.{Server, memory, view, find, same_key}
use presto_on_k8s_operator.Tests.Memory.Laws.{memory_quiet}
use presto_on_k8s_operator.Text.{codes, ◌==◌}

abbrev neighbour : PrestoCluster
neighbour = record demo {
  metadata = record demo.metadata { name = codes "demo-worker"; uid = codes "2" };
}

neighbour_maps : HasMaps neighbour
neighbour_maps = record {
  coordinator_etc = demo_maps.coordinator_etc;
  worker_etc = demo_maps.worker_etc;
  catalog = demo_maps.catalog;
  core_site = demo_maps.core_site;
}

abbrev shared : Server
shared = record empty_server { clusters = demo ∷ neighbour ∷ [] }

abbrev Ready : Server → NamespacedName → Type 0
Ready = IsReady memory memory_quiet

demo-Ready : Ready shared request
unfolding view find same_key ◌==◌
demo-Ready = record {
  cluster = demo;
  workers = pos 2;
  found = refl;
  asked = refl;
  maps = demo_maps;
}

neighbour-Ready : Ready shared other_request
unfolding view find same_key ◌==◌
neighbour-Ready = record {
  cluster = neighbour;
  workers = pos 2;
  found = refl;
  asked = refl;
  maps = neighbour_maps;
}

reconcile_order_example :
    SameInBothOrders plain plain-IsDocumented memory memory_quiet request other_request shared
reconcile_order_example =
    reconcile_order plain plain-IsDocumented memory memory_quiet request other_request shared
      (λ e. other_differs (sym e)) demo-Ready neighbour-Ready
