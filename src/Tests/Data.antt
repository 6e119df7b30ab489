-- ===== src/Tests/Data.antt =====
-- A cluster, the server that holds it, and clients that fail.
use presto_on_k8s_operator.Api.{PrestoCluster, new_presto_cluster}
use presto_on_k8s_operator.Api.DeepCopy.{HasMaps}
use presto_on_k8s_operator.Kube.Client.{Client, Kind}
use presto_on_k8s_operator.Kube.Machinery.{Machinery, IsDocumented}
use presto_on_k8s_operator.Kube.Meta.{NamespacedName}
use presto_on_k8s_operator.Maps.{StringMap, lookup}
use presto_on_k8s_operator.Prelude.{◌≡◌, refl, ◌≢◌, ap, arith, true, [], ◌∷◌, ◌++◌, none, some}
use presto_on_k8s_operator.Prelude.Int.{pos}
use presto_on_k8s_operator.Tests.Memory.{ApiError, Server, memory, view, find, same_key}
use presto_on_k8s_operator.Text.{codes, ◌==◌}
use presto_on_k8s_operator.Utils.Names.{point_at}

-- The Kubernetes libraries: a deep copy is the value itself, and every name is valid.
abbrev pub plain : Machinery
plain = record {
  new_controller_ref = λ o g. record {
    api_version = g.group ++ b'/' ∷ g.version;
    kind = g.kind;
    name = o.name;
    uid = o.uid;
    controller = some true;
    block_owner_deletion = some true;
  };
  object_meta_deep_copy = λ o. o;
  resources_deep_copy = λ r. r;
  list_meta_deep_copy = λ l. l;
  name_is_dns_subdomain = λ _ _. [];
}

pub plain-IsDocumented : IsDocumented plain
plain-IsDocumented = record {
  ref_name = λ o g. refl;
  ref_uid = λ o g. refl;
  ref_kind = λ o g. refl;
  ref_api_version = λ o g named. refl;
  ref_controller = λ o g. refl;
  meta_copied = λ o. refl;
  resources_copied = λ r. refl;
  list_meta_copied = λ l. refl;
}

abbrev pub request : NamespacedName
request = record { namespace = codes "default"; name = codes "demo" }

abbrev pub other_request : NamespacedName
other_request = record { namespace = codes "default"; name = codes "demo-worker" }

pub other_differs : other_request ≢ request
other_differs e = omega (arith, ap (λ n. point_at 4 n.name) e)

abbrev pub etc_config : StringMap
etc_config = (codes "jvm.config", codes "-server") ∷ (codes "config.properties", codes "http") ∷ []

abbrev pub catalog_config : StringMap
catalog_config = (codes "hive.properties", codes "hive") ∷ []

-- Two workers are asked for.
abbrev pub demo : PrestoCluster
demo = record new_presto_cluster {
  metadata = record new_presto_cluster.metadata {
    namespace = codes "default";
    name = codes "demo";
    uid = codes "1";
  };
  spec = record new_presto_cluster.spec {
    workers = some (pos 2);
    coordinator_config = record new_presto_cluster.spec.coordinator_config {
      etc_config = some etc_config;
    };
    worker_config = record new_presto_cluster.spec.worker_config { etc_config = some etc_config };
    catalog_config = some catalog_config;
    coresite = some ((codes "core-site.xml", codes "site") ∷ []);
  };
}

pub demo_maps : HasMaps demo
unfolding lookup ◌==◌
demo_maps = record {
  coordinator_etc = (refl, (refl, tt));
  worker_etc = (refl, (refl, tt));
  catalog = (refl, tt);
  core_site = (refl, tt);
}

-- A cluster without a count of workers.
abbrev pub uncounted : PrestoCluster
uncounted = record demo { spec = record demo.spec { workers = none } }

-- A cluster that has shown two workers.
abbrev pub shown_two : PrestoCluster
shown_two = record demo { status = record { available_workers = pos 2 } }

pub shown_two_maps : HasMaps shown_two
unfolding lookup ◌==◌
shown_two_maps = record {
  coordinator_etc = (refl, (refl, tt));
  worker_etc = (refl, (refl, tt));
  catalog = (refl, tt);
  core_site = (refl, tt);
}

abbrev pub empty_server : Server
empty_server = record {
  clusters = [];
  config_maps = [];
  deployments = [];
  services = [];
  ingresses = [];
  events = [];
}

abbrev pub server : Server
server = record empty_server { clusters = demo ∷ [] }

pub demo_found : view server Kind.presto_cluster request ≡ some demo
unfolding view find same_key ◌==◌
demo_found = refl

-- A server that holds a cluster without a count of workers.
abbrev pub uncounted_server : Server
uncounted_server = record empty_server { clusters = uncounted ∷ [] }

pub uncounted_found : view uncounted_server Kind.presto_cluster request ≡ some uncounted
unfolding view find same_key ◌==◌
uncounted_found = refl

-- A server with a status that shows two workers.
abbrev pub shown_server : Server
shown_server = record empty_server { clusters = shown_two ∷ [] }

-- A client whose reads all fail.
abbrev pub unreachable : Client
unreachable = record memory { get = λ k n z s. ((some ApiError.unavailable, z), s) }
