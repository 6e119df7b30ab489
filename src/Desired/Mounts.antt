-- ===== src/Desired/Mounts.antt =====
-- controllers/desired.go: the loops that turn the sorted keys of a map into volume mounts.
use presto_on_k8s_operator.Kube.Apps.{VolumeMount}
use presto_on_k8s_operator.Maps.{StringMap, keys}
use presto_on_k8s_operator.Prelude.{Bool, true, false, List, [], ◌∷◌, ◌++◌, Option, none, some}
use presto_on_k8s_operator.Sorting.{sort_strings}
use presto_on_k8s_operator.Text.{Text, codes}

-- One mount for each key: `MountPath: directory + key`, `SubPath: prefix + key`.
unfoldable pub mounts_of : Text → Text → Text → Bool → List Text → List VolumeMount
mounts_of name directory prefix read_only [] = []
mounts_of name directory prefix read_only (x_properties ∷ rest) =
    record {
      name = name;
      mount_path = directory ++ x_properties;
      sub_path = prefix ++ x_properties;
      read_only = read_only;
    }
    ∷ mounts_of name directory prefix read_only rest

-- The keys of the map in the order of `sort.Strings`. A nil map adds nothing.
unfoldable pub map_mounts : Text → Text → Text → Bool → Option StringMap → List VolumeMount
unfolding mounts_of
map_mounts name directory prefix read_only none = []
map_mounts name directory prefix read_only (some m) =
    mounts_of name directory prefix read_only (sort_strings (keys m))

unfoldable pub coordinator_etc_mounts : Option StringMap → List VolumeMount
unfolding map_mounts
coordinator_etc_mounts =
    map_mounts (codes "config") (codes "/usr/lib/presto/etc/") (codes "coordinator.") false

unfoldable pub worker_etc_mounts : Option StringMap → List VolumeMount
unfolding map_mounts
worker_etc_mounts =
    map_mounts (codes "config") (codes "/usr/lib/presto/etc/") (codes "worker.") true

unfoldable pub catalog_mounts : Option StringMap → List VolumeMount
unfolding map_mounts
catalog_mounts = map_mounts (codes "catalog") (codes "/usr/lib/presto/etc/catalog/") [] false

unfoldable pub coresite_mounts : Option StringMap → List VolumeMount
unfolding map_mounts
coresite_mounts = map_mounts (codes "catalog") (codes "/tmp/") [] false

unfoldable pub pre_stop_mount : VolumeMount
pre_stop_mount = record {
  name = codes "config";
  mount_path = codes "/usr/lib/presto/etc/pre-stop.sh";
  sub_path = codes "pre-stop.sh";
  read_only = false;
}
