-- ===== src/Kube/Apps.antt =====
-- Deployments, services, config maps, jobs and ingresses, with the fields that the operator reads
-- or writes, and their zero values.
use presto_on_k8s_operator.Kube.Meta.{ObjectMeta, ResourceRequirements, new_object_meta}
use presto_on_k8s_operator.Maps.{StringMap}
use presto_on_k8s_operator.Prelude.{ℕ, Bool, List, [], Option, none}
use presto_on_k8s_operator.Prelude.Int.{ℤ, pos}
use presto_on_k8s_operator.Text.{Text}

pub record VolumeMount : Type 0 where
  pub name : Text
  pub mount_path : Text
  pub sub_path : Text
  pub read_only : Bool

pub record ExecAction : Type 0 where
  pub command : List Text

pub record Handler : Type 0 where
  pub exec : Option ExecAction

pub record Lifecycle : Type 0 where
  pub post_start : Option Handler
  pub pre_stop : Option Handler

pub record ContainerPort : Type 0 where
  pub container_port : ℕ

pub record Container : Type 0 where
  pub name : Text
  pub resources : ResourceRequirements
  pub image : Text
  pub image_pull_policy : Text
  pub ports : List ContainerPort
  pub volume_mounts : List VolumeMount
  pub lifecycle : Option Lifecycle

pub record ConfigMapVolumeSource : Type 0 where
  pub name : Text

pub record Volume : Type 0 where
  pub name : Text
  pub config_map : Option ConfigMapVolumeSource

pub record PodSecurityContext : Type 0 where
  pub run_as_user : Option ℤ

pub record PodSpec : Type 0 where
  pub security_context : Option PodSecurityContext
  pub containers : List Container
  pub volumes : List Volume

pub record PodTemplateSpec : Type 0 where
  pub labels : Option StringMap
  pub spec : PodSpec

pub record LabelSelector : Type 0 where
  pub match_labels : Option StringMap

pub record DeploymentSpec : Type 0 where
  pub replicas : Option ℤ
  pub selector : Option LabelSelector
  pub template : PodTemplateSpec

pub record DeploymentStatus : Type 0 where
  pub available_replicas : ℤ

pub record Deployment : Type 0 where
  pub metadata : ObjectMeta
  pub spec : DeploymentSpec
  pub status : DeploymentStatus

pub data IntOrString : Type 0 where
  from_int : ℕ → IntOrString
  from_string : Text → IntOrString

pub record ServicePort : Type 0 where
  pub protocol : Text
  pub port : ℕ
  pub target_port : IntOrString

pub record ServiceSpec : Type 0 where
  pub selector : Option StringMap
  pub ports : List ServicePort

pub record Service : Type 0 where
  pub metadata : ObjectMeta
  pub spec : ServiceSpec

-- `contents` is the field `Data`.
pub record ConfigMap : Type 0 where
  pub metadata : ObjectMeta
  pub contents : Option StringMap

-- The operator never fills in a job.
pub record Job : Type 0 where
  pub metadata : ObjectMeta

pub record Ingress : Type 0 where
  pub metadata : ObjectMeta

-- `new(appsv1.Deployment)`, `new(corev1.Service)`, `new(corev1.ConfigMap)`.
abbrev pub new_deployment : Deployment
new_deployment = record {
  metadata = new_object_meta;
  spec = record {
    replicas = none;
    selector = none;
    template = record {
      labels = none;
      spec = record { security_context = none; containers = []; volumes = [] };
    };
  };
  status = record { available_replicas = pos 0 };
}

abbrev pub new_service : Service
new_service = record { metadata = new_object_meta; spec = record { selector = none; ports = [] } }

abbrev pub new_config_map : ConfigMap
new_config_map = record { metadata = new_object_meta; contents = none }
