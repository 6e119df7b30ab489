-- ===== src/Utils/Names.antt =====
-- The names of the children of clusters do not clash.
use mathlib.Core.List.{reverse, reverse-append, append_cancel_right}
use presto_on_k8s_operator.Prelude.{◌≡◌, ◌≢◌, ap, ◌++◌, ℕ, zero, suc, [], ◌∷◌, arith}
use presto_on_k8s_operator.Text.{Text, codes}
use presto_on_k8s_operator.Utils.{
  get_presto_config_map_name, get_catalog_config_map_name, get_coordinator_deployment_name,
  get_worker_deployment_name,
}

reverse_both :
    (a b s t : Text)
    → a ++ s ≡ b ++ t
    → ◌≡◌ {A = Text} (reverse s ++ reverse a) (reverse t ++ reverse b)
reverse_both a b s t e = rw (← reverse-append a s, ← reverse-append b t) (ap reverse e)

-- The code point at a position, and 0 behind the end.
abbrev pub point_at : ℕ → Text → ℕ
point_at i [] = 0
point_at zero (c ∷ s) = c
point_at (suc i) (c ∷ s) = point_at i s

-- The two config maps of clusters never share a name, whatever the clusters are called.
pub presto-ne-catalog : (a b : Text) → get_presto_config_map_name a ≢ get_catalog_config_map_name b
unfolding get_presto_config_map_name get_catalog_config_map_name
presto-ne-catalog a b e = omega (
  arith,
  ap (point_at 10) (reverse_both a b (codes "-presto-configmap") (codes "-catalog-configmap") e),
)

-- The deployment of a coordinator never has the name of a deployment of workers.
pub coordinator-ne-worker :
    (a b : Text) → get_coordinator_deployment_name a ≢ get_worker_deployment_name b
unfolding get_coordinator_deployment_name get_worker_deployment_name
coordinator-ne-worker a b e =
    omega (arith, ap (point_at 1) (reverse_both a b (codes "-coordinator") (codes "-worker") e))

-- Two clusters with other names have children with other names.
pub child_names_injective :
    (a b : Text)
    → (get_presto_config_map_name a ≡ get_presto_config_map_name b → a ≡ b)
      × (get_catalog_config_map_name a ≡ get_catalog_config_map_name b → a ≡ b)
      × (get_coordinator_deployment_name a ≡ get_coordinator_deployment_name b → a ≡ b)
      × (get_worker_deployment_name a ≡ get_worker_deployment_name b → a ≡ b)
unfolding get_presto_config_map_name get_catalog_config_map_name get_coordinator_deployment_name
    get_worker_deployment_name
child_names_injective a b = (
  append_cancel_right a b _,
  append_cancel_right a b _,
  append_cancel_right a b _,
  append_cancel_right a b _,
)
