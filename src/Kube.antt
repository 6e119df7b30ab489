-- ===== src/Kube.antt =====
-- What the operator takes from Kubernetes: the shapes of its objects (`Meta`, `Apps`), the functions
-- of the apimachinery library (`Machinery`), and the client of the API server (`Client`).
pub mod Meta
pub mod Apps
pub mod Machinery
pub mod Client
