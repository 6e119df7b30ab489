-- ===== src/Controller/Concurrent.antt =====
-- Requests that are served at the same time (`MaxConcurrentReconciles`).
pub mod System
pub mod Alone
pub mod Results
pub mod Finishes
