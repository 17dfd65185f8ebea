-- ===== src/Controller.antt =====
-- The controller service: pkg/driver/controller.go, one module for each handler or group of handlers.
pub mod Create
pub mod Delete
pub mod Expand
pub mod Capacity
pub mod Snapshots
pub mod Find
pub mod Validate
pub mod List
