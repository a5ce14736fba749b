-- ===== src/Controller.antt =====
-- The controller: controller/internal.
pub mod Instances
pub mod Images
pub mod Router
pub mod Tables
pub mod Store
pub mod Dispatcher
pub mod Scheduler
pub mod Address
pub mod Service
pub mod Heartbeat
pub mod Runs
pub mod Api
