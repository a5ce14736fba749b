-- ===== src/Agent.antt =====
-- agent/internal and agent/cmd: the program that runs on each node and carries out the commands that
-- the controller queues.
pub mod Host
pub mod Commands
pub mod Network
pub mod Domain
pub mod Libvirt
pub mod Storage
pub mod Executor
pub mod Reconcile
pub mod Metrics
