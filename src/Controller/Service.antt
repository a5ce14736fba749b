-- ===== src/Controller/Service.antt =====
-- controller/internal/service: the services of VPCs and of instances over the tables and the queues.
pub mod Vpcs
pub mod Instances
pub mod Images
pub mod Console
use rig_stack.Controller.Tables.{Db}
use rig_stack.Controller.Dispatcher.{Queues}

-- What the services share: the database and the dispatcher's queues.
pub record System : Type 0 where
  pub db : Db
  pub queues : Queues
