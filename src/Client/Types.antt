-- ===== src/Client/Types.antt =====
-- frontend/src/api/client.ts: what the controller's answers hold. The numbers are the whole
-- numbers that the controller sends.
use rig_stack.Prelude.{ℕ, String}

-- The share of the processors that is free is a fraction, which no page reads; it is its text.
pub record ApiNode : Type 0 where
  pub id : String
  pub name : String
  pub region : String
  pub address : String
  pub status : String
  pub cpu_cores : ℕ
  pub cpu_free_pct : String
  pub ram_bytes : ℕ
  pub ram_free : ℕ
  pub disk_bytes : ℕ
  pub disk_free : ℕ
  pub vm_count : ℕ
  pub last_seen : String
  pub registered_at : String

pub record ApiVpc : Type 0 where
  pub id : String
  pub name : String
  pub cidr : String
  pub status : String
  pub created_at : String

pub record ApiInstance : Type 0 where
  pub id : String
  pub name : String
  pub status : String
  pub node_id : String
  pub vpc_id : String
  pub vcpus : ℕ
  pub ram_mb : ℕ
  pub disk_gb : ℕ
  pub ip_address : String
  pub os_image : String
  pub password : String
  pub created_at : String
  pub updated_at : String

pub record ApiImage : Type 0 where
  pub id : String
  pub name : String
  pub os : String
  pub version : String
  pub url : String
  pub size_gb : ℕ
