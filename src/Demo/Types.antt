-- ===== src/Demo/Types.antt =====
-- frontend/src/types/index.ts: the data of the demo pages. A type of some literal texts is a text,
-- as the pages compare and show it.
use rig_stack.Prelude.{ℕ, String, List, Option, Bool}

abbrev pub Status : Type 0
Status = String

pub record Instance : Type 0 where
  pub id : String
  pub name : String
  pub status : Status
  pub vcpus : ℕ
  pub ram : String
  pub disk : String
  pub ip : String
  pub os : String
  pub created_at : String

pub record Bucket : Type 0 where
  pub id : String
  pub name : String
  pub size : String
  pub objects : ℕ
  pub region : String
  -- "public" | "private"
  pub access : String
  pub created_at : String

pub record Container : Type 0 where
  pub id : String
  pub name : String
  pub image : String
  pub status : Status
  pub ports : String
  pub cpu : String
  pub memory : String
  pub uptime : String

pub record K8sCluster : Type 0 where
  pub id : String
  pub name : String
  pub status : Status
  pub version : String
  pub nodes : ℕ
  pub pods : ℕ
  pub region : String
  pub created_at : String

pub record Database : Type 0 where
  pub id : String
  pub name : String
  -- "PostgreSQL" | "MySQL" | "Redis"
  pub engine : String
  pub version : String
  pub status : Status
  pub storage : String
  pub connections : ℕ
  pub host : String

pub record LoadBalancer : Type 0 where
  pub id : String
  pub name : String
  -- "HTTP" | "HTTPS" | "TCP"
  pub kind : String
  pub status : Status
  pub targets : ℕ
  pub ip : String
  pub requests : String

pub record NetworkVpc : Type 0 where
  pub id : String
  pub name : String
  pub cidr : String
  pub subnets : ℕ
  pub instances : ℕ
  -- "active" | "inactive"
  pub status : String

pub record Image : Type 0 where
  pub id : String
  pub name : String
  -- "VM" | "Container"
  pub kind : String
  pub os : Option String
  pub size : String
  -- "available" | "building" | "deprecated"
  pub status : String
  pub created_at : String

pub record IamUser : Type 0 where
  pub id : String
  pub name : String
  pub email : String
  -- "admin" | "developer" | "viewer"
  pub role : String
  -- "active" | "inactive"
  pub status : String
  pub last_access : String

pub record Activity : Type 0 where
  pub id : String
  pub message : String
  -- "success" | "error" | "info"
  pub kind : String
  pub time : String

pub record BucketObject : Type 0 where
  pub key : String
  pub size : String
  pub last_modified : String
  -- "file" | "folder"
  pub kind : String

pub record ContainerTag : Type 0 where
  pub tag : String
  pub size : String
  pub pushed : String
  pub digest : String

pub record ContainerRepo : Type 0 where
  pub id : String
  pub namespace : String
  pub name : String
  pub full_name : String
  pub image_count : ℕ
  pub total_size : String
  pub last_pushed : String
  pub is_public : Bool
  pub tags : List ContainerTag
