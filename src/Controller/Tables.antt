-- ===== src/Controller/Tables.antt =====
-- controller/migrations and controller/internal/store/postgres: the rows of the database, the
-- tables, and what the controller uses of Go's library and of PostgreSQL. A table is kept in the
-- order of creation, newest first, which is the order in which the stores list it. A column that is
-- NULL is read as "" or 0, as the queries read it, and times are whole numbers.
use rig_stack.Prelude.{ℕ, String, List, Option}

pub record NodeRow : Type 0 where
  pub id : String
  pub name : String
  pub region : String
  pub address : String
  pub status : String
  pub cpu_cores : ℕ
  pub cpu_free_pct : ℕ
  pub ram_bytes : ℕ
  pub ram_free : ℕ
  pub disk_bytes : ℕ
  pub disk_free : ℕ
  pub vm_count : ℕ
  pub last_seen : ℕ
  pub registered_at : ℕ

pub record VpcRow : Type 0 where
  pub id : String
  pub name : String
  pub cidr : String
  pub status : String
  pub created_at : ℕ

pub record InstanceRow : Type 0 where
  pub id : String
  pub name : String
  pub status : String
  pub node_id : String
  pub vpc_id : String
  pub vcpus : ℕ
  pub ram_mb : ℕ
  pub disk_gb : ℕ
  pub ip_address : String
  pub os_image : String
  pub password : String
  pub created_at : ℕ
  pub updated_at : ℕ

pub record Db : Type 0 where
  pub nodes : List NodeRow
  pub vpcs : List VpcRow
  pub instances : List InstanceRow

-- What `net.ParseCIDR` makes of a range: the masked base address and the length of the prefix.
pub data IpNet : Type 0 where
  v4 : ℕ → ℕ → ℕ → ℕ → ℕ → IpNet
  v6 : IpNet

-- What a lost connection, or a request that is cancelled, does to the statements of a creation: none
-- fails, or the first of them that fails is the one that inserts the row, that writes its address or
-- that reads it, with an error. A statement that fails changes nothing.
pub data Trouble : Type 0 where
  no_trouble : Trouble
  at_insert at_update at_read : String → Trouble

-- What is not code of the repository: the clock of the database, `net.ParseCIDR`, the form in which
-- a column of type CIDR keeps a range, or none if it refuses it, the text that a column of type INET
-- gives back for an address, which has the length of its prefix, what fails of the statements of a
-- creation, and the texts of errors, `too_large` that of a number which a column of type INT does not hold. That a node
-- reports an address that is none is left out.
pub record Env : Type 0 where
  pub now : ℕ
  pub parse_cidr : String → Option IpNet
  pub cidr_column : String → Option String
  pub inet_text : String → String
  pub bad_cidr : String
  pub refused : String
  pub too_large : String
  pub trouble : Trouble
  pub no_rows : String
