-- ===== src/Controller/Address.antt =====
-- controller/internal/service/instance.go: the address that a new instance gets, and the name of the
-- bridge. The last byte of an address is computed modulo 256, as Go's `byte` is.
pub mod Range
use rig_stack.Prelude.{
  ℕ, zero, suc, ◌+◌, ◌%◌, String, ◌<>◌, Bool, Option, none, some, if◌then◌else◌, eqb,
}
use Prim.Native.Char.{code}
use rig_stack.Prelude.Text.{decimal, take_chars}
use rig_stack.Client.Http.{Result, ok, err}
use rig_stack.Controller.Tables.{IpNet, v4, v6, VpcRow, Db, Env}
use rig_stack.Controller.Store.Instances.{count_by_vpc}

-- `net.IP.String` of four bytes.
abbrev pub dotted : ℕ → ℕ → ℕ → ℕ → String
dotted a b c d = decimal a <> "." <> decimal b <> "." <> decimal c <> "." <> decimal d

-- What `allocateIP` returns.
pub record Address : Type 0 where
  pub ip : String
  pub prefix : ℕ
  pub gateway : String

-- The last byte of the gateway and of the instance that comes after `count` others.
abbrev pub gateway_byte : ℕ → ℕ
gateway_byte base = (base + 1) % 256

abbrev pub vm_byte : ℕ → ℕ
vm_byte count = (11 + count) % 256

unfoldable pub address_of : IpNet → ℕ → Result Address
address_of v6 count = err "only IPv4 supported"
address_of (v4 a b c d ones) count = ok (record {
  ip = dotted a b c (vm_byte count);
  prefix = ones;
  gateway = dotted a b c (gateway_byte d);
})

-- `allocateIP`.
unfoldable pub allocate_ip : Env → Db → VpcRow → Result Address
unfolding address_of count_by_vpc
allocate_ip env db vpc = elim (env.parse_cidr vpc.cidr) [
  | none ↦ err ("parse cidr: " <> env.bad_cidr)
  | some net ↦ address_of net (count_by_vpc vpc.id db)
]

-- `strings.ReplaceAll(t, "-", "")`, on the characters of an id.
unfoldable pub without_dashes : String → String
without_dashes String.[] = ""
without_dashes (String.◌∷◌ c t) =
    let rest = without_dashes t in if eqb (code c) b'-' then rest else String.◌∷◌ c rest

-- `bridgeName`.
unfoldable pub bridge_name : String → String
unfolding without_dashes take_chars
bridge_name vpc_id = "rs-br-" <> take_chars 9 (without_dashes vpc_id)
