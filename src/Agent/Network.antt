-- ===== src/Agent/Network.antt =====
-- agent/internal/network: the bridge of a VPC on a node, and its way out. The ids are made of ASCII
-- characters, of which Go's `len` counts as many as there are.
pub mod Bridges
pub mod Ensuring
pub mod Vpcs
use Prim.Native.Char.{code}
use Prim.Native.String.{count}
use rig_stack.Prelude.{
  ℕ, String, ◌<>◌, ◌==◌, Bool, Option, none, some, List, [], ◌∷◌, ltb, if◌then◌else◌,
}
use rig_stack.Prelude.Text.{decimal, take_chars, is_space, trim}
use rig_stack.Client.Http.{Result, ok, err}
use rig_stack.Controller.Tables.{IpNet, v4, v6}
use rig_stack.Controller.Address.{dotted, gateway_byte, without_dashes}
use rig_stack.Agent.Host.{
  Act, run, Past, Host, M, ◌>>=◌, ◌>>◌, pure, fail, ended, perform, must, attempt, ignore, recover,
  blame,
}

-- `slug`.
unfoldable pub slug : String → String
unfolding take_chars without_dashes
slug id = let clean = without_dashes id in if ltb 9 (count clean) then take_chars 9 clean else clean

-- `BridgeName` and `netnsName`.
unfoldable pub bridge_name : String → String
unfolding slug
bridge_name vpc_id = "rs-br-" <> slug vpc_id

unfoldable pub netns_name : String → String
unfolding slug
netns_name vpc_id = "rs-natgw-" <> slug vpc_id

-- The gateway and the length of the prefix of a range, which `ParseCIDR` has read.
abbrev pub gateway_of : IpNet → Result (String × ℕ)
gateway_of v6 = err "only IPv4 CIDRs are supported"
gateway_of (v4 a b c d ones) = ok (dotted a b c (gateway_byte d), ones)

-- `subnetInfo`. The text of `%q` is that of a range without quotes.
unfoldable pub subnet_info : Host → String → Result (String × ℕ)
subnet_info host cidr = elim (host.parse_cidr cidr) [
  | none ↦ err ("parse cidr \"" <> cidr <> "\": " <> host.bad_cidr)
  | some net ↦ gateway_of net
]

-- The call of it.
abbrev pub subnet : String → M (String × ℕ)
subnet cidr host past = (ended (subnet_info host cidr), past)

abbrev pub add_link : String → Act
add_link name = run ("ip" ∷ "link" ∷ "add" ∷ name ∷ "type" ∷ "bridge" ∷ [])

abbrev pub set_up : String → Act
set_up name = run ("ip" ∷ "link" ∷ "set" ∷ name ∷ "up" ∷ [])

abbrev pub add_addr : String → String → ℕ → Act
add_addr name gateway prefix =
    run ("ip" ∷ "addr" ∷ "add" ∷ (gateway <> "/" <> decimal prefix) ∷ "dev" ∷ name ∷ [])

-- `createBridge`: the loop over its three commands, which ends at the first error.
unfoldable pub create_bridge : String → String → ℕ → M (Unit {0})
create_bridge vpc_id gateway prefix = do
  must (add_link (bridge_name vpc_id))
  must (set_up (bridge_name vpc_id))
  must (add_addr (bridge_name vpc_id) gateway prefix)

abbrev pub set_down : String → Act
set_down name = run ("ip" ∷ "link" ∷ "set" ∷ name ∷ "down" ∷ [])

abbrev pub del_link : String → Act
del_link name = run ("ip" ∷ "link" ∷ "del" ∷ name ∷ [])

-- `deleteBridge`.
unfoldable pub delete_bridge : String → M (Unit {0})
delete_bridge vpc_id = do
  ignore (perform (set_down (bridge_name vpc_id)))
  must (del_link (bridge_name vpc_id))

-- `iptables -t nat` with `-C`, `-A` or `-D`.
abbrev pub masquerade : String → String → String → Act
masquerade flag cidr uplink = run (
    "iptables" ∷ "-t" ∷ "nat" ∷ flag ∷ "POSTROUTING" ∷ "-s" ∷ cidr ∷ "-o" ∷ uplink ∷ "-j"
    ∷ "MASQUERADE" ∷ [])

-- `addMasquerade`.
unfoldable pub add_masquerade : String → String → M (Unit {0})
add_masquerade cidr uplink =
    recover (perform (masquerade "-C" cidr uplink)) (λ there. pure tt)
      (λ m. must (masquerade "-A" cidr uplink))

abbrev pub forward : Act
forward = run ("sysctl" ∷ "-w" ∷ "net.ipv4.ip_forward=1" ∷ [])

abbrev pub netns : String → String → Act
netns verb vpc_id = run ("ip" ∷ "netns" ∷ verb ∷ netns_name vpc_id ∷ [])

-- `createNATGW`.
unfoldable pub create_natgw : String → String → String → M (Unit {0})
create_natgw vpc_id cidr uplink = do
  blame "enable ip_forward" (must forward)
  blame "create netns" (must (netns "add" vpc_id))
  recover (add_masquerade cidr uplink) (λ added. pure tt)
      (λ m. ignore (perform (netns "del" vpc_id)) >> fail ("add masquerade: " <> m))

-- `deleteNATGW`.
unfoldable pub delete_natgw : String → String → String → M (Unit {0})
delete_natgw vpc_id cidr uplink = do
  ignore (perform (masquerade "-D" cidr uplink))
  ignore (perform (netns "del" vpc_id))

-- `CreateVPC`.
unfoldable pub create_vpc : String → String → String → M (Unit {0})
create_vpc uplink vpc_id cidr = do
  (gateway, prefix) ← subnet cidr
  blame "create bridge" (create_bridge vpc_id gateway prefix)
  recover (create_natgw vpc_id cidr uplink) (λ created. pure tt)
      (λ m. ignore (delete_bridge vpc_id) >> fail ("create nat gw: " <> m))

-- `DeleteVPC`.
unfoldable pub delete_vpc : String → String → String → M (Unit {0})
delete_vpc uplink vpc_id cidr = do ignore (delete_natgw vpc_id cidr uplink); delete_bridge vpc_id

abbrev pub show_link : String → Act
show_link name = run ("ip" ∷ "link" ∷ "show" ∷ name ∷ [])

-- Whether a command that was only asked for its output gave some; that of a command that fails is
-- taken to be empty.
abbrev pub shown : Result String → Bool
shown (ok output) = ltb 0 (count output)
shown (err m) = Bool.false

-- `EnsureBridge`: what it does for a bridge that is not there, and the whole.
abbrev pub recreate : String → String → String → M (Unit {0})
recreate uplink vpc_id cidr = do
  (gateway, prefix) ← subnet cidr
  blame "recreate bridge" (create_bridge vpc_id gateway prefix)
  ignore (perform forward)
  ignore (add_masquerade cidr uplink)

unfoldable pub ensure_bridge : String → String → String → M (Unit {0})
ensure_bridge uplink vpc_id cidr = do
  r ← attempt (perform (show_link (bridge_name vpc_id)))
  if shown r then pure tt else recreate uplink vpc_id cidr

-- `strings.Fields`; `word` is the field that is being read.
abbrev emit : String → List String → List String
emit word rest = if word == "" then rest else word ∷ rest

unfoldable pub fields_from : String → String → List String
fields_from word String.[] = emit word []
fields_from word (String.◌∷◌ c s) =
    if is_space (code c)
    then emit word (fields_from "" s)
    else fields_from (word <> String.◌∷◌ c "") s

-- `detectUplink`, on the fields of the route: the field that follows `dev`.
unfoldable pub after_dev : List String → Option String
after_dev [] = none
after_dev (f ∷ []) = none
after_dev (f ∷ g ∷ rest) = if f == "dev" then some g else after_dev (g ∷ rest)

-- `detectUplink`; the text of `%q` is that of an output without quotes and line ends.
unfoldable pub detect_uplink : M String
unfolding fields_from after_dev
detect_uplink = do
  output ← blame "ip route show default" (perform (run ("ip" ∷ "route" ∷ "show" ∷ "default" ∷ [])))
  elim (after_dev (fields_from "" output)) [
    | some uplink ↦ pure uplink
    | none ↦ fail ("no default route found in: \"" <> trim output <> "\"")
  ]
