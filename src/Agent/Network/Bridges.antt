-- ===== src/Agent/Network/Bridges.antt =====
-- agent/internal/network and controller/internal/service/instance.go: the agent gives the bridge of a
-- VPC the name and the address that the controller puts into the command for a machine.
use Prim.Native.String.{count}
use Prim.Native.String.count
use text.Mathlib.TextLemmas.{length-append}
use rig_stack.Prelude.{
  ℕ, zero, suc, ◌≤◌, String, ◌≡◌, refl, sym, ap, arith, ltb, Bool-cases, Option-cases, inl, inr,
}
use rig_stack.Prelude.Text.{take_chars}
use rig_stack.Client.Http.{ok}
use rig_stack.Controller.Tables.{IpNet, v4, v6, VpcRow, Db, Env}
use rig_stack.Controller.Store.Instances.{count_by_vpc}
use rig_stack.Controller.Address.{Address, address_of, allocate_ip, without_dashes}
use rig_stack.Controller.Address as Controller
use rig_stack.Agent.Host.{Host}
use rig_stack.Agent.Network.{slug, bridge_name, gateway_of, subnet_info}

take_chars_whole : (n : ℕ) (t : String) → count t ≤ n → take_chars n t ≡ t
unfolding take_chars
take_chars_whole zero String.[] h = refl
take_chars_whole zero (String.◌∷◌ c t) h = ground (arith, count.cons c t)
take_chars_whole (suc n) String.[] h = refl
take_chars_whole (suc n) (String.◌∷◌ c t) h =
    ap (String.◌∷◌ c) (take_chars_whole n t (omega (arith, count.cons c t)))

count-take_chars : (n : ℕ) (t : String) → count (take_chars n t) ≤ n
unfolding take_chars
count-take_chars zero t = omega (arith, count.nil)
count-take_chars (suc n) String.[] = omega (arith, count.nil)
count-take_chars (suc n) (String.◌∷◌ c t) =
    omega (arith, count-take_chars n t, count.cons c (take_chars n t))

slug_lem : (id : String) → slug id ≡ take_chars 9 (without_dashes id)
unfolding slug
slug_lem id = elim (Bool-cases (ltb 9 (count (without_dashes id)))) [
  | inl long ↦ rw (slug, long)
  | inr short ↦ rw (slug, short) (sym (take_chars_whole 9 (without_dashes id) (ground arith)))
]

-- The agent names the bridge of a VPC as the controller does, in at most 15 characters, which is what
-- the kernel allows for an interface.
pub same_bridge :
    (id : String) → (bridge_name id ≡ Controller.bridge_name id) × (count (bridge_name id) ≤ 15)
unfolding bridge_name Controller.bridge_name
same_bridge id =
    rw (bridge_name, slug_lem id)
      (
        refl,
        rw (length-append "rs-br-" (take_chars 9 (without_dashes id)))
            (omega (arith, count-take_chars 9 (without_dashes id))),
      )

gateway_of_address :
    (net : IpNet) (n : ℕ) (a : Address)
    → address_of net n ≡ ok a
    → gateway_of net ≡ ok (a.gateway, a.prefix)
unfolding address_of
gateway_of_address v6 n a h = cc
gateway_of_address (v4 b c d e ones) n a h = cc

-- The address that the agent gives to the bridge is the gateway, with the length of the prefix, that
-- the controller sends to an instance of the VPC, if both read the range alike.
pub same_gateway :
    (env : Env) (host : Host) (db : Db) (vpc : VpcRow) (a : Address)
    → host.parse_cidr vpc.cidr ≡ env.parse_cidr vpc.cidr
    → allocate_ip env db vpc ≡ ok a
    → subnet_info host vpc.cidr ≡ ok (a.gateway, a.prefix)
unfolding allocate_ip subnet_info
same_gateway env host db vpc a same h = elim (Option-cases (env.parse_cidr vpc.cidr)) [
  | inl e ↦ cc (rw (allocate_ip, e) at h)
  | inr (net, e) ↦
      rw (subnet_info, same, e)
        (gateway_of_address net (count_by_vpc vpc.id db) a (rw (allocate_ip, e) at h))
]
