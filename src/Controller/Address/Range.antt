-- ===== src/Controller/Address/Range.antt =====
-- controller/internal/service/instance.go: which addresses the instances of a VPC get.
use text.Mathlib.TextLemmas.{append_cancel_left}
use mathlib.Core.Option.{some-injective}
use rig_stack.Prelude.{
  refl, ◌≢◌, ◌≤◌, ℕ, ◌%◌, String, some, ◌≡◌, ◌↔◌, sym, ap, ◌∙◌, arith, Option-cases, inl, inr,
}
use rig_stack.Prelude.Text.{decimal, decimal_injective}
use rig_stack.Client.Http.{Result, ok, err}
use rig_stack.Controller.Tables.{IpNet, v4, v6, VpcRow, Db, Env}
use rig_stack.Controller.Store.Instances.{count_by_vpc}
use rig_stack.Controller.Address.{dotted, Address, vm_byte, address_of, allocate_ip}

dotted_injective : (a b c d e : ℕ) → dotted a b c d ≡ dotted a b c e → d ≡ e
dotted_injective a b c d e h = decimal_injective d e (
    append_cancel_left "." _ _ (
      append_cancel_left (decimal c) _ _ (
        append_cancel_left "." _ _ (
          append_cancel_left (decimal b) _ _
            (append_cancel_left "." _ _ (append_cancel_left (decimal a) _ _ h))))))

ip_of : Result Address → String
ip_of (ok p) = p.ip
ip_of (err m) = ""

same_ip :
    (net : IpNet) (m n : ℕ) (p q : Address)
    → address_of net m ≡ ok p
    → address_of net n ≡ ok q
    → (p.ip ≡ q.ip) ↔ (m % 256 ≡ n % 256)
unfolding address_of ip_of
same_ip v6 m n p q hp hq = cc
same_ip (v4 a b c d ones) m n p q hp hq =
    let ep = ap ip_of hp in
    let eq = ap ip_of hq in
    (
      λ e.
          let last = dotted_injective a b c (vm_byte m) (vm_byte n) (ep ∙ e ∙ sym eq) in
          omega arith,
      λ e. sym ep ∙ ap (dotted a b c) (omega arith) ∙ eq,
    )

allocated :
    (env : Env) (db : Db) (vpc : VpcRow) (p : Address)
    → allocate_ip env db vpc ≡ ok p
    → (net : IpNet) × (env.parse_cidr vpc.cidr ≡ some net)
      × (address_of net (count_by_vpc vpc.id db) ≡ ok p)
unfolding allocate_ip
allocated env db vpc p h = elim (Option-cases (env.parse_cidr vpc.cidr)) [
  | inl e ↦ cc (rw (allocate_ip, e) at h)
  | inr (net, e) ↦ (net, e, rw (allocate_ip, e) at h)
]

-- Two addresses that are allocated in one VPC, over any two databases, are the same exactly if the
-- VPC has as many instances in the one as in the other, modulo 256.
pub same_address :
    (env : Env) (vpc : VpcRow) (old new : Db) (p q : Address)
    → allocate_ip env old vpc ≡ ok p
    → allocate_ip env new vpc ≡ ok q
    → (p.ip ≡ q.ip) ↔ (count_by_vpc vpc.id old % 256 ≡ count_by_vpc vpc.id new % 256)
same_address env vpc old new p q hp hq =
    let (net, e, at_old) = allocated env old vpc p hp in
    let (net2, e2, at_new) = allocated env new vpc q hq in
    let same = some-injective _ _ (sym e2 ∙ e) in
    same_ip net (count_by_vpc vpc.id old) (count_by_vpc vpc.id new) p q at_old (rw (← same) at_new)

-- In a VPC whose range is one of 24 bits, of which the base ends in 0, the next instance after at most
-- 243 others is given an address of the range, from 11 to 254, which is not that of the gateway.
pub address_within :
    (env : Env) (db : Db) (vpc : VpcRow) (a b c : ℕ)
    → env.parse_cidr vpc.cidr ≡ some (v4 a b c 0 24)
    → count_by_vpc vpc.id db ≤ 243
    → (p : Address) × (last : ℕ) × (allocate_ip env db vpc ≡ ok p)
      × (p.ip ≡ dotted a b c last)
      × (11 ≤ last)
      × (last ≤ 254)
      × (p.ip ≢ p.gateway)
unfolding allocate_ip address_of
address_within env db vpc a b c parsed few =
    let last = vm_byte (count_by_vpc vpc.id db) in
    (
      record { ip = dotted a b c last; prefix = 24; gateway = dotted a b c 1 },
      last,
      rw (allocate_ip, parsed),
      refl,
      omega arith,
      omega arith,
      λ e. let same = dotted_injective a b c last 1 e in omega arith,
    )
