-- ===== src/Agent/Network/Vpcs.antt =====
-- agent/internal/network/{manager,bridge,natgw}.go: the creation of a VPC on a node, on every branch, and
-- its removal.
use rig_stack.Prelude.{ℕ, String, ◌<>◌, true, false, ◌≡◌, refl, ◌∷◌, eq_refl, inl, inr, ◌⊎◌}
use rig_stack.Client.Http.{ok}
use rig_stack.Controller.Service.Instances.Found.{Result-cases}
use rig_stack.Agent.Host.{
  Act, Past, Host, Outcome, returned, failed, panicked, unfinished, ignore, perform, ◌>>◌, fail,
  pure, recovered,
}
use rig_stack.Agent.Network.{
  bridge_name, add_link, set_up, add_addr, set_down, del_link, masquerade, forward, netns,
  subnet_info, create_bridge, delete_bridge, add_masquerade, create_natgw, delete_natgw, create_vpc,
  delete_vpc,
}
use rig_stack.Agent.Network.Ensuring.{linked}

-- A step of the bridge after the first was the last act.
abbrev pub IsHalfWay : String → Past → Type 0
IsHalfWay name now =
    (q : Past) × ((now ≡ set_up name ∷ q)
      ⊎ ((gateway : String) × (prefix : ℕ) × (now ≡ add_addr name gateway prefix ∷ q)))

-- Where a creation leaves the bridge. If it fails, the bridge is where it was before; or it is there, and
-- a later step of making it was the last act; or the last act was to delete it again.
abbrev pub Made : Host → String → Past → Outcome (Unit {0}) × Past → Type 0
Made host name past (returned u, now) = linked host name now ≡ true
Made host name past (failed m, now) =
    (linked host name now ≡ linked host name past)
    ⊎ (((linked host name now ≡ true) × IsHalfWay name now)
        ⊎ ((q : Past) × (now ≡ del_link name ∷ set_down name ∷ q)))
Made host name past (o, now) = true ≡ false

-- A call that keeps the bridge if it returns.
abbrev Keeps : Host → String → Outcome (Unit {0}) × Past → Type 0
Keeps host name (returned u, now) = linked host name now ≡ true
Keeps host name (failed m, now) = Unit
Keeps host name (o, now) = true ≡ false

-- A removal.
abbrev pub Gone : Host → String → Outcome (Unit {0}) × Past → Type 0
Gone host name (returned u, now) = linked host name now ≡ false
Gone host name (failed m, now) = Unit
Gone host name (o, now) = true ≡ false

module _ (host : Host) (uplink vpc_id cidr : String) where
  abbrev name : String
  name = bridge_name vpc_id

  undone :
      (past q : Past) (m : String)
      → Made host name past ((ignore (delete_bridge vpc_id) >> fail m) host q)
  unfolding delete_bridge
  undone past q m = elim (Result-cases (host.reply q (set_down name))) [
    | inl (k, e) ↦ elim (Result-cases (host.reply (set_down name ∷ q) (del_link name))) [
      | inl (k', f) ↦ rw (delete_bridge, e, f) (inr (inr (q, refl)))
      | inr (output, f) ↦ rw (delete_bridge, e, f) (inr (inr (q, refl)))
    ]
    | inr (k, e) ↦ elim (Result-cases (host.reply (set_down name ∷ q) (del_link name))) [
      | inl (k', f) ↦ rw (delete_bridge, e, f) (inr (inr (q, refl)))
      | inr (output, f) ↦ rw (delete_bridge, e, f) (inr (inr (q, refl)))
    ]
  ]

  settle :
      (past : Past) (p : Outcome (Unit {0}) × Past)
      → Keeps host name p
      → Made host name past (
          recovered host p
            (λ u. pure tt)
            (λ m. ignore (delete_bridge vpc_id) >> fail ("create nat gw: " <> m)))
  settle past (returned u, q) k = k
  settle past (failed m, q) k = undone past q ("create nat gw: " <> m)
  settle past (panicked, q) k = k
  settle past (unfinished, q) k = k

  released :
      (q : Past) (m : String)
      → Keeps host name ((ignore (perform (netns "del" vpc_id)) >> fail m) host q)
  released q m = elim (Result-cases (host.reply q (netns "del" vpc_id))) [
    | inl (k, e) ↦ rw e tt
    | inr (output, e) ↦ rw e tt
  ]

  ruled :
      (q : Past)
      → linked host name q ≡ true
      → Keeps host name (
          recovered host
            (add_masquerade cidr uplink host q)
            (λ u. pure tt)
            (λ m. ignore (perform (netns "del" vpc_id)) >> fail ("add masquerade: " <> m)))
  unfolding add_masquerade linked
  ruled q h = elim (Result-cases (host.reply q (masquerade "-C" cidr uplink))) [
    | inr (output, there) ↦ rw (add_masquerade, there) h
    | inl (m, absent) ↦
        elim (Result-cases
          (host.reply (masquerade "-C" cidr uplink ∷ q) (masquerade "-A" cidr uplink))) [
            | inl (k, refused) ↦ rw (add_masquerade, absent, refused) (released _ _)
            | inr (output, put) ↦ rw (add_masquerade, absent, put) h
          ]
  ]

  natgw_kept :
      (q : Past)
      → linked host name q ≡ true
      → Keeps host name (create_natgw vpc_id cidr uplink host q)
  unfolding create_natgw linked
  natgw_kept q h = elim (Result-cases (host.reply q forward)) [
    | inl (m, e) ↦ rw (create_natgw, e) tt
    | inr (output, e) ↦ elim (Result-cases (host.reply (forward ∷ q) (netns "add" vpc_id))) [
      | inl (m, f) ↦ rw (create_natgw, e, f) tt
      | inr (output', f) ↦ rw (create_natgw, e, f) (ruled (netns "add" vpc_id ∷ forward ∷ q) h)
    ]
  ]

  bridged :
      (past : Past) (gateway : String) (prefix : ℕ)
      → subnet_info host cidr ≡ ok (gateway, prefix)
      → Made host name past (create_vpc uplink vpc_id cidr host past)
  unfolding create_vpc create_bridge linked
  bridged past gateway prefix e = elim (Result-cases (host.reply past (add_link name))) [
    | inl (m, f) ↦ rw (create_vpc, e, create_bridge, f, eq_refl name, f) (inl refl)
    | inr (output, f) ↦
        let there : linked host name (add_link name ∷ past) ≡ true = rw (eq_refl name, f) refl in
        elim (Result-cases (host.reply (add_link name ∷ past) (set_up name))) [
          | inl (m, g) ↦
              rw (create_vpc, e, create_bridge, f, g)
                (inr (inl (there, (add_link name ∷ past, inl refl))))
          | inr (output', g) ↦
              elim (Result-cases
                (host.reply (set_up name ∷ add_link name ∷ past) (add_addr name gateway prefix))) [
                  | inl (m, k) ↦
                      rw (create_vpc, e, create_bridge, f, g, k)
                        (inr (
                          inl (
                            there,
                            (set_up name ∷ add_link name ∷ past, inr (gateway, prefix, refl)),
                          )))
                  | inr (output'', k) ↦
                      rw (create_vpc, e, create_bridge, f, g, k)
                        (settle past _ (
                          natgw_kept
                            (add_addr name gateway prefix ∷ set_up name ∷ add_link name ∷ past)
                            there))
                ]
        ]
  ]

  create_vpc-Made : (past : Past) → Made host name past (create_vpc uplink vpc_id cidr host past)
  unfolding create_vpc
  create_vpc-Made past = elim (Result-cases (subnet_info host cidr)) [
    | inl (m, e) ↦ rw (create_vpc, e) (inl refl)
    | inr ((gateway, prefix), e) ↦ bridged past gateway prefix e
  ]

  ignored : (act : Act) (q : Past) → ignore (perform act) host q ≡ (returned tt, act ∷ q)
  ignored act q = elim (Result-cases (host.reply q act)) [
    | inl (m, e) ↦ rw e refl
    | inr (output, e) ↦ rw e refl
  ]

  delete_bridge-Gone : (q : Past) → Gone host name (delete_bridge vpc_id host q)
  unfolding delete_bridge linked
  delete_bridge-Gone q = elim (Result-cases (host.reply (set_down name ∷ q) (del_link name))) [
    | inl (m, e) ↦ rw (delete_bridge, ignored (set_down name) q, e) tt
    | inr (output, e) ↦ rw (delete_bridge, ignored (set_down name) q, e, eq_refl name, e) refl
  ]

  delete_vpc-Gone : (past : Past) → Gone host name (delete_vpc uplink vpc_id cidr host past)
  unfolding delete_vpc delete_natgw
  delete_vpc-Gone past =
      rw
        (
          delete_vpc,
          delete_natgw,
          ignored (masquerade "-D" cidr uplink) past,
          ignored (netns "del" vpc_id) (masquerade "-D" cidr uplink ∷ past),
        )
        (delete_bridge-Gone (netns "del" vpc_id ∷ masquerade "-D" cidr uplink ∷ past))

-- The creation of a VPC on a node, on every branch: if it succeeds, the bridge is there. If it fails, the
-- bridge is where it was before; or it is there, and the last act was to set it up or to give it an
-- address; or the last act was to delete it again. The removal of a VPC does not panic, and if it
-- succeeds, the bridge is not there.
pub vpc_bridge :
    (host : Host) (uplink vpc_id cidr : String) (past : Past)
    → Made host (bridge_name vpc_id) past (create_vpc uplink vpc_id cidr host past)
      × Gone host (bridge_name vpc_id) (delete_vpc uplink vpc_id cidr host past)
vpc_bridge host uplink vpc_id cidr past =
    (create_vpc-Made host uplink vpc_id cidr past, delete_vpc-Gone host uplink vpc_id cidr past)
