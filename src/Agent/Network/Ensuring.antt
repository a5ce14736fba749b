-- ===== src/Agent/Network/Ensuring.antt =====
-- agent/internal/network/manager.go: what is left of a bridge on the node.
use rig_stack.Prelude.{
  ℕ, String, ◌<>◌, ◌==◌, Bool, true, false, ◌&&◌, ◌||◌, not, ◌≡◌, refl, ◌∙◌, sym, subst, List, [],
  ◌∷◌, eq_refl, Bool-cases, inl, inr, if◌then◌else◌,
}
use rig_stack.Client.Http.{Result, ok, err}
use rig_stack.Controller.Service.Instances.Found.{Result-cases}
use rig_stack.Agent.Host.{Act, run, Past, Host, Outcome, returned, failed, ignore, perform, ◌>>◌}
use rig_stack.Agent.Network.{
  bridge_name, add_link, set_up, add_addr, show_link, shown, forward, masquerade, subnet_info,
  create_bridge, add_masquerade, ensure_bridge, recreate,
}

-- Whether two commands are the same.
abbrev same : List String → List String → Bool
same [] [] = true
same (a ∷ rest) (b ∷ others) = a == b && same rest others
same rest others = false

abbrev pub is_run : List String → Act → Bool
is_run args (run given) = same given args
is_run args act = false

abbrev pub went : Result String → Bool
went (ok output) = true
went (err m) = false

-- Whether the link is there: it was added and has not been deleted since.
unfoldable pub linked : Host → String → Past → Bool
linked host name [] = false
linked host name (act ∷ past) =
    let before = linked host name past in
    if is_run ("ip" ∷ "link" ∷ "add" ∷ name ∷ "type" ∷ "bridge" ∷ []) act
    then went (host.reply past act) || before
    else if is_run ("ip" ∷ "link" ∷ "del" ∷ name ∷ []) act
    then not (went (host.reply past act)) && before
    else before

-- `ip link show` gives output for the links that are there.
abbrev pub IsShowing : Host → Type 0
IsShowing host =
    (past : Past) (name : String) → shown (host.reply past (show_link name)) ≡ linked host name past

-- How a call ended, and what stands at its end.
abbrev Leaves : Host → String → Outcome (Unit {0}) × Past → Type 0
Leaves host name (returned u, now) = linked host name now ≡ true
Leaves host name (o, now) = Unit

module _ (host : Host) (uplink vpc_id cidr : String) (past : Past) where
  abbrev name : String
  name = bridge_name vpc_id

  abbrev seen : Past
  seen = show_link name ∷ past

  abbrev added : Past
  added = add_link name ∷ seen

  made_last :
      (q : Past)
      → linked host name q ≡ true
      → Leaves host name (ignore (add_masquerade cidr uplink) host q)
  unfolding add_masquerade linked
  made_last q h = elim (Result-cases (host.reply q (masquerade "-C" cidr uplink))) [
    | inr (output, there) ↦ rw (add_masquerade, there) h
    | inl (m, absent) ↦
        elim (Result-cases
          (host.reply (masquerade "-C" cidr uplink ∷ q) (masquerade "-A" cidr uplink))) [
            | inl (k, refused) ↦ rw (add_masquerade, absent, refused) h
            | inr (output, put) ↦ rw (add_masquerade, absent, put) h
          ]
  ]

  made_after :
      (output : String)
      → host.reply seen (add_link name) ≡ ok output
      → linked host name added ≡ true
  unfolding linked
  made_after output e = rw (eq_refl name, e) refl

  -- A bridge that is there is left as it is.
  looked_only :
      shown (host.reply past (show_link name)) ≡ true
      → ensure_bridge uplink vpc_id cidr host past ≡ (returned tt, seen)
  unfolding ensure_bridge
  looked_only e = elim (Result-cases (host.reply past (show_link name))) [
    | inl (m, failure) ↦ cc (rw failure at e)
    | inr (output, h) ↦ rw (ensure_bridge, h, rw h at e)
  ]

  looked_first :
      shown (host.reply past (show_link name)) ≡ false
      → ensure_bridge uplink vpc_id cidr host past ≡ recreate uplink vpc_id cidr host seen
  unfolding ensure_bridge
  looked_first e = elim (Result-cases (host.reply past (show_link name))) [
    | inl (m, failure) ↦ rw (ensure_bridge, failure)
    | inr (output, h) ↦ rw (ensure_bridge, h, rw h at e)
  ]

  forwarded :
      (q : Past)
      → linked host name q ≡ true
      → Leaves host name ((ignore (perform forward) >> ignore (add_masquerade cidr uplink)) host q)
  unfolding linked
  forwarded q h = elim (Result-cases (host.reply q forward)) [
    | inl (m, e) ↦ rw e (made_last (forward ∷ q) h)
    | inr (output, e) ↦ rw e (made_last (forward ∷ q) h)
  ]

  recreated : Leaves host name (recreate uplink vpc_id cidr host seen)
  unfolding create_bridge linked
  recreated = elim (Result-cases (subnet_info host cidr)) [
    | inl (m, e) ↦ rw e tt
    | inr ((gateway, prefix), e) ↦ elim (Result-cases (host.reply seen (add_link name))) [
      | inl (m, f) ↦ rw (e, create_bridge, f) tt
      | inr (output, f) ↦ elim (Result-cases (host.reply added (set_up name))) [
        | inl (m, g) ↦ rw (e, create_bridge, f, g) tt
        | inr (output', g) ↦
            elim (Result-cases (host.reply (set_up name ∷ added) (add_addr name gateway prefix))) [
              | inl (m, k) ↦ rw (e, create_bridge, f, g, k) tt
              | inr (output'', k) ↦
                  rw (e, create_bridge, f, g, k)
                    (forwarded (add_addr name gateway prefix ∷ set_up name ∷ added)
                      (made_after output f))
            ]
      ]
    ]
  ]

  leaves : IsShowing host → Leaves host name (ensure_bridge uplink vpc_id cidr host past)
  unfolding linked
  leaves showing = elim (Bool-cases (shown (host.reply past (show_link name)))) [
    | inl there ↦ rw (looked_only there) (sym (showing past name) ∙ there)
    | inr absent ↦ rw (looked_first absent) recreated
  ]

-- On a node where `ip link show` gives output for the links that are there: if the bridge of a VPC was
-- ensured, then it is there, and to ensure it again does nothing but look.
pub ensured_once :
    (host : Host) (uplink vpc_id cidr : String) (past now : Past)
    → IsShowing host
    → ensure_bridge uplink vpc_id cidr host past ≡ (returned tt, now)
    → (linked host (bridge_name vpc_id) now ≡ true)
      × (ensure_bridge uplink vpc_id cidr host now
          ≡ (returned tt, show_link (bridge_name vpc_id) ∷ now))
ensured_once host uplink vpc_id cidr past now showing done =
    let there =
      subst (Leaves host (bridge_name vpc_id)) done (leaves host uplink vpc_id cidr past showing) in
    (there, looked_only host uplink vpc_id cidr now (showing now (bridge_name vpc_id) ∙ there))

-- On such a node, where the bridge is not there: if it is added but cannot be set up, the call fails, and
-- the bridge stays there without an address; the next call finds it and succeeds without setting it up.
pub half_made_kept :
    (host : Host) (uplink vpc_id cidr gateway output m : String) (prefix : ℕ) (past : Past)
    → IsShowing host
    → linked host (bridge_name vpc_id) past ≡ false
    → subnet_info host cidr ≡ ok (gateway, prefix)
    → host.reply (seen host uplink vpc_id cidr past) (add_link (bridge_name vpc_id)) ≡ ok output
    → host.reply (added host uplink vpc_id cidr past) (set_up (bridge_name vpc_id)) ≡ err m
    → (ensure_bridge uplink vpc_id cidr host past ≡ (
      failed ("recreate bridge" <> ": " <> m),
      set_up (bridge_name vpc_id) ∷ added host uplink vpc_id cidr past,
    ))
      × (ensure_bridge uplink vpc_id cidr host
            (set_up (bridge_name vpc_id) ∷ added host uplink vpc_id cidr past)
          ≡ (
            returned tt,
            show_link (bridge_name vpc_id)
                ∷ set_up (bridge_name vpc_id)
                ∷ added host uplink vpc_id cidr past,
          ))
unfolding create_bridge linked
half_made_kept host uplink vpc_id cidr gateway output m prefix past showing absent net put refused =
    (
      looked_first host uplink vpc_id cidr past (showing past (bridge_name vpc_id) ∙ absent)
          ∙ rw (net, create_bridge, put, refused) refl,
      looked_only host uplink vpc_id cidr _ (
          showing (set_up (bridge_name vpc_id) ∷ added host uplink vpc_id cidr past)
            (bridge_name vpc_id)
          ∙ made_after host uplink vpc_id cidr past output put),
    )
