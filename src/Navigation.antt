-- ===== src/Navigation.antt =====
-- frontend/src/App.tsx, components/Layout.tsx, components/Sidebar.tsx and components/ComingSoon.tsx:
-- the routes, the sidebar that links to them, and the header above each page.
pub mod Titles
use Prim.Native.String.{count}
use rig_stack.Prelude.{
  ℕ, zero, suc, String, ◌<>◌, ◌==◌, Bool, true, false, not, ◌&&◌, Option, none, some, List, [], ◌∷◌,
  map, any, truthy, or_else, if◌then◌else◌,
}
use rig_stack.Prelude.Text.{split_slash}

-- What a route renders: a page of the application, a page of the live demo, or the notice
-- `ComingSoon` with its feature.
pub data Element : Type 0 where
  real_dashboard real_instances real_instance_detail real_nodes real_network real_images : Element
  dashboard instances object_storage bucket_detail containers kubernetes databases network : Element
  load_balancer images iam : Element
  coming_soon : String → Element

-- The routes of `App` below a base path: those of the application below "", and those of the live
-- demo below "/live-demo", whose index route stands under "/".
abbrev pub real_routes : List (String × Element)
real_routes =
    ("/", real_dashboard)
    ∷ ("/instances", real_instances)
    ∷ ("/instances/:id", real_instance_detail)
    ∷ ("/nodes", real_nodes)
    ∷ ("/network", real_network)
    ∷ ("/storage", coming_soon "Object Storage")
    ∷ ("/containers", coming_soon "Containers")
    ∷ ("/kubernetes", coming_soon "Kubernetes")
    ∷ ("/databases", coming_soon "Databases")
    ∷ ("/loadbalancer", coming_soon "Load Balancer")
    ∷ ("/images", real_images)
    ∷ ("/iam", coming_soon "IAM")
    ∷ []

abbrev pub demo_routes : List (String × Element)
demo_routes =
    ("/", dashboard)
    ∷ ("/instances", instances)
    ∷ ("/storage", object_storage)
    ∷ ("/storage/bucket/:id", bucket_detail)
    ∷ ("/containers", containers)
    ∷ ("/kubernetes", kubernetes)
    ∷ ("/databases", databases)
    ∷ ("/network", network)
    ∷ ("/loadbalancer", load_balancer)
    ∷ ("/images", images)
    ∷ ("/iam", iam)
    ∷ []

-- The texts of `ComingSoon`, around its link.
abbrev pub coming_soon_texts : String → List String
coming_soon_texts feature =
    feature ∷ "This feature is not yet implemented." ∷ "Try the " ∷ "live demo"
    ∷ " to see a preview." ∷ []

abbrev pub coming_soon_link : String
coming_soon_link = "/live-demo"

pub record NavItem : Type 0 where
  pub to : String
  pub label : String

pub record NavGroup : Type 0 where
  pub label : Option String
  pub items : List NavItem

abbrev nav_item : String → String → NavItem
nav_item to label = record { to = to; label = label }

abbrev group : Option String → List NavItem → NavGroup
group label items = record { label = label; items = items }

abbrev pub nav_groups : List NavGroup
nav_groups =
    group none (nav_item "/" "Dashboard" ∷ [])
    ∷ group (some "Compute") (nav_item "/instances" "Instances" ∷ nav_item "/nodes" "Nodes" ∷ [])
    ∷ group (some "Storage")
        (nav_item "/storage" "Object Storage" ∷ nav_item "/images" "Images" ∷ [])
    ∷ group (some "Containers")
        (nav_item "/containers" "Containers" ∷ nav_item "/kubernetes" "Kubernetes" ∷ [])
    ∷ group (some "Database") (nav_item "/databases" "Databases" ∷ [])
    ∷ group (some "Networking")
        (nav_item "/network" "Network" ∷ nav_item "/loadbalancer" "Load Balancer" ∷ [])
    ∷ group (some "Identity & Security") (nav_item "/iam" "IAM" ∷ [])
    ∷ []

-- What the sidebar renders: its links, with whether a link is lit only on its exact path, and the
-- initial and the name of the user.
pub record NavLink : Type 0 where
  pub to : String
  pub exact : Bool
  pub label : String

pub record Sidebar : Type 0 where
  pub groups : List (Option String × List NavLink)
  pub initial : String
  pub user : String

abbrev pub is_demo : String → Bool
is_demo base_path = not (base_path == "")

abbrev nav_link : String → NavItem → NavLink
nav_link base_path i = record { to = base_path <> i.to; exact = i.to == "/"; label = i.label }

unfoldable pub sidebar : String → Sidebar
sidebar base_path = record {
  groups = map (λ (g : NavGroup). (g.label, map (nav_link base_path) g.items)) nav_groups;
  initial = if is_demo base_path then "U" else "M";
  user = if is_demo base_path then "User" else "Missael";
}

pub record Meta : Type 0 where
  pub title : String
  pub parent : Option String

abbrev meta : String → String → Meta
meta title parent = record { title = title; parent = some parent }

abbrev pub page_meta : List (String × Meta)
page_meta =
    ("/", record { title = "Dashboard"; parent = none })
    ∷ ("/instances", meta "Instances" "Compute")
    ∷ ("/nodes", meta "Nodes" "Compute")
    ∷ ("/instances/:id", meta "Instance Detail" "Compute")
    ∷ ("/storage", meta "Buckets" "Object Storage")
    ∷ ("/containers", meta "Containers" "Containers")
    ∷ ("/kubernetes", meta "Clusters" "Kubernetes")
    ∷ ("/databases", meta "Databases" "Database")
    ∷ ("/network", meta "Virtual Cloud Networks" "Networking")
    ∷ ("/loadbalancer", meta "Load Balancers" "Networking")
    ∷ ("/images", meta "Images" "Compute")
    ∷ ("/iam", meta "Users" "Identity & Security")
    ∷ []

-- `pageMeta[path]`; every path begins with a slash, so no inherited property is met.
unfoldable pub meta_at : String → List (String × Meta) → Option Meta
meta_at path [] = none
meta_at path ((key, m) ∷ rest) = if key == path then some m else meta_at path rest

-- `t.slice(n)`.
unfoldable pub drop_chars : ℕ → String → String
drop_chars zero t = t
drop_chars (suc n) String.[] = ""
drop_chars (suc n) (String.◌∷◌ c t) = drop_chars n t

-- `rawPath`.
unfoldable pub raw_path : String → String → String
unfolding drop_chars
raw_path base_path pathname =
    if is_demo base_path
    then (let rest = drop_chars (count base_path) pathname in if truthy rest then rest else "/")
    else pathname

-- `rawPath.replace(/^(\/[^/]+)\/[^/]+$/, '$1/:id')`, on the parts of the path.
abbrev normalized_parts : String → List String → String
normalized_parts raw (root ∷ first ∷ second ∷ []) =
    if root == "" && truthy first && truthy second then "/" <> first <> "/:id" else raw
normalized_parts raw _ = raw

unfoldable pub normalized : String → String
unfolding split_slash
normalized raw = normalized_parts raw (split_slash raw)

unfoldable pub meta_of : String → Meta
unfolding meta_at
meta_of raw =
    or_else (meta_at raw page_meta)
      (or_else (meta_at (normalized raw) page_meta) (record { title = raw; parent = none }))

-- What `Layout` renders around the page: the crumbs with the link of the first, the heading, and
-- in the live demo the mark and the notice that links back to the application.
pub record Layout : Type 0 where
  pub home : String
  pub crumbs : List String
  pub heading : String
  pub side : Sidebar
  pub demo_link : Option String

abbrev crumbs_of : Meta → List String
crumbs_of m = elim m.parent [
  | none ↦ "RigStack" ∷ m.title ∷ []
  | some p ↦ if truthy p then "RigStack" ∷ p ∷ m.title ∷ [] else "RigStack" ∷ m.title ∷ []
]

unfoldable pub layout : String → String → Layout
unfolding raw_path meta_of sidebar
layout base_path pathname =
    let m = meta_of (raw_path base_path pathname) in
    record {
      home = base_path <> "/";
      crumbs = crumbs_of m;
      heading = m.title;
      side = sidebar base_path;
      demo_link = if is_demo base_path then some "/" else none;
    }
