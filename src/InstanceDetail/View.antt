-- ===== src/InstanceDetail/View.antt =====
-- frontend/src/pages/real/InstanceDetail.tsx: what `RealInstanceDetail` shows. `date_time` and
-- `time` are the formats of dates of the browser, and `fixed_one` is `toFixed(1)` on the text of a
-- number. The bars of the metrics are left out.
use rig_stack.Prelude.{
  String, ◌<>◌, ◌==◌, Bool, true, false, ◌&&◌, not, Option, none, some, List, [], ◌∷◌, is_some,
  or_dash, truthy, eqb, if◌then◌else◌, ◌≡◌, ◌≢◌, refl, eq-false,
}
use text.Mathlib.TextLemmas.{cons-append}
use rig_stack.Prelude.Text.{
  decimal, split_slash, NoSlash, split_slash_of_NoSlash, split_slash-slash,
}
use rig_stack.Client.Types.{ApiInstance}
use rig_stack.Client.Format.{fmt_ram}
use rig_stack.StatusBadge.{Badge, badge}
use rig_stack.InstanceDetail.{State, Tab, overview, console, metrics, Metrics, same_tab}

-- A credential: its label, its value, and whether it is secret.
pub record Cred : Type 0 where
  pub label : String
  pub value : String
  pub secret : Bool

pub record Overview : Type 0 where
  pub creds : List Cred
  pub no_address : Bool
  pub status : Badge
  pub rows : List (String × String)

pub record MetricCard : Type 0 where
  pub label : String
  pub display : String
  pub max : Option String

-- The content of the chosen tab. Of the console, whether its warning is shown.
pub data Content : Type 0 where
  overview_tab : Overview → Content
  console_tab : String → Bool → Content
  metrics_tab : Option String → Bool → List MetricCard → Option String → Content

pub record Shown : Type 0 where
  pub name : String
  pub status : Badge
  pub power_label : String
  pub tabs : List (String × Bool)
  pub content : Content

pub data View : Type 0 where
  loading : View
  missing : View
  shown : Shown → View

abbrev first_part : List String → String
first_part [] = ""
first_part (p ∷ ps) = p

unfoldable pub ssh_command : String → String
unfolding split_slash
ssh_command ip =
    if truthy ip then "ssh rigstack@" <> first_part (split_slash ip) else "— aguardando IP"

-- The error of the metrics, which is shown if it is not empty.
abbrev shown_error : Option String → Option String
shown_error none = none
shown_error (some m) = if truthy m then some m else none

module _ (date_time time fixed_one : String → String) where
  unfoldable pub overview_of : ApiInstance → Overview
  unfolding ssh_command
  overview_of i = record {
    creds =
        record { label = "Usuário"; value = "rigstack"; secret = false }
        ∷ record { label = "Senha"; value = or_dash i.password; secret = true }
        ∷ record { label = "Comando SSH"; value = ssh_command i.ip_address; secret = false }
        ∷ [];
    no_address = not (truthy i.ip_address);
    status = badge i.status;
    rows =
        ("ID", i.id)
        ∷ ("Nome", i.name)
        ∷ ("OS", i.os_image)
        ∷ ("vCPUs", decimal i.vcpus)
        ∷ ("RAM", fmt_ram i.ram_mb)
        ∷ ("Disco", decimal i.disk_gb <> " GB")
        ∷ ("IP", or_dash i.ip_address)
        ∷ ("Node ID", or_dash i.node_id)
        ∷ ("VPC ID", or_dash i.vpc_id)
        ∷ ("Criado em", date_time i.created_at)
        ∷ ("Atualizado em", date_time i.updated_at)
        ∷ [];
  }

  -- The two cards; `max` is left out if it is 0.
  abbrev cards_of : Option Metrics → ApiInstance → List MetricCard
  cards_of none i = []
  cards_of (some m) i =
      record { label = "CPU"; display = fixed_one m.cpu_pct <> "%"; max = none }
      ∷ record {
        label = "RAM usada";
        display = fmt_ram m.ram_mb;
        max = if eqb i.ram_mb 0 then none else some ("de " <> fmt_ram i.ram_mb);
      }
      ∷ []

  abbrev stamp_of : Option Metrics → Option String
  stamp_of none = none
  stamp_of (some m) = some ("Atualizado em " <> time m.time <> " · atualiza a cada 6s")

  unfoldable pub content_of : Tab → State → ApiInstance → Content
  unfolding overview_of
  content_of overview s i = overview_tab (overview_of i)
  content_of console s i = console_tab i.name (not (i.status == "running"))
  content_of metrics s i =
      metrics_tab (shown_error s.metrics_error) (s.metrics_loading && not (is_some s.metrics))
        (cards_of s.metrics i) (stamp_of s.metrics)

  unfoldable pub shown_page : State → ApiInstance → Shown
  unfolding content_of
  shown_page s i = record {
    name = i.name;
    status = badge i.status;
    power_label = if i.status == "running" then "Parar" else "Iniciar";
    tabs =
        ("Visão Geral", same_tab s.tab overview)
        ∷ ("Console", same_tab s.tab console)
        ∷ ("Métricas", same_tab s.tab metrics)
        ∷ [];
    content = content_of s.tab s i;
  }

  abbrev page_or_missing : Option ApiInstance → State → View
  page_or_missing none s = missing
  page_or_missing (some i) s = shown (shown_page s i)

  unfoldable pub view : State → View
  unfolding shown_page
  view s = if s.loading then loading else page_or_missing s.instance s

ne_append : (a b : String) → a ≢ "" → (a <> b) ≢ ""
ne_append String.[] b h = absurd (h refl)
ne_append (String.◌∷◌ c a) b h = λ e. cc (e, cons-append c a b)

-- The command for SSH names the address of the instance, which is not empty and has no slash,
-- without the length of its prefix if it has one.
pub ssh_command_lem :
    (address prefix : String)
    → NoSlash address
    → address ≢ ""
    → (ssh_command (address <> "/" <> prefix) ≡ "ssh rigstack@" <> address)
      × (ssh_command address ≡ "ssh rigstack@" <> address)
unfolding ssh_command
ssh_command_lem address prefix h n = (
  rw (
    eq-false (address <> "/" <> prefix) "" (ne_append address ("/" <> prefix) n),
    split_slash-slash address prefix,
    split_slash_of_NoSlash address h,
  ),
  rw (eq-false address "" n, split_slash_of_NoSlash address h),
)
