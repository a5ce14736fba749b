-- ===== src/Demo/Shown.antt =====
-- frontend/src/pages: what the demo pages show, tables and cards; styling, icons and the buttons that
-- do nothing are left out.
pub mod Modes
use rig_stack.Prelude.{String, ◌==◌, Bool, List, map, Option, if◌then◌else◌}
use rig_stack.StatusBadge.{Badge}

-- A cell of a table. A label is a text in colours of its own.
pub data Cell : Type 0 where
  text : String → Cell
  status : Badge → Cell
  label : String → String → Cell
  link : String → String → Cell

-- A card, with its heading, the line below, its badge or label, and its items.
pub record Card : Type 0 where
  pub heading : String
  pub line : Option String
  pub mark : Cell
  pub items : List (String × String)
  pub target : Option String

pub data Body : Type 0 where
  table : List String → List (List Cell) → Body
  cards : List Card → Body

-- A page with a `ViewToggle`: a table if the mode is "list", and else cards.
abbrev pub by_mode :
    {A : Type 0} → String → List String → (A → List Cell) → (A → Card) → List A → Body
by_mode mode headings row card shown =
    if mode == "list" then table headings (map row shown) else cards (map card shown)
