-- ===== src/StatusBadge.antt =====
-- frontend/src/components/StatusBadge.tsx: what a status looks like.
use rig_stack.Prelude.{
  String, ◌==◌, Bool, true, false, Option, none, some, List, [], ◌∷◌, or_else, if◌then◌else◌,
}

-- An entry of `config`; `pulse` is set by some entries and read by no code.
pub record Badge : Type 0 where
  pub label : String
  pub dot : String
  pub class_name : String
  pub pulse : Bool

abbrev entry : String → String → String → Bool → Badge
entry label dot class_name pulse = record {
  label = label;
  dot = dot;
  class_name = class_name;
  pulse = pulse;
}

abbrev pub config : List (String × Badge)
config =
    (
      "running",
      entry "Running" "bg-emerald-500" "bg-emerald-50 text-emerald-700 border-emerald-200" false,
    )
    ∷ (
      "stopped",
      entry "Stopped" "bg-slate-400" "bg-slate-50 text-slate-500 border-slate-200" false,
    )
    ∷ ("pending", entry "Pending" "bg-amber-500" "bg-amber-50 text-amber-700 border-amber-200" true)
    ∷ (
      "starting",
      entry "Starting" "bg-emerald-400" "bg-emerald-50 text-emerald-700 border-emerald-200" true,
    )
    ∷ (
      "stopping",
      entry "Stopping" "bg-amber-500" "bg-amber-50 text-amber-700 border-amber-200" true,
    )
    ∷ ("terminating", entry "Terminating" "bg-red-400" "bg-red-50 text-red-600 border-red-200" true)
    ∷ ("error", entry "Error" "bg-red-500" "bg-red-50 text-red-700 border-red-200" false)
    ∷ (
      "active",
      entry "Active" "bg-emerald-500" "bg-emerald-50 text-emerald-700 border-emerald-200" false,
    )
    ∷ (
      "inactive",
      entry "Inactive" "bg-slate-400" "bg-slate-50 text-slate-500 border-slate-200" false,
    )
    ∷ (
      "available",
      entry "Available" "bg-emerald-500" "bg-emerald-50 text-emerald-700 border-emerald-200" false,
    )
    ∷ (
      "building",
      entry "Building" "bg-amber-500" "bg-amber-50 text-amber-700 border-amber-200" true,
    )
    ∷ ("deprecated", entry "Deprecated" "bg-red-500" "bg-red-50 text-red-700 border-red-200" false)
    ∷ []

-- `config[status]`, where the object has the key itself.
unfoldable pub entry_of : String → List (String × Badge) → Option Badge
entry_of status [] = none
entry_of status ((key, b) ∷ rest) = if key == status then some b else entry_of status rest

-- What `StatusBadge` renders: an unknown status is shown in grey under its own name.
unfoldable pub badge : String → Badge
unfolding entry_of
badge status =
    or_else (entry_of status config)
      (entry status "bg-slate-400" "bg-slate-50 text-slate-500 border-slate-200" false)
