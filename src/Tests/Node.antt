-- ===== src/Tests/Node.antt =====
-- A node whose tools do what is asked of them, but for the acts that are said to fail.
use rig_stack.Prelude.{
  ℕ, ◌+◌, ◌≤◌, String, ◌==◌, Bool, true, false, ◌&&◌, ◌||◌, not, Option, none, some, [], ◌∷◌, ◌≡◌,
  refl, sym, ◌∙◌, is_some, if◌then◌else◌, arith,
}
use rig_stack.Client.Http.{Result, ok, err}
use rig_stack.Controller.Tables.{v4}
use rig_stack.Agent.Host.{Act, run, sleep, Past, Host, Domain}
use rig_stack.Agent.Network.{shown}
use rig_stack.Agent.Network.Ensuring.{is_run, went, linked, IsShowing}
use rig_stack.Agent.Libvirt.Stopping.{IsTicking}

-- The link that an act asks to be shown.
abbrev asked : Act → Option String
asked (run (a ∷ b ∷ c ∷ name ∷ [])) = if c == "show" then some name else none
asked act = none

abbrev listed : Bool → Result String
listed true = ok "up"
listed false = ok ""

abbrev answered : (String → Bool) → Option String → Bool → Result String
answered there (some name) fails = listed (there name)
answered there none true = err "busy"
answered there none false = ok "done"

listed-went : (b : Bool) → went (listed b) ≡ true
listed-went true = refl
listed-went false = refl

listed-shown : (b : Bool) → shown (listed b) ≡ b
listed-shown true = refl
listed-shown false = refl

answered-went :
    (there : String → Bool) (o : Option String) (b : Bool)
    → went (answered there o b) ≡ (is_some o || not b)
answered-went there (some name) b = listed-went (there name)
answered-went there none true = refl
answered-went there none false = refl

abbrev pub machine : Domain
machine = record {
  uuid = 12 ∷ 29 ∷ 46 ∷ 63 ∷ 74 ∷ 91 ∷ 76 ∷ 109 ∷ 142 ∷ 159 ∷ 10 ∷ 27 ∷ 44 ∷ 61 ∷ 78 ∷ 95 ∷ [];
  name = "web";
}

module _ (fails : Act → Bool) where
  -- Whether an act succeeds.
  abbrev goes : Act → Bool
  goes act = is_some (asked act) || not (fails act)

  unfoldable pub there : String → Past → Bool
  there name [] = false
  there name (act ∷ past) =
      let before = there name past in
      if is_run ("ip" ∷ "link" ∷ "add" ∷ name ∷ "type" ∷ "bridge" ∷ []) act
      then goes act || before
      else if is_run ("ip" ∷ "link" ∷ "del" ∷ name ∷ []) act
      then not (goes act) && before
      else before

  abbrev replied : Past → Act → Result String
  replied past act = answered (λ name. there name past) (asked act) (fails act)

  unfoldable pub time : Past → ℕ
  time [] = 0
  time (sleep n ∷ past) = time past + n
  time (act ∷ past) = time past

  abbrev pub node : Host
  node = record {
    reply = replied;
    state = λ past dom. ok 5;
    domains = λ past. ok (machine ∷ []);
    active = λ past. ok (machine ∷ []);
    info = λ past. ok (16777216, 8);
    free_memory = λ past. ok 4294967296;
    bytes = λ past. ok (1, 35, 255);
    clock = time;
    parse_cidr = λ t. if t == "10.0.0.0/24" then some (v4 10 0 0 0 24) else none;
    bad_cidr = "invalid CIDR address";
  }

  pub ticking : IsTicking node
  unfolding time
  ticking = record {
    onward = λ act past. elim act as (λ a. time past ≤ time (a ∷ past)) [
      | sleep n ↦ omega arith
      | _ ↦ omega arith
    ];
    slept = λ n past. omega arith;
  }

  linked-there : (name : String) (past : Past) → linked node name past ≡ there name past
  unfolding linked there
  linked-there name [] = refl
  linked-there name (act ∷ past) =
      rw (linked-there name past, answered-went (λ n. there n past) (asked act) (fails act)) refl

  pub showing : IsShowing node
  showing past name = listed-shown (there name past) ∙ sym (linked-there name past)
