-- ===== src/Agent/Libvirt.antt =====
-- agent/internal/libvirt/manager.go: the machines of a node. The connection, the console, and the
-- metrics of a node and of a machine are left out. `Domain…` of libvirt are numbers.
pub mod Stopping
use rig_stack.Prelude.{
  ℕ, zero, suc, ◌+◌, ◌/◌, ◌%◌, String, ◌<>◌, Bool, true, false, ◌||◌, not, List, [], ◌∷◌, eqb, ltb,
  if◌then◌else◌,
}
use rig_stack.Prelude.Text.{decimal}
use rig_stack.Client.Http.{Result, ok, err}
use rig_stack.Agent.Domain.{VmSpec, domain_xml}
use rig_stack.Agent.Host.{
  Act, lookup, define, launch, destroy, shutdown, undefine, Host, Domain, Past, M, ◌>>=◌, ◌>>◌,
  unfinished, pure, perform, must, attempt, ignore, blame, domain_state, all_domains, draw, now,
  pass,
}

-- `CreateVM`.
unfoldable pub create_vm : VmSpec → M (Unit {0})
create_vm spec = do
  dom ← blame "define domain" (perform (define (domain_xml spec)))
  blame "start domain" (must (launch dom))

-- `getDomain`, and the quoted name of the errors.
abbrev pub quoted : String → String
quoted name = "\"" <> name <> "\""

-- The text of the error begins with the name.
unfoldable pub get_domain : String → M String
get_domain name = blame ("domain " <> quoted name <> " not found") (perform (lookup name))

-- `StartVM`.
unfoldable pub start_vm : String → M (Unit {0})
unfolding get_domain
start_vm name = do dom ← get_domain name; blame ("start domain " <> quoted name) (must (launch dom))

abbrev pub running : ℕ
running = 1

abbrev pub paused : ℕ
paused = 3

abbrev pub shut_down : ℕ
shut_down = 4

abbrev pub shut_off : ℕ
shut_off = 5

abbrev pub crashed : ℕ
crashed = 6

-- What follows the answer about the state: an error leaves the loop.
abbrev pub seen : M Bool → Result ℕ → M Bool
seen again (err m) = pure false
seen again (ok state) = if eqb state shut_off then pure true else again

-- The loop of `StopVM`: whether the machine was seen to be off before the deadline.
unfoldable pub wait_off : ℕ → ℕ → String → M Bool
wait_off zero deadline dom = λ host past. (unfinished, past)
wait_off (suc fuel) deadline dom =
    let again = wait_off fuel deadline dom in
    let round = pass 2 >>= λ slept. attempt (domain_state dom) >>= λ r. seen again r in
    now >>= λ time. if ltb time deadline then round else pure false

-- `StopVM`, whose loop is cut off after so many rounds.
unfoldable pub stop_vm : ℕ → String → Bool → M (Unit {0})
unfolding get_domain wait_off
stop_vm rounds name force = do
  dom ← get_domain name
  if force then blame ("destroy domain " <> quoted name) (must (destroy dom)) else do
    blame ("shutdown domain " <> quoted name) (must (shutdown dom))
    start ← now
    off ← wait_off rounds (start + 30) dom
    if off then pure tt else blame ("force stop domain " <> quoted name) (must (destroy dom))

abbrev pub is_running : Result ℕ → Bool
is_running (ok state) = eqb state running
is_running (err m) = false

-- `DeleteVM`.
unfoldable pub delete_vm : String → M (Unit {0})
unfolding get_domain
delete_vm name = do
  dom ← get_domain name
  r ← attempt (domain_state dom)
  if is_running r then ignore (perform (destroy dom)) else pure tt
  blame ("undefine domain " <> quoted name) (must (undefine dom))

-- `domainStateString`.
unfoldable pub domain_state_string : ℕ → String
domain_state_string s =
    if eqb s running
    then "running"
    else if eqb s shut_off || eqb s shut_down
    then "stopped"
    else if eqb s paused
    then "paused"
    else if eqb s crashed
    then "error"
    else "pending"
