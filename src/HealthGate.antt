-- ===== src/HealthGate.antt =====
-- frontend/src/components/HealthGate.tsx: the gate that polls the controller and shows the
-- application when it answers. The component is mounted once.
pub mod Polling
use rig_stack.Prelude.{
  ℕ, ◌+◌, ◌%◌, String, ◌<>◌, Bool, true, false, ◌&&◌, not, Option, List, [], ◌∷◌, length, get_elem?,
  or_else, leb, if◌then◌else◌, none,
}
use Prim.Native.String.{count}
use rig_stack.Client.Http.{Request, get, Fetched, rejected, response, is_ok}
use rig_stack.Runtime.{Out, update, Component}

abbrev pub messages : List String
messages =
    "Inicializando ambiente..." ∷ "Conectando ao controller..." ∷ "Preparando os serviços..."
    ∷ "Verificando banco de dados..." ∷ "Quase lá..." ∷ []

-- The component's state, and `cancelled`, the variable of the effect that polls.
pub record State : Type 0 where
  pub ready : Bool
  pub msg_index : ℕ
  pub dots : String
  pub cancelled : Bool

abbrev pub initial : State
initial = record { ready = false; msg_index = 0; dots = ""; cancelled = false }

-- `poll` waits for `fetch`, or for its timer of 2 s.
pub data Task : Type 0 where
  fetched paused : Task

abbrev pub Reply : Task → Type 0
Reply fetched = Fetched
Reply paused = Unit {0}

-- The two intervals, and the cleanup of the effects.
pub data Event : Type 0 where
  next_message next_dots unmount : Event

abbrev pub health : Request
health = record { method = get; path = "/api/v1/health"; headers = []; body = none }

-- The head of the loop of `poll`: `while (!cancelled)`.
unfoldable pub poll : State → Out State Task
poll s =
    if s.cancelled
    then update s
    else record { state = s; tasks = fetched ∷ []; sent = health ∷ []; alerts = []; clipboard = [] }

abbrev pub pause : State → Out State Task
pause s = record { state = s; tasks = paused ∷ []; sent = []; alerts = []; clipboard = [] }

-- The rest of a round: an answer that is ok ends the loop, anything else waits for the timer.
unfoldable pub on_health : State → Fetched → Out State Task
on_health s (rejected m) = pause s
on_health s (response r) =
    if is_ok r
    then (if s.cancelled then update s else update (record s { ready = true }))
    else pause s

unfoldable pub resume : State → (t : Task) → Reply t → Out State Task
unfolding on_health poll
resume s fetched r = on_health s r
resume s paused r = poll s

-- `i => (i + 1) % MESSAGES.length`.
abbrev pub next_index : ℕ → ℕ
next_index i = (i + 1) % length messages

-- `d => d.length >= 3 ? '' : d + '.'`.
abbrev pub more_dots : String → String
more_dots d = if leb 3 (count d) then "" else d <> "."

-- The intervals run until the page is ready or unmounted.
unfoldable pub enabled : State → Event → Bool
enabled s next_message = not s.ready && not s.cancelled
enabled s next_dots = not s.ready && not s.cancelled
enabled s unmount = not s.cancelled

unfoldable pub handle : State → Event → Out State Task
handle s next_message = update (record s { msg_index = next_index s.msg_index })
handle s next_dots = update (record s { dots = more_dots s.dots })
handle s unmount = update (record s { cancelled = true })

abbrev pub gate : Component
gate = record {
  State = State;
  Event = Event;
  Task = Task;
  Reply = Reply;
  mount = poll initial;
  enabled = enabled;
  handle = handle;
  resume = resume;
}

-- What is rendered: the children, or a message with its dots; `none` where `MESSAGES` has no entry.
pub data View : Type 0 where
  children : View
  waiting : Option String → String → View

unfoldable pub view : State → View
view s = if s.ready then children else waiting (get_elem? messages s.msg_index) s.dots
