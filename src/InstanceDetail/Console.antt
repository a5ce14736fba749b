-- ===== src/InstanceDetail/Console.antt =====
-- frontend/src/pages/real/InstanceDetail.tsx: the effect of the console tab, which opens a terminal
-- and a WebSocket and ends them when the tab is left. xterm.js and the WebSocket are libraries: what
-- is kept of a terminal is what is written to it, and of a socket its state and what is sent on it.
-- `proto` and `host` are those of `window.location`. The fit to the window is left out.
pub mod Live
use rig_stack.Prelude.{
  ℕ, zero, suc, String, ◌<>◌, ◌==◌, Bool, true, false, ◌&&◌, ◌||◌, not, Option, none, some, List,
  [], ◌∷◌, ◌++◌, truthy, if◌then◌else◌, ◌≡◌,
}
use rig_stack.InstanceDetail.{Tab, overview, console, metrics, same_tab}

-- `readyState`; `opened_up` is `WebSocket.OPEN`.
pub data Socket : Type 0 where
  connecting opened_up closing closed : Socket

abbrev pub is_open : Socket → Bool
is_open opened_up = true
is_open _ = false

abbrev pub is_connecting : Socket → Bool
is_connecting connecting = true
is_connecting _ = false

-- `ws.close()`.
abbrev pub close : Socket → Socket
close closed = closed
close _ = closing

-- A run of the effect: its socket, what was written to its terminal and what was sent.
pub record Run : Type 0 where
  pub url : String
  pub socket : Socket
  pub written : List String
  pub sent : List String

-- Whether the page is past its early returns, so that the tabs and, on the tab of the console, the
-- element of `termRef` are rendered; the tab; the run that goes on, if there is one; and those that were ended.
pub record State : Type 0 where
  pub ready : Bool
  pub tab : Tab
  pub current : Option Run
  pub ended : List Run

abbrev pub initial : State
initial = record { ready = false; tab = overview; current = none; ended = [] }

-- A render that is past the early returns, or not; the tabs; a key; what the socket of the run that goes on reports; and the end of the socket of one
-- that was ended.
pub data Event : Type 0 where
  shown : Bool → Event
  choose : Tab → Event
  typed : String → Event
  opened : Event
  received : String → Event
  failed : Event
  hung_up : Event
  ended_closed : ℕ → Event

abbrev pub write : String → Run → Run
write text r = record r { written = r.written ++ text ∷ [] }

-- `term.onData`.
abbrev pub type_in : String → Run → Run
type_in text r = if is_open r.socket then record r { sent = r.sent ++ text ∷ [] } else r

abbrev pub on_current : (Run → Run) → State → State
on_current f s = elim s.current [ none ↦ s | some r ↦ record s { current = some (f r) } ]

-- The cleanup.
unfoldable pub clean_up : State → State
clean_up s = elim s.current [
  | none ↦ s
  | some r ↦ record s { current = none; ended = record r { socket = close r.socket } ∷ s.ended }
]

unfoldable pub close_at : ℕ → List Run → List Run
close_at k [] = []
close_at zero (r ∷ rs) = record r { socket = closed } ∷ rs
close_at (suc k) (r ∷ rs) = r ∷ close_at k rs

-- `termRef.current`, after a render: the element is there exactly on the tab of the console of a page
-- that is past its early returns.
abbrev pub term_ref : State → Bool
term_ref s = same_tab s.tab console && s.ready

module _ (proto host id : String) where
  -- `${proto}//${window.location.host}/api/v1/instances/${id}/console`.
  abbrev pub console_url : String
  console_url =
      (if proto == "https:" then "wss:" else "ws:")
      <> "//"
      <> host
      <> "/api/v1/instances/"
      <> id
      <> "/console"

  -- The effect, after the cleanup of its last run.
  unfoldable pub run_console : State → State
  run_console s =
      if same_tab s.tab console && term_ref s && truthy id
      then record s {
        current = some (record { url = console_url; socket = connecting; written = []; sent = [] });
      }
      else s

  -- The same tab again changes nothing.
  unfoldable pub choose_tab : Tab → State → State
  unfolding run_console clean_up
  choose_tab t s = if same_tab t s.tab then s else run_console (record (clean_up s) { tab = t })

  unfoldable pub handle : State → Event → State
  unfolding choose_tab close_at
  handle s (shown b) = record s { ready = b }
  handle s (choose t) = choose_tab t s
  handle s (typed text) = on_current (type_in text) s
  handle s opened =
      on_current
        (λ r.
          write "\r\n\u{1b}[32mConectado ao console serial.\u{1b}[0m\r\n"
            (record r { socket = opened_up }))
        s
  handle s (received text) = on_current (write text) s
  handle s failed = on_current (write "\r\n\u{1b}[31mErro na conexão WebSocket.\u{1b}[0m\r\n") s
  handle s hung_up =
      on_current
        (λ r. write "\r\n\u{1b}[33mConexão encerrada.\u{1b}[0m\r\n" (record r { socket = closed }))
        s
  handle s (ended_closed k) = record s { ended = close_at k s.ended }

  -- What can happen: the tabs and the terminal are there once the page is past its early returns; a
  -- socket opens while it connects and gives data while it is open.
  abbrev pub socket_is : (Socket → Bool) → Option Run → Bool
  socket_is p none = false
  socket_is p (some r) = p r.socket

  unfoldable pub enabled : State → Event → Bool
  enabled s (shown b) = true
  enabled s (choose t) = s.ready
  enabled s (typed text) = s.ready && socket_is (λ k. true) s.current
  enabled s opened = socket_is is_connecting s.current
  enabled s (received text) = socket_is is_open s.current
  enabled s failed = socket_is (λ k. is_connecting k || is_open k) s.current
  enabled s hung_up = socket_is (λ k. is_connecting k || is_open k) s.current
  enabled s (ended_closed k) = true

  pub data Step : State → State → Type 0 where
    act : (s : State) (e : Event) → enabled s e ≡ true → Step s (handle s e)

  pub data Reach : State → Type 0 where
    mounted : Reach initial
    next : {s u : State} → Reach s → Step s u → Reach u
