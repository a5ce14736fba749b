-- ===== src/InstanceDetail/Credential.antt =====
-- frontend/src/pages/real/InstanceDetail.tsx: the component `CredField`, which shows or hides a
-- value and copies it. `value` and `secret` are its properties, and `clipboard` is whether the page
-- has `navigator.clipboard`.
use rig_stack.Prelude.{
  ℕ, ◌+◌, ◌-◌, ◌≤◌, String, Bool, true, false, ◌&&◌, not, [], ◌∷◌, ◌++◌, ◌≡◌, arith, refl, inl, inr,
  Bool-cases, flag, tally, tally-append, All, All-append, if◌then◌else◌,
}
use rig_stack.Runtime.{Out, update, Component, World, Reach}
use rig_stack.Runtime.Invariant.{Steps_inv, tally-remove}

pub record State : Type 0 where
  pub visible : Bool
  pub copied : Bool

-- The timer of 1.5 s.
pub data Task : Type 0 where
  copied_timer : Task

abbrev pub Reply : Task → Type 0
Reply copied_timer = Unit {0}

pub data Event : Type 0 where
  toggle copy : Event

unfoldable pub resume : State → (t : Task) → Reply t → Out State Task
resume s copied_timer r = update (record s { copied = false })

module _ (value : String) (secret clipboard : Bool) where
  abbrev pub initial : State
  initial = record { visible = not secret; copied = false }

  -- The button with the eye is there for a secret only.
  unfoldable pub enabled : State → Event → Bool
  enabled s toggle = secret
  enabled s copy = true

  unfoldable pub handle : State → Event → Out State Task
  handle s toggle = update (record s { visible = not s.visible })
  handle s copy =
      if clipboard
      then record {
        state = record s { copied = true };
        tasks = copied_timer ∷ [];
        sent = [];
        alerts = [];
        clipboard = value ∷ [];
      }
      else update s

  -- The text of the field.
  unfoldable pub shown_text : State → String
  shown_text s = if secret && not s.visible then "••••••••••••" else value

  abbrev pub field : Component
  field = record {
    State = State;
    Event = Event;
    Task = Task;
    Reply = Reply;
    mount = update initial;
    enabled = enabled;
    handle = handle;
    resume = resume;
  }

abbrev pub timers : Task → ℕ
timers copied_timer = 1

-- The field has copied nothing but its value, and shows the mark of a copy only while a timer is set
-- that takes the mark away.
abbrev pub IsFaithful : String → World State Task → Type 0
IsFaithful value w = All (λ t. t ≡ value) w.clipboard × (flag w.state.copied ≤ tally timers w.tasks)

module _ (value : String) (secret clipboard : Bool) where
  handle-copies :
      (s : State) (e : Event)
      → All (λ t. t ≡ value) (handle value secret clipboard s e).clipboard
        × (flag (handle value secret clipboard s e).state.copied
            ≤ flag s.copied + tally timers (handle value secret clipboard s e).tasks)
  unfolding handle
  handle-copies s toggle = (tt, omega arith)
  handle-copies s copy = elim (Bool-cases clipboard) [
    | inl e ↦ rw e ((refl, tt), omega arith)
    | inr e ↦ rw e (tt, omega arith)
  ]

resume-copies :
    (value : String) (s : State) (t : Task) (r : Reply t)
    → All (λ u. u ≡ value) (resume s t r).clipboard
      × (flag (resume s t r).state.copied
          ≤ flag s.copied - timers t + tally timers (resume s t r).tasks)
unfolding resume
resume-copies value s copied_timer r = (tt, omega arith)

-- In every reachable world a credential field, secret or not, hidden or shown, has copied nothing
-- but its value, and shows the mark of a copy only while a timer is set that takes it away.
pub field-IsFaithful :
    (value : String) (secret clipboard : Bool) {w : World State Task}
    → Reach (field value secret clipboard) w
    → IsFaithful value w
field-IsFaithful value secret clipboard r =
    Steps_inv (field value secret clipboard) (IsFaithful value)
      (λ w e on h. (
        All-append (λ t. t ≡ value) w.clipboard (handle value secret clipboard w.state e).clipboard
            h.0 (handle-copies value secret clipboard w.state e).0,
        omega (
          arith,
          h.1,
          (handle-copies value secret clipboard w.state e).1,
          tally-append timers w.tasks (handle value secret clipboard w.state e).tasks,
        ),
      ))
      (λ w before behind t y at h. (
        All-append (λ u. u ≡ value) w.clipboard (resume w.state t y).clipboard h.0
            (resume-copies value w.state t y).0,
        omega (
          arith,
          h.1,
          (resume-copies value w.state t y).1,
          tally-remove timers w.tasks before behind t at,
          tally-append timers (before ++ behind) (resume w.state t y).tasks,
        ),
      ))
      r (tt, omega arith)
