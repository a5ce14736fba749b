-- ===== src/Agent/Libvirt/Stopping.antt =====
-- agent/internal/libvirt/manager.go: a stop comes to an end, and what it returns is true.
use rig_stack.Prelude.{
  ℕ, zero, suc, ◌+◌, ◌*◌, ◌≤◌, String, ◌<>◌, Bool, true, false, ◌≡◌, refl, ◌∙◌, ap, ◌⊎◌, inl, inr,
  ◌∷◌, arith, ltb, Bool-cases, eqb, if◌then◌else◌,
}
use rig_stack.Client.Http.{ok}
use rig_stack.Controller.Service.Instances.Found.{Result-cases}
use rig_stack.Agent.Host.{
  Act, Past, Host, Outcome, returned, failed, panicked, unfinished, and_then, ask_state, sleep,
  destroy, lookup, shutdown, reports, pure, must, blame,
}
use rig_stack.Agent.Libvirt.{wait_off, shut_off, stop_vm, get_domain, quoted}

-- The clock does not go back, and a sleep lasts as long as it was asked for.
pub record IsTicking (host : Host) : Type 0 where
  pub onward : (act : Act) (past : Past) → host.clock past ≤ host.clock (act ∷ past)
  pub slept : (n : ℕ) (past : Past) → host.clock past + n ≤ host.clock (sleep n ∷ past)

-- The domain `dom` was seen to be off by the last act, or destroyed by it.
abbrev pub IsDown : Host → String → Past → Type 0
IsDown host dom now =
    (past : Past) × (((now ≡ ask_state dom ∷ past) × (host.state past dom ≡ ok shut_off))
      ⊎ ((output : String) × (now ≡ destroy dom ∷ past)
          × (host.reply past (destroy dom) ≡ ok output)))

-- The domain that libvirt found at `start` under a name is off, or destroyed.
abbrev pub IsOff : Host → String → Past → Past → Type 0
IsOff host name start now =
    (dom : String) × (host.reply start (lookup name) ≡ ok dom) × IsDown host dom now

-- The loop ends, with nothing reported, and says that the domain is off only if it saw that.
abbrev Waited : Host → String → Past → Outcome Bool × Past → Type 0
Waited host dom past (returned true, now) = (reports now ≡ reports past) × IsDown host dom now
Waited host dom past (returned false, now) = reports now ≡ reports past
Waited host dom past (o, now) = true ≡ false

late_lem : (time deadline : ℕ) → deadline ≤ time → ltb time deadline ≡ false
late_lem time deadline h = ground arith

module _ (host : Host) (ticks : IsTicking host) (deadline : ℕ) (dom : String) where
  later : (past : Past) → host.clock past + 2 ≤ host.clock (ask_state dom ∷ sleep 2 ∷ past)
  later past = omega (arith, ticks.slept 2 past, ticks.onward (ask_state dom) (sleep 2 ∷ past))

  wait_off-Waited :
      (fuel : ℕ) (past : Past)
      → deadline ≤ host.clock past + 2 * fuel
      → Waited host dom past (wait_off (suc fuel) deadline dom host past)
  unfolding wait_off
  wait_off-Waited zero past h =
      rw (wait_off, late_lem (host.clock past) deadline (omega arith)) refl
  wait_off-Waited (suc fuel) past h = elim (Bool-cases (ltb (host.clock past) deadline)) [
    | inr late ↦ rw (wait_off, late) refl
    | inl early ↦ elim (Result-cases (host.state (sleep 2 ∷ past) dom)) [
      | inl (m, e) ↦ rw (wait_off, early, e) refl
      | inr (state, e) ↦ elim (Bool-cases (eqb state shut_off)) [
        | inl off ↦
            rw (wait_off, early, e, off)
              (refl, (sleep 2 ∷ past, inl (refl, e ∙ ap ok (ground arith))))
        | inr on ↦
            rw (wait_off, early, e, on)
              (wait_off-Waited fuel (ask_state dom ∷ sleep 2 ∷ past) (omega (arith, later past)))
      ]
    ]
  ]

-- The call comes to an end, without a panic, with nothing reported, and returns only where the domain
-- is down.
abbrev Downed : Host → String → Past → Outcome (Unit {0}) × Past → Type 0
Downed host dom past (returned u, now) = (reports now ≡ reports past) × IsDown host dom now
Downed host dom past (failed m, now) = reports now ≡ reports past
Downed host dom past (o, now) = true ≡ false

-- The same of the domain that libvirt finds under a name.
abbrev pub Stopped : Host → String → Past → Outcome (Unit {0}) × Past → Type 0
Stopped host name past (returned u, now) = (reports now ≡ reports past) × IsOff host name past now
Stopped host name past (failed m, now) = reports now ≡ reports past
Stopped host name past (o, now) = true ≡ false

destroyed :
    (host : Host) (what dom : String) (past : Past)
    → Downed host dom past (blame what (must (destroy dom)) host past)
destroyed host what dom past = elim (Result-cases (host.reply past (destroy dom))) [
  | inl (m, e) ↦ rw e refl
  | inr (output, e) ↦ rw e (refl, (past, inr (output, refl, e)))
]

since :
    (host : Host) (dom : String) (past now : Past)
    → reports now ≡ reports past
    → (p : Outcome (Unit {0}) × Past) → Downed host dom now p
    → Downed host dom past p
since host dom past now w (returned u, end) (kept, off) = (kept ∙ w, off)
since host dom past now w (failed m, end) kept = kept ∙ w
since host dom past now w (panicked, end) k = k
since host dom past now w (unfinished, end) k = k

found :
    (host : Host) (name dom : String) (start past : Past)
    → host.reply start (lookup name) ≡ ok dom
    → reports past ≡ reports start
    → (p : Outcome (Unit {0}) × Past) → Downed host dom past p
    → Stopped host name start p
found host name dom start past e w (returned u, end) (kept, off) = (kept ∙ w, (dom, e, off))
found host name dom start past e w (failed m, end) kept = kept ∙ w
found host name dom start past e w (panicked, end) k = k
found host name dom start past e w (unfinished, end) k = k

forced :
    (host : Host) (what dom : String) (past : Past) (p : Outcome Bool × Past)
    → Waited host dom past p
    → Downed host dom past
        (and_then host p (λ off. if off then pure tt else blame what (must (destroy dom))))
forced host what dom past (returned true, now) w = w
forced host what dom past (returned false, now) w =
    since host dom past now w (blame what (must (destroy dom)) host now)
      (destroyed host what dom now)
forced host what dom past (failed m, now) w = cc
forced host what dom past (panicked, now) w = cc
forced host what dom past (unfinished, now) w = cc

-- Under a clock that goes on, 16 rounds are enough for the loop of a stop, which waits up to 30 seconds in
-- steps of two. A stop comes to a result or an error, and if it returns, then the domain that libvirt
-- had found under the name was just seen to be off, or was just destroyed.
pub stop_vm-Stopped :
    (host : Host) (name : String) (force : Bool) (past : Past)
    → IsTicking host
    → Stopped host name past (stop_vm 16 name force host past)
unfolding stop_vm get_domain
stop_vm-Stopped host name true past ticks = elim (Result-cases (host.reply past (lookup name))) [
  | inl (m, e) ↦ rw (stop_vm, e) refl
  | inr (dom, e) ↦
      rw (stop_vm, e)
        (found host name dom past (lookup name ∷ past) e refl _
          (destroyed host ("destroy domain " <> quoted name) dom (lookup name ∷ past)))
]
stop_vm-Stopped host name false past ticks = elim (Result-cases (host.reply past (lookup name))) [
  | inl (m, e) ↦ rw (stop_vm, e) refl
  | inr (dom, e) ↦ elim (Result-cases (host.reply (lookup name ∷ past) (shutdown dom))) [
    | inl (m, f) ↦ rw (stop_vm, e, f) refl
    | inr (output, f) ↦
        rw (stop_vm, e, f)
          (found host name dom past past e refl _ (
            forced host ("force stop domain " <> quoted name) dom past _ (
              wait_off-Waited host ticks (host.clock (shutdown dom ∷ lookup name ∷ past) + 30) dom
                15 (shutdown dom ∷ lookup name ∷ past) (omega arith))))
  ]
]
