-- ===== src/Agent/Executor/Quiet.antt =====
-- agent/internal: calls that report nothing themselves, and come to a result or to an error; how they are put
-- together.
use rig_stack.Prelude.{String, Bool, true, false, ◌≡◌, refl, ◌∙◌, if◌then◌else◌, ◌∷◌}
use rig_stack.Client.Http.{Result, ok, err}
use rig_stack.Agent.Host.{
  Act, Past, Host, Outcome, returned, failed, panicked, unfinished, M, ◌>>=◌, ◌>>◌, and_then, pure,
  recovered, recover, ended, perform, must, caught, attempt, ignore, blamed, blame, reports,
}

-- The call came to an end of its own.
abbrev pub calm {ℓ} : {A : Type ℓ} → Outcome A → Bool
calm (returned a) = true
calm (failed e) = true
calm panicked = false
calm unfinished = false

-- From a past to the end of a call, nothing was reported.
abbrev pub Silent {ℓ} : {A : Type ℓ} → Past → Outcome A × Past → Type 0
Silent past (o, now) = (reports now ≡ reports past) × (calm o ≡ true)

abbrev pub IsQuiet {ℓ} : {A : Type ℓ} → M A → Type 0
IsQuiet m = (host : Host) (past : Past) → Silent past (m host past)

abbrev IsUnreported : Act → Type 0
IsUnreported act = (past : Past) → reports (act ∷ past) ≡ reports past

module _ {ℓ κ} {A : Type ℓ} {B : Type κ} where
  and_then-Silent :
      (host : Host) (past : Past) (p : Outcome A × Past) (f : A → M B)
      → Silent past p
      → ((a : A) → IsQuiet (f a))
      → Silent past (and_then host p f)
  and_then-Silent host past (returned a, now) f (kept, came) q =
      let (kept', came') = q a host now in (kept' ∙ kept, came')
  and_then-Silent host past (failed e, now) f s q = s
  and_then-Silent host past (panicked, now) f (kept, came) q = (kept, came)
  and_then-Silent host past (unfinished, now) f (kept, came) q = (kept, came)

  pub bind-IsQuiet :
      (m : M A) (f : A → M B) → IsQuiet m → ((a : A) → IsQuiet (f a)) → IsQuiet (m >>= f)
  bind-IsQuiet m f qm qf = λ host past. and_then-Silent host past (m host past) f (qm host past) qf

pub done-IsQuiet : IsQuiet (pure {A = Unit {0}} tt)
done-IsQuiet = λ host past. (refl, refl)

module _ {ℓ κ} {A : Type ℓ} {B : Type κ} where
  recovered-Silent :
      (host : Host) (past : Past) (p : Outcome A × Past) (f : A → M B) (g : String → M B)
      → Silent past p
      → ((a : A) → IsQuiet (f a))
      → ((e : String) → IsQuiet (g e))
      → Silent past (recovered host p f g)
  recovered-Silent host past (returned a, now) f g (kept, came) qf qg =
      let (kept', came') = qf a host now in (kept' ∙ kept, came')
  recovered-Silent host past (failed e, now) f g (kept, came) qf qg =
      let (kept', came') = qg e host now in (kept' ∙ kept, came')
  recovered-Silent host past (panicked, now) f g (kept, came) qf qg = (kept, came)
  recovered-Silent host past (unfinished, now) f g (kept, came) qf qg = (kept, came)

  pub recover-IsQuiet :
      (m : M A) (f : A → M B) (g : String → M B)
      → IsQuiet m
      → ((a : A) → IsQuiet (f a))
      → ((e : String) → IsQuiet (g e))
      → IsQuiet (recover m f g)
  recover-IsQuiet m f g qm qf qg =
      λ host past. recovered-Silent host past (m host past) f g (qm host past) qf qg

pub ignore-IsQuiet {ℓ} : {A : Type ℓ} (m : M A) → IsQuiet m → IsQuiet (ignore m)
ignore-IsQuiet m q =
    recover-IsQuiet m (λ a. pure tt) (λ e. pure tt) q (λ a. done-IsQuiet) (λ e. done-IsQuiet)

module _ {ℓ} {A : Type ℓ} where
  pub ended-calm : (r : Result A) → calm (ended r) ≡ true
  ended-calm (ok a) = refl
  ended-calm (err e) = refl

  caught-Silent : (past : Past) (p : Outcome A × Past) → Silent past p → Silent past (caught p)
  caught-Silent past (returned a, now) s = s
  caught-Silent past (failed e, now) s = s
  caught-Silent past (panicked, now) s = s
  caught-Silent past (unfinished, now) s = s

  pub attempt-IsQuiet : (m : M A) → IsQuiet m → IsQuiet (attempt m)
  attempt-IsQuiet m q = λ host past. caught-Silent past (m host past) (q host past)

  blamed-Silent :
      (what : String) (past : Past) (p : Outcome A × Past)
      → Silent past p
      → Silent past (blamed what p)
  blamed-Silent what past (returned a, now) s = s
  blamed-Silent what past (failed e, now) s = s
  blamed-Silent what past (panicked, now) s = s
  blamed-Silent what past (unfinished, now) s = s

  pub blame-IsQuiet : (what : String) (m : M A) → IsQuiet m → IsQuiet (blame what m)
  blame-IsQuiet what m q = λ host past. blamed-Silent what past (m host past) (q host past)

  pub if-IsQuiet : (b : Bool) (m n : M A) → IsQuiet m → IsQuiet n → IsQuiet (if b then m else n)
  if-IsQuiet true m n qm qn = qm
  if-IsQuiet false m n qm qn = qn

pub perform-IsQuiet : (act : Act) → IsUnreported act → IsQuiet (perform act)
perform-IsQuiet act h = λ host past. (h past, ended-calm (host.reply past act))

pub must-IsQuiet : (act : Act) → IsUnreported act → IsQuiet (must act)
must-IsQuiet act h =
    bind-IsQuiet (perform act) (λ output. pure tt) (perform-IsQuiet act h) (λ o. done-IsQuiet)

-- `m >> k`.
pub after-IsQuiet {ℓ} :
    {B : Type ℓ} (m : M (Unit {0})) (k : M B) → IsQuiet m → IsQuiet k → IsQuiet (m >> k)
after-IsQuiet m k qm qk = bind-IsQuiet m (λ u. k) qm (λ u. qk)
