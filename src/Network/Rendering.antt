-- ===== src/Network/Rendering.antt =====
-- What the page `RealNetwork` shows of its state.
use rig_stack.Prelude.{
  String, ◌==◌, none, List, [], ◌∷◌, map, ◌≡◌, ◌≢◌, ◌↔◌, refl, inl, inr, sym, ◌∙◌, arith, eq_iff,
  Bool-cases,
}
use rig_stack.Client.Http.{ok, err}
use rig_stack.Client.Types.{ApiVpc}
use rig_stack.Runtime.{World, Steps}
use rig_stack.Runtime.Invariant.{Steps_inv}
use rig_stack.ViewMode.{Storage}
use rig_stack.Network.{
  State, Event, Task, Reply, loaded, page, handle, resume, body, body_of, Body, none_yet, table,
  cards, Item, item,
}

-- The VPCs that a body shows.
abbrev pub items : Body → List Item
items none_yet = []
items (table xs) = xs
items (cards xs) = xs

cards_no_table : (xs ys : List Item) → cards xs ≢ table ys
cards_no_table xs ys e = cc

body_of-items :
    (date : String → String) (mode : String) (vs : List ApiVpc)
    → (items (body_of date mode vs) ≡ map (item date) vs)
      × (((mode ≡ "list") × (vs ≢ [])) ↔ (body_of date mode vs ≡ table (map (item date) vs)))
body_of-items date mode [] = (refl, ((λ (_, some_vpc). absurd (some_vpc refl)), (λ e. cc)))
body_of-items date mode (v ∷ vs) = elim (Bool-cases (mode == "list")) [
  | inl e ↦ (rw e, ((λ _. rw e), (λ _. ((eq_iff mode "list").0 e, λ q. cc))))
  | inr e ↦ (
    rw e,
    (
      (λ (same, _). absurd (ground (arith, eq_iff mode "list"))),
      (λ q. absurd (cards_no_table _ _ (rw e at q))),
    ),
  )
]

-- Whatever the mode, also one that is stored and is neither "list" nor "grid", the page shows every
-- VPC of its list, in order; it is a table exactly if the mode is "list" and there is a VPC.
pub body-items :
    (date : String → String) (s : State)
    → (items (body date s) ≡ map (item date) s.vpcs)
      × (((s.view_mode ≡ "list") × (s.vpcs ≢ [])) ↔ (body date s ≡ table (map (item date) s.vpcs)))
unfolding body
body-items date s = body_of-items date s.view_mode s.vpcs

handle-error : (s : State) (e : Event) → (handle s e).state.error ≡ s.error
unfolding handle
handle-error s e = ground arith

resume-error :
    (s : State) (t : Task) (r : Reply t) → s.error ≢ none → (resume s t r).state.error ≢ none
unfolding resume
resume-error s loaded (ok v) h = h
resume-error s loaded (err m) h = λ e. cc
resume-error s _ r h = ground arith

-- A recorded error is never cleared.
pub network_error_never_cleared :
    (storage : Storage) {w v : World State Task}
    → Steps (page storage) w v
    → w.state.error ≢ none
    → v.state.error ≢ none
network_error_never_cleared storage r =
    Steps_inv (page storage) (λ w. w.state.error ≢ none)
      (λ w e on h same. h (sym (handle-error w.state e) ∙ same))
      (λ w before behind t y at h. resume-error w.state t y h) r
