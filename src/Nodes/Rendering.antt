-- ===== src/Nodes/Rendering.antt =====
-- What the page `RealNodes` shows, sends and copies.
use rig_stack.Prelude.{
  ℕ, ◌+◌, String, Bool, true, false, Option, none, some, [], ◌∷◌, ◌≡◌, ◌⊎◌, refl, arith, length,
  length-keep-le, get_elem?, inl, inr, and-true, length-map, is_some,
}
use rig_stack.Client.Types.{ApiNode}
use rig_stack.Client.Endpoints.{nodes_delete}
use rig_stack.Nodes.{card, State, shown_page, is_healthy, remove, remove_node, enabled, handle}

-- The header counts every node once, as healthy or as unreachable, and the page has a card for
-- each.
pub nodes_counted :
    (host : String) (date_time date : String → String) (s : State)
    → ((shown_page host date_time date s).healthy + (shown_page host date_time date s).unreachable
        ≡ length s.nodes)
      × (length (shown_page host date_time date s).cards ≡ length s.nodes)
unfolding shown_page
nodes_counted host date_time date s = (
  omega (arith, length-keep-le is_healthy s.nodes),
  length-map (card host date_time date) s.nodes,
)

pressed :
    (o : Option ApiNode) (agreed : Bool) (s : State)
    → is_some o ≡ true
    → (n : ApiNode) × (o ≡ some n)
      × ((remove_node o agreed s).state ≡ s)
      × (((agreed ≡ true) × ((remove_node o agreed s).sent ≡ nodes_delete n.id ∷ []))
          ⊎ ((agreed ≡ false) × ((remove_node o agreed s).sent ≡ [])))
pressed none agreed s h = cc
pressed (some n) true s h = (n, refl, refl, inl (refl, refl))
pressed (some n) false s h = (n, refl, refl, inr (refl, refl))

module _ (host : String) (clipboard : Bool) where
  -- The button of a card that is shown sends the deletion of that node if the user agrees, and
  -- otherwise nothing; the state of the page does not change.
  pub remove_lem :
      (s : State) (k : ℕ) (agreed : Bool)
      → enabled s (remove k agreed) ≡ true
      → (n : ApiNode) × (get_elem? s.nodes k ≡ some n)
        × ((handle host clipboard s (remove k agreed)).state ≡ s)
        × (((agreed ≡ true)
              × ((handle host clipboard s (remove k agreed)).sent ≡ nodes_delete n.id ∷ []))
            ⊎ ((agreed ≡ false) × ((handle host clipboard s (remove k agreed)).sent ≡ [])))
  unfolding handle enabled
  remove_lem s k agreed on = pressed (get_elem? s.nodes k) agreed s (and-true _ _ on).1
