-- ===== src/Demo/Shown/Modes.antt =====
-- frontend/src/pages/{Network,Kubernetes,ObjectStorage}.tsx: what the two modes have in common.
use rig_stack.Prelude.{ℕ, String, ◌==◌, List, [], ◌∷◌, map, ◌≡◌, refl, Bool-cases, inl, inr}
use rig_stack.Demo.Types.{Bucket, NetworkVpc, K8sCluster}
use rig_stack.Demo.Data.Services.{vpcs}
use rig_stack.Demo.Data.Compute.{k8s_clusters}
use rig_stack.Demo.Data.Buckets.{buckets}
use rig_stack.Demo.Shown.{Cell, text, status, label, link, Card, Body, table, cards, by_mode}
use rig_stack.Demo.Network.{vpc_row, vpc_card, vpc_page, cluster_row, cluster_card, cluster_page}
use rig_stack.Demo.Buckets.{bucket_row, bucket_card, storage_page}

-- The text of a cell, that of the first cell of a row, and the names that a page shows, in order.
abbrev pub text_of : Cell → String
text_of (text t) = t
text_of (status b) = b.label
text_of (label t colour) = t
text_of (link t target) = t

abbrev pub first_text : List Cell → String
first_text [] = ""
first_text (c ∷ cs) = text_of c

abbrev pub names_of : Body → List String
names_of (table headings rows) = map first_text rows
names_of (cards cs) = map (λ (c : Card). c.heading) cs

names_of-by_mode :
    {A : Type 0} (mode : String) (headings : List String) (row : A → List Cell) (card : A → Card)
    (name : A → String) (shown : List A)
    → ((a : A) → first_text (row a) ≡ name a)
    → ((a : A) → (card a).heading ≡ name a)
    → names_of (by_mode mode headings row card shown) ≡ map name shown
names_of-by_mode {A} mode headings row card name shown rows heads =
    elim (Bool-cases (mode == "list")) [
      | inl e ↦ rw e (in_rows shown)
      | inr e ↦ rw e (in_cards shown)
    ]
  where
    in_rows : (xs : List A) → map first_text (map row xs) ≡ map name xs
    in_rows [] = refl
    in_rows (x ∷ xs) = rw (rows x, in_rows xs)

    in_cards : (xs : List A) → map (λ (c : Card). c.heading) (map card xs) ≡ map name xs
    in_cards [] = refl
    in_cards (x ∷ xs) = rw (heads x, in_cards xs)

-- Whatever the mode, also one that is neither "list" nor "grid", the demo pages of networks, of
-- clusters and of buckets show each of theirs once, in order, under its name.
pub modes_agree :
    (grouped : ℕ → String) (mode : String)
    → (names_of (vpc_page mode) ≡ map (λ (v : NetworkVpc). v.name) vpcs)
      × (names_of (cluster_page mode) ≡ map (λ (c : K8sCluster). c.name) k8s_clusters)
      × (names_of (storage_page grouped mode) ≡ map (λ (b : Bucket). b.name) buckets)
unfolding vpc_row vpc_card cluster_row cluster_card bucket_row bucket_card
modes_agree grouped mode = (
  names_of-by_mode mode _ vpc_row vpc_card (λ v. v.name) vpcs (λ v. refl) (λ v. refl),
  names_of-by_mode mode _ cluster_row cluster_card (λ c. c.name) k8s_clusters (λ c. refl)
      (λ c. refl),
  names_of-by_mode mode _ (bucket_row grouped) (bucket_card grouped) (λ b. b.name) buckets
      (λ b. refl) (λ b. refl),
)
