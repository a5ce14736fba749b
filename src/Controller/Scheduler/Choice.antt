-- ===== src/Controller/Scheduler/Choice.antt =====
-- Which node `PickNode` chooses.
use mathlib.Core.List.{Memᴰ}
use mathlib.Core.Option.{some-injective}
use rig_stack.Prelude.{
  ℕ, ◌≤◌, ◌<◌, String, Bool, true, false, Option, none, some, List, [], ◌∷◌, ◌≡◌, ◌≢◌, ◌⊎◌, refl,
  sym, arith, inl, inr, keep, All, mem-keep, leb, ltb, Bool-cases, Option-cases, if◌then◌else◌,
}
use rig_stack.Client.Http.{ok, err}
use rig_stack.Controller.Tables.{NodeRow, Db, Env}
use rig_stack.Controller.Store.Nodes.{is_healthy, insert_by_ram, order_by_ram, get_healthy}
use rig_stack.Controller.Scheduler.{better, pick_from, pick_node, too_small}

abbrev floor_of : Option NodeRow → ℕ
floor_of none = 0
floor_of (some n) = n.ram_free

abbrev step : ℕ → NodeRow → Option NodeRow → Option NodeRow
step min x best = if ltb x.ram_free min then best else better x best

step_best :
    (min : ℕ) (x : NodeRow) (best : Option NodeRow)
    → (floor_of best ≤ floor_of (step min x best))
      × ((x.ram_free < min) ⊎ (x.ram_free ≤ floor_of (step min x best)))
step_best min x none = ground arith
step_best min x (some b) = ground arith

step_from :
    (min : ℕ) (x : NodeRow) (best : Option NodeRow) (n : NodeRow)
    → step min x best ≡ some n
    → ((x ≡ n) × (min ≤ x.ram_free)) ⊎ (best ≡ some n)
step_from min x none n h = elim (Bool-cases (ltb x.ram_free min)) [
  | inl low ↦ cc (rw low at h)
  | inr high ↦ inl (some-injective _ _ (rw high at h), ground arith)
]
step_from min x (some b) n h = elim (Bool-cases (ltb x.ram_free min)) [
  | inl low ↦ inr (rw low at h)
  | inr high ↦ elim (Bool-cases (ltb b.ram_free x.ram_free)) [
    | inl more ↦ inl (some-injective _ _ (rw (high, more) at h), ground arith)
    | inr no_more ↦ inr (rw (high, no_more) at h)
  ]
]

-- The choice has the most memory of all that have enough.
pick_from-most :
    (min : ℕ) (ns : List NodeRow) (best : Option NodeRow) (n : NodeRow)
    → pick_from min ns best ≡ some n
    → All (λ m. (m.ram_free < min) ⊎ (m.ram_free ≤ n.ram_free)) ns × (floor_of best ≤ n.ram_free)
unfolding pick_from
pick_from-most min [] best n h = (tt, rw h (omega arith))
pick_from-most min (x ∷ ns) best n h =
    let (rest, up) = pick_from-most min ns (step min x best) n h in
    let (kept, own) = step_best min x best in
    ((elim own [ inl low ↦ inl low | inr le ↦ inr (omega arith) ], rest), omega arith)

pick_from-mem :
    (min : ℕ) (ns : List NodeRow) (best : Option NodeRow) (n : NodeRow)
    → pick_from min ns best ≡ some n
    → (Memᴰ n ns × (min ≤ n.ram_free)) ⊎ (best ≡ some n)
unfolding pick_from
pick_from-mem min [] best n h = inr h
pick_from-mem min (x ∷ ns) best n h = elim (pick_from-mem min ns (step min x best) n h) [
  | inl (there, enough) ↦ inl (Memᴰ.tail there, enough)
  | inr from ↦ elim (step_from min x best n from) [
    | inl (same, enough) ↦ inl (Memᴰ.head (sym same), rw (← same) enough)
    | inr old ↦ inr old
  ]
]

better-some : (x : NodeRow) (best : Option NodeRow) → better x best ≢ none
better-some x none e = cc
better-some x (some b) e = ground arith

pick_from-none :
    (min : ℕ) (ns : List NodeRow) (best : Option NodeRow)
    → pick_from min ns best ≡ none
    → All (λ m. m.ram_free < min) ns × (best ≡ none)
unfolding pick_from
pick_from-none min [] best h = (tt, h)
pick_from-none min (x ∷ ns) best h =
    let (rest, e) = pick_from-none min ns (step min x best) h in
    elim (Bool-cases (ltb x.ram_free min)) [
      | inl low ↦ ((ground arith, rest), rw low at e)
      | inr high ↦ absurd (better-some x best (rw high at e))
    ]

-- The order of the query changes no membership.
mem-insert_by_ram :
    (n x : NodeRow) (ns : List NodeRow) → Memᴰ n (insert_by_ram x ns) → Memᴰ n (x ∷ ns)
unfolding insert_by_ram
mem-insert_by_ram n x [] m = m
mem-insert_by_ram n x (y ∷ ns) m = elim (Bool-cases (leb y.ram_free x.ram_free)) [
  | inl e ↦ rw e at m
  | inr e ↦ swap_in n x y ns (mem-insert_by_ram n x ns) (rw e at m)
]
  where
    swap_in :
        (n x y : NodeRow) (ns : List NodeRow)
        → (Memᴰ n (insert_by_ram x ns) → Memᴰ n (x ∷ ns))
        → Memᴰ n (y ∷ insert_by_ram x ns)
        → Memᴰ n (x ∷ y ∷ ns)
    swap_in n x y ns ih (Memᴰ.head e) = Memᴰ.tail (Memᴰ.head e)
    swap_in n x y ns ih (Memᴰ.tail m) = under n x y ns (ih m)
      where
        under : (n x y : NodeRow) (ns : List NodeRow) → Memᴰ n (x ∷ ns) → Memᴰ n (x ∷ y ∷ ns)
        under n x y ns (Memᴰ.head e) = Memᴰ.head e
        under n x y ns (Memᴰ.tail m) = Memᴰ.tail (Memᴰ.tail m)

under_head :
    (n x : NodeRow) (ns ms : List NodeRow)
    → (Memᴰ n ns → Memᴰ n ms)
    → Memᴰ n (x ∷ ns)
    → Memᴰ n (x ∷ ms)
under_head n x ns ms f (Memᴰ.head e) = Memᴰ.head e
under_head n x ns ms f (Memᴰ.tail m) = Memᴰ.tail (f m)

mem-order_by_ram : (n : NodeRow) (ns : List NodeRow) → Memᴰ n (order_by_ram ns) → Memᴰ n ns
unfolding order_by_ram
mem-order_by_ram n [] m = m
mem-order_by_ram n (x ∷ ns) m =
    under_head n x (order_by_ram ns) ns (mem-order_by_ram n ns)
      (mem-insert_by_ram n x (order_by_ram ns) m)

module _ (P : NodeRow → Type 0) where
  insert_by_ram-All :
      (x : NodeRow) (ns : List NodeRow) → All P (insert_by_ram x ns) → P x × All P ns
  unfolding insert_by_ram
  insert_by_ram-All x [] h = h
  insert_by_ram-All x (y ∷ ns) h = elim (Bool-cases (leb y.ram_free x.ram_free)) [
    | inl e ↦ rw e at h
    | inr e ↦
        let (own, rest) = rw e at h in
        let (new, old) = insert_by_ram-All x ns rest in (new, (own, old))
  ]

  order_by_ram-All : (ns : List NodeRow) → All P (order_by_ram ns) → All P ns
  unfolding order_by_ram
  order_by_ram-All [] h = tt
  order_by_ram-All (x ∷ ns) h =
      let (own, rest) = insert_by_ram-All x (order_by_ram ns) h in (own, order_by_ram-All ns rest)

  keep-All :
      (p : NodeRow → Bool) (ns : List NodeRow)
      → All P (keep p ns)
      → All (λ m. (p m ≡ false) ⊎ P m) ns
  keep-All p [] h = tt
  keep-All p (x ∷ ns) h = elim (Bool-cases (p x)) [
    | inl e ↦ let (own, rest) = rw e at h in (inr own, keep-All p ns rest)
    | inr e ↦ (inl e, keep-All p ns (rw e at h))
  ]

  healthy-All :
      (env : Env) (db : Db)
      → All P (get_healthy env db)
      → All (λ m. (is_healthy env m ≡ false) ⊎ P m) db.nodes
  unfolding get_healthy
  healthy-All env db h =
      keep-All (is_healthy env) db.nodes (order_by_ram-All (keep (is_healthy env) db.nodes) h)

mem-get_healthy :
    (env : Env) (db : Db) (n : NodeRow)
    → Memᴰ n (get_healthy env db)
    → Memᴰ n db.nodes × (is_healthy env n ≡ true)
unfolding get_healthy
mem-get_healthy env db n m =
    (mem-keep (is_healthy env) n db.nodes).0 (mem-order_by_ram n (keep (is_healthy env) db.nodes) m)

choose :
    (env : Env) (min : ℕ) (db : Db) (ns : List NodeRow)
    → get_healthy env db ≡ ns
    → ((n : NodeRow) × (pick_node env min db ≡ ok n) × (pick_from min ns none ≡ some n))
      ⊎ ((m : String) × (pick_node env min db ≡ err m) × (pick_from min ns none ≡ none))
unfolding pick_node pick_from
choose env min db [] e = inr ("no healthy nodes available", rw (pick_node, e), refl)
choose env min db (x ∷ ns) e = elim (Option-cases (pick_from min (x ∷ ns) none)) [
  | inl q ↦ inr (too_small min, rw (pick_node, e, q), q)
  | inr (n, q) ↦ inl (n, rw (pick_node, e, q), q)
]

-- `PickNode` returns a node of the database that is healthy and has the memory, such that every
-- other node that is healthy and has it has no more; and it returns an error only if no node of the
-- database is healthy and has the memory.
pub pick_node_lem :
    (env : Env) (min : ℕ) (db : Db)
    → ((n : NodeRow) × (pick_node env min db ≡ ok n)
        × Memᴰ n db.nodes
        × (is_healthy env n ≡ true)
        × (min ≤ n.ram_free)
        × All
            (λ m. (is_healthy env m ≡ false) ⊎ ((m.ram_free < min) ⊎ (m.ram_free ≤ n.ram_free)))
            db.nodes)
      ⊎ ((message : String) × (pick_node env min db ≡ err message)
          × All (λ m. (is_healthy env m ≡ false) ⊎ (m.ram_free < min)) db.nodes)
pick_node_lem env min db = elim (choose env min db (get_healthy env db) refl) [
  | inl (n, e, q) ↦ elim (pick_from-mem min (get_healthy env db) none n q) [
    | inl (there, enough) ↦
        let (known, well) = mem-get_healthy env db n there in
        inl (
          n,
          e,
          known,
          well,
          enough,
          healthy-All (λ m. (m.ram_free < min) ⊎ (m.ram_free ≤ n.ram_free)) env db
              (pick_from-most min (get_healthy env db) none n q).0,
        )
    | inr none_some ↦ cc
  ]
  | inr (message, e, q) ↦ inr (
    message,
    e,
    healthy-All (λ m. m.ram_free < min) env db (pick_from-none min (get_healthy env db) none q).0,
  )
]
