-- ===== src/Controller/Service/Vpcs/Creation.antt =====
-- controller/internal/service/vpc.go: what the creation of a VPC leaves behind.
use rig_stack.Prelude.{
  String, ◌<>◌, none, some, ◌∷◌, ◌≡◌, ◌⊎◌, inl, inr, refl, eq_refl, Option-cases,
}
use rig_stack.Client.Http.{ok, err}
use rig_stack.Controller.Tables.{NodeRow, VpcRow, IpNet, Db, Env}
use rig_stack.Controller.Store.{find_row}
use rig_stack.Controller.Store.Vpcs
use rig_stack.Controller.Dispatcher.{Command, Queues, enqueue}
use rig_stack.Controller.Scheduler.{pick_node}
use rig_stack.Controller.Service.{System}
use rig_stack.Controller.Service.Vpcs.{payload, notify, get_vpc, create}
use rig_stack.Controller.Service.Vpcs.Removal.{notified}
use rig_stack.Controller.Service.Instances.Found.{Result-cases}

abbrev pub creation : String → String → Command
creation fresh cidr = record { kind = "create_vpc"; payload = payload fresh cidr }

-- The row of a new VPC, with the range as the column keeps it.
abbrev pub vpc_row : Env → String → String → String → VpcRow
vpc_row env fresh name kept = record {
  id = fresh;
  name = name;
  cidr = kept;
  status = "active";
  created_at = env.now;
}

abbrev pub with_vpc : VpcRow → Db → Db
with_vpc row db = record db { vpcs = row ∷ db.vpcs }

not_notified :
    (env : Env) (cmd : Command) (db : Db) (queues : Queues) (m : String)
    → pick_node env 0 db ≡ err m
    → notify env cmd db queues ≡ queues
unfolding notify
not_notified env cmd db queues m none_of = rw (notify, none_of)

created_row :
    (env : Env) (fresh name cidr kept : String) (net : IpNet) (sys : System)
    → env.parse_cidr cidr ≡ some net
    → env.cidr_column cidr ≡ some kept
    → create env fresh name cidr sys ≡ (
      ok (vpc_row env fresh name kept),
      record {
        db = with_vpc (vpc_row env fresh name kept) sys.db;
        queues =
            notify env
              (creation fresh cidr)
              (with_vpc (vpc_row env fresh name kept) sys.db)
              sys.queues;
      },
    )
unfolding create Vpcs.create Vpcs.get find_row
created_row env fresh name cidr kept net sys parsed column =
    rw (create, parsed, Vpcs.create, column, get_vpc, eq_refl fresh)

-- `Create` of a VPC, on every branch. A range that does not parse, or that the column does not take,
-- is an error that changes nothing. Otherwise the caller gets the new row, which is active and the
-- one change of the database; if a node can be chosen, the command is put in for that node, and if
-- none can, no node is ever told, and the caller gets the row all the same.
pub create_vpc_whole :
    (env : Env) (fresh name cidr : String) (sys : System)
    → ((m : String) × (create env fresh name cidr sys ≡ (err m, sys))
        × ((env.parse_cidr cidr ≡ none) ⊎ (env.cidr_column cidr ≡ none)))
      ⊎ ((kept : String) × (env.cidr_column cidr ≡ some kept)
          × ((create env fresh name cidr sys).0 ≡ ok (vpc_row env fresh name kept))
          × ((create env fresh name cidr sys).1.db ≡ with_vpc (vpc_row env fresh name kept) sys.db)
          × (((node : NodeRow) × (pick_node env 0 (with_vpc (vpc_row env fresh name kept) sys.db)
                  ≡ ok node)
                × ((create env fresh name cidr sys).1.queues
                    ≡ enqueue node.id (creation fresh cidr) sys.queues))
              ⊎ ((m : String) × (pick_node env 0 (with_vpc (vpc_row env fresh name kept) sys.db)
                    ≡ err m)
                  × ((create env fresh name cidr sys).1.queues ≡ sys.queues))))
unfolding create Vpcs.create
create_vpc_whole env fresh name cidr sys = elim (Option-cases (env.parse_cidr cidr)) [
  | inl e ↦ inl ("invalid CIDR \"" <> cidr <> "\": " <> env.bad_cidr, rw (create, e), inl e)
  | inr (net, e) ↦ elim (Option-cases (env.cidr_column cidr)) [
    | inl c ↦ inl ("create vpc: " <> env.refused, rw (create, e, Vpcs.create, c), inr c)
    | inr (kept, c) ↦
        let row = vpc_row env fresh name kept in
        let whole = created_row env fresh name cidr kept net sys e c in
        inr (
          kept,
          c,
          rw whole refl,
          rw whole refl,
          elim (Result-cases (pick_node env 0 (with_vpc row sys.db))) [
            | inl (m, n) ↦ inr (
              m,
              n,
              rw whole
                  (not_notified env (creation fresh cidr) (with_vpc row sys.db) sys.queues m n),
            )
            | inr (node, n) ↦ inl (
              node,
              n,
              rw whole (notified env (creation fresh cidr) (with_vpc row sys.db) sys.queues node n),
            )
          ],
        )
  ]
]
