-- ===== src/Controller/Service/Instances/Addresses.antt =====
-- controller/internal/service/instance.go: what becomes of the addresses of instances.
use rig_stack.Prelude.{
  String, ◌==◌, true, false, some, ◌∷◌, length, All, ◌≡◌, refl, ap, ◌∙◌, arith, eq_refl,
  Option-cases, inl, inr,
}
use rig_stack.Client.Http.{ok}
use rig_stack.Controller.Tables.{VpcRow, InstanceRow, Db, Env, no_trouble}
use rig_stack.Controller.Store.{find_row}
use rig_stack.Controller.Store.Laws.{
  of_vpc, count-delete, find_row-key, find_row-update_rows, delete_rows-update_rows,
}
use rig_stack.Controller.Store.Vpcs
use rig_stack.Controller.Store.Instances.{count_by_vpc}
use rig_stack.Controller.Store.Instances as Rows
use rig_stack.Controller.Address.{address_of, allocate_ip}
use rig_stack.Controller.Instances.{CreateRequest}
use rig_stack.Controller.Service.{System}
use rig_stack.Controller.Service.Instances.{
  Place, find_place, create_vm, create, start, stop, delete,
}
use rig_stack.Controller.Dispatcher.{enqueue}
use rig_stack.Controller.Service.Instances.Found.{find_place_lem}
use rig_stack.Controller.Service.Instances.Placement.{created, placed_row}

pub found_again :
    (env : Env) (id status ip : String) (i : InstanceRow) (db : Db)
    → Rows.get id db ≡ some i
    → Rows.get id (Rows.update_status env id status ip db)
      ≡ some
          (record i { status = status; ip_address = Rows.ip_column env ip; updated_at = env.now })
unfolding Rows.get Rows.update_status
found_again env id status ip i db h =
    find_row-update_rows (λ (r : InstanceRow). r.id) id
      (λ r. record r { status = status; ip_address = Rows.ip_column env ip; updated_at = env.now })
      (λ r. refl) db.instances i h

-- `Start` of an instance whose VPC is there, and `Stop` of any instance, succeed and leave it in
-- transition without the address that it had.
pub power_drops_address :
    (env : Env) (id : String) (i : InstanceRow) (vpc : VpcRow) (sys : System)
    → Rows.get id sys.db ≡ some i
    → Vpcs.get i.vpc_id sys.db ≡ some vpc
    → ((start env id sys).0 ≡ ok tt)
      × (Rows.get id (start env id sys).1.db
          ≡ some (record i { status = "starting"; ip_address = ""; updated_at = env.now }))
      × ((stop env id sys).0 ≡ ok tt)
      × (Rows.get id (stop env id sys).1.db
          ≡ some (record i { status = "stopping"; ip_address = ""; updated_at = env.now }))
unfolding start stop
power_drops_address env id i vpc sys h v =
    rw (start, stop, h, v)
      (
        refl,
        found_again env id "starting" "" i sys.db h,
        refl,
        found_again env id "stopping" "" i sys.db h,
      )

allocated_by_count :
    (env : Env) (old new : Db) (vpc : VpcRow)
    → count_by_vpc vpc.id old ≡ count_by_vpc vpc.id new
    → allocate_ip env old vpc ≡ allocate_ip env new vpc
unfolding allocate_ip
allocated_by_count env old new vpc e = elim (Option-cases (env.parse_cidr vpc.cidr)) [
  | inl none_of ↦ rw (allocate_ip, none_of)
  | inr (net, some_of) ↦ rw (allocate_ip, some_of) (ap (address_of net) e)
]

-- `Delete` of an instance that is there takes its rows away and changes no other.
deleted :
    (env : Env) (x : String) (i : InstanceRow) (sys : System)
    → Rows.get x sys.db ≡ some i
    → ((delete env x sys).0 ≡ ok tt) × ((delete env x sys).1.db ≡ Rows.delete x sys.db)
unfolding delete Rows.delete Rows.update_status
deleted env x i sys h =
    rw (delete, h)
      (
        refl,
        ap (λ is. record sys.db { instances = is })
            (delete_rows-update_rows (λ (r : InstanceRow). r.id) x
              (λ r. record r { status = "terminating"; ip_address = ""; updated_at = env.now })
              (λ r. refl) sys.db.instances),
      )

abbrev with_row : InstanceRow → Db → Db
with_row row db = record db { instances = row ∷ db.instances }

still_there :
    (row : InstanceRow) (x : String) (db : Db)
    → (row.id == x) ≡ false
    → (Rows.get x (with_row row db) ≡ Rows.get x db)
      × (Rows.get row.id (Rows.delete x (with_row row db)) ≡ some row)
unfolding Rows.get Rows.delete find_row
still_there row x db other = (rw other, rw (other, eq_refl row.id))

counted_again :
    (row : InstanceRow) (x : String) (db : Db)
    → (row.id == x) ≡ false
    → length (of_vpc row.vpc_id x db.instances) ≡ 1
    → count_by_vpc row.vpc_id (Rows.delete x (with_row row db)) ≡ count_by_vpc row.vpc_id db
unfolding count_by_vpc
counted_again row x db other once =
    let less = count-delete row.vpc_id x (with_row row db) in
    ground (arith, less, once, other, eq_refl row.vpc_id)

vpc_of_id : (id : String) (db : Db) (vpc : VpcRow) → Vpcs.get id db ≡ some vpc → vpc.id ≡ id
unfolding Vpcs.get
vpc_of_id id db vpc h = find_row-key (λ (v : VpcRow). v.id) id db.vpcs vpc h

-- An instance is created, with no statement that fails and numbers that fit their columns, and then an older one of its VPC, of another id, is deleted. The deletion
-- succeeds, the new instance is still there with its address, and the next instance of the VPC is
-- given that address again.
pub address_reused :
    (env : Env) (fresh password x : String) (req : CreateRequest) (sys : System) (p : Place)
    (i : InstanceRow)
    → All (λ (r : InstanceRow). (r.id == fresh) ≡ false) sys.db.instances
    → find_place env req sys.db ≡ ok p
    → Rows.get x sys.db ≡ some i
    → (fresh == x) ≡ false
    → length (of_vpc req.vpc_id x sys.db.instances) ≡ 1
    → env.trouble ≡ no_trouble
    → Rows.fits req.vcpus req.ram_mb req.disk_gb ≡ true
    → ((delete env x (create env fresh password req sys).1).0 ≡ ok tt)
      × (Rows.get fresh (delete env x (create env fresh password req sys).1).1.db
          ≡ some (placed_row env fresh password req p))
      × (allocate_ip env (delete env x (create env fresh password req sys).1).1.db p.vpc
          ≡ ok p.address)
address_reused env fresh password x req sys p i new h there other once calm fits =
    let row = placed_row env fresh password req p in
    let (v, n, a) = find_place_lem env req sys.db p h in
    let (before, after) = still_there row x sys.db other in
    let (done, left) =
      deleted env x i
        (record {
          db = with_row row sys.db;
          queues = enqueue p.node.id (create_vm fresh password req p) sys.queues;
        })
        (before ∙ there) in
    rw (created env fresh password req sys p new h calm fits, left)
      (
        done,
        after,
        allocated_by_count env (Rows.delete x (with_row row sys.db)) sys.db p.vpc
              (rw (vpc_of_id req.vpc_id sys.db p.vpc v) (counted_again row x sys.db other once))
            ∙ a,
      )
