-- ===== src/ManagerFactory.antt =====
-- manager_factory.go, one text in every package below pkg/resource (cited here from
-- pkg/resource/replication_task): the managers by account, region and role. A manager that is made
-- gets a serial number, which tells it from every other one as its address does.
pub mod Keys
pub mod Runs
pub mod Callers
use ack_dms_controller.Base.{String, [], concat, if◌then◌else◌, none, some, ℕ, ◌+◌, ◌∷◌, ◌≡◌}
use ack_dms_controller.Base.Dict.{Dict, insert, lookup}
use ack_dms_controller.Integer.{same_number}
use ack_dms_controller.Status.{ResourceManager}

-- The part of a manager that newResourceManager takes from its arguments.
pub record CachedManager : Type 0 where
  pub serial : ℕ
  pub manager : ResourceManager

-- The factory: its cache, and how many managers it has made.
pub record Factory : Type 0 where
  pub rm_cache : Dict CachedManager
  pub made : ℕ

-- The arguments of ManagerFor that tell managers apart; `partition` is `cfg.Partition`.
pub record Request : Type 0 where
  pub id : String
  pub region : String
  pub role_arn : String
  pub partition : String

unfoldable pub rm_id : Request → String
rm_id q = concat (q.id ∷ "/" ∷ q.region ∷ "/" ∷ q.role_arn ∷ [])

unfoldable pub new_resource_manager : Request → ResourceManager
new_resource_manager q = record {
  aws_account_id = q.id;
  aws_region = q.region;
  aws_partition = q.partition;
}

-- The part of ManagerFor under the write lock: a manager, and the factory that holds it.
unfoldable pub make_manager : Request → Factory → CachedManager × Factory
unfolding rm_id new_resource_manager
make_manager q f =
    let rm : CachedManager = record { serial = f.made; manager = new_resource_manager q } in
    (rm, record { rm_cache = insert (rm_id q) rm f.rm_cache; made = f.made + 1 })

-- ManagerFor where nobody else calls it meanwhile.
unfoldable pub manager_for : Request → Factory → CachedManager × Factory
unfolding make_manager
manager_for q f = elim (lookup (rm_id q) f.rm_cache) [ some rm ↦ (rm, f) | none ↦ make_manager q f ]

-- `newResourceManagerFactory()`
abbrev pub new_factory : Factory
new_factory = record { rm_cache = []; made = 0 }

-- Where a caller of ManagerFor stands: before the read lock, between the two locks, or back.
pub data Pc : Type 0 where
  calling : Pc
  missed : Pc
  answered : CachedManager → Pc

-- What a caller does under one of the two locks.
pub data Move (q : Request) (f : Factory) : Pc → Factory → Pc → Type 0 where
  look_up_hit :
      (rm : CachedManager)
      → lookup (rm_id q) f.rm_cache ≡ some rm
      → Move q f calling f (answered rm)
  look_up_miss : lookup (rm_id q) f.rm_cache ≡ none → Move q f calling f missed
  make_and_put : Move q f missed (make_manager q f).1 (answered (make_manager q f).0)

-- A factory and its callers, each with its request.
pub record System : Type 0 where
  pub factory : Factory
  pub pc : ℕ → Pc

-- The caller `i` moves, and no other.
abbrev pub moved : ℕ → Pc → (ℕ → Pc) → ℕ → Pc
moved i p pc j = if same_number i j then p else pc j

module _ (requests : ℕ → Request) where
  pub data Step (s : System) : System → Type 0 where
    step :
        (i : ℕ) (f : Factory) (p : Pc)
        → Move (requests i) s.factory (s.pc i) f p
        → Step s (record { factory = f; pc = moved i p s.pc })

  abbrev pub all_calling : System
  all_calling = record { factory = new_factory; pc = λ i. calling }

  -- The systems that some order of the callers' moves reaches.
  pub data Reach : System → Type 0 where
    begin : Reach all_calling
    later : {s t : System} → Reach s → Step s t → Reach t
