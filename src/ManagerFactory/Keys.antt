-- ===== src/ManagerFactory/Keys.antt =====
-- When two requests have the same key in the cache of the managers.
use ack_dms_controller.Base.{String, eq_iff, if◌then◌else◌, refl, some, true, ◌==◌, ◌≡◌}
use ack_dms_controller.Base.Dict.{lookup, lookup-insert}
use ack_dms_controller.Base.Segments.{concat-agree, is_segment}
use ack_dms_controller.ManagerFactory.{Factory, Request, make_manager, new_resource_manager, rm_id}

-- The account's id and the name of the region have no slash.
abbrev pub IsPlain : Request → Type 0
IsPlain q = (is_segment q.id ≡ true) × (is_segment q.region ≡ true)

-- Two requests of one controller with the same key ask for the same manager.
pub new_resource_manager-agree :
    (p q : Request)
    → IsPlain p
    → IsPlain q
    → p.partition ≡ q.partition
    → rm_id p ≡ rm_id q
    → new_resource_manager p ≡ new_resource_manager q
unfolding rm_id new_resource_manager
new_resource_manager-agree p q hp hq same e =
    let (same_id, same_region, same_role) = concat-agree _ _ _ _ _ _ hp.0 hq.0 hp.1 hq.1 e in
    cc (same, same_id, same_region)

-- What a look-up finds after a manager is made.
pub lookup-make_manager :
    (q : Request) (f : Factory) (k : String)
    → lookup k (make_manager q f).1.rm_cache
      ≡ (if rm_id q == k then some (make_manager q f).0 else lookup k f.rm_cache)
unfolding make_manager
lookup-make_manager q f k = lookup-insert (rm_id q) k _ f.rm_cache

pub lookup-made :
    (q : Request) (f : Factory)
    → lookup (rm_id q) (make_manager q f).1.rm_cache ≡ some (make_manager q f).0
lookup-made q f = rw (lookup-make_manager q f (rm_id q), (eq_iff (rm_id q) (rm_id q)).1 refl) refl
