-- ===== src/ManagerFactory/Runs.antt =====
-- ManagerFor of one caller, and of two callers at the same time.
use ack_dms_controller.Base.{
  Option-cases, arith, inl, inr, none, refl, some, subst, sym, ℕ, ◌≡◌, ◌≢◌,
}
use ack_dms_controller.Base.Dict.{lookup}
use ack_dms_controller.ManagerFactory.{
  CachedManager, Factory, Reach, Request, System, answered, begin, later, look_up_miss,
  make_and_put, make_manager, manager_for, missed, new_factory, rm_id, step,
}
use ack_dms_controller.ManagerFactory.Keys.{lookup-made}

manager_for-first :
    (q : Request) (f : Factory)
    → lookup (rm_id q) f.rm_cache ≡ none
    → manager_for q f ≡ make_manager q f
unfolding manager_for
manager_for-first q f e = rw (manager_for, e) refl

manager_for-found :
    (q : Request) (f : Factory) (rm : CachedManager)
    → lookup (rm_id q) f.rm_cache ≡ some rm
    → manager_for q f ≡ (rm, f)
unfolding manager_for
manager_for-found q f rm e = rw (manager_for, e) refl

-- Once ManagerFor has answered a request, it answers it with the same manager and makes no other.
pub manager_for-again :
    (q : Request) (f : Factory) → manager_for q (manager_for q f).1 ≡ manager_for q f
manager_for-again q f = elim (Option-cases (lookup (rm_id q) f.rm_cache)) [
  | inl e ↦ rw (manager_for-first q f e) (manager_for-found q _ _ (lookup-made q f))
  | inr (rm, e) ↦ rw (manager_for-found q f rm e) (manager_for-found q f rm e)
]

module _ (requests : ℕ → Request) (same_key : rm_id (requests 0) ≡ rm_id (requests 1)) where
  -- Two callers of ManagerFor whose requests have the same key can both be answered, with two
  -- different managers, of which the cache keeps the second only.
  pub Reach-two_managers :
      (s : System) × (a b : CachedManager) × Reach requests s
      × (s.pc 0 ≡ answered a)
      × (s.pc 1 ≡ answered b)
      × (a.serial ≢ b.serial)
      × (lookup (rm_id (requests 0)) s.factory.rm_cache ≡ some b)
  unfolding make_manager lookup
  Reach-two_managers =
      let first = make_manager (requests 0) new_factory in
      let second = make_manager (requests 1) first.1 in
      let both_missed =
        later (later begin (step 0 new_factory missed (look_up_miss refl)))
          (step 1 new_factory missed (look_up_miss refl)) in
      (
        _,
        first.0,
        second.0,
        later (later both_missed (step 0 first.1 (answered first.0) make_and_put))
            (step 1 second.1 (answered second.0) make_and_put),
        refl,
        refl,
        λ e. omega (arith, e),
        subst (λ k. lookup k second.1.rm_cache ≡ some second.0) (sym same_key)
            (lookup-made (requests 1) first.1),
      )
