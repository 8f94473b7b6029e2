-- ===== src/Tests/FactoryTests.antt =====
-- The theorems on the managers' factory at concrete inputs.
use ack_dms_controller.Base.{if◌then◌else◌, refl, some, ℕ, ◌≡◌, ◌≢◌}
use ack_dms_controller.Base.Dict.{lookup}
use ack_dms_controller.Base.Segments.{is_segment}
use ack_dms_controller.Integer.{ltb}
use ack_dms_controller.ManagerFactory.{
  CachedManager, Factory, Reach, Request, System, answered, begin, calling, later, look_up_hit,
  look_up_miss, make_and_put, make_manager, missed, moved, new_factory, rm_id, step,
}
use ack_dms_controller.ManagerFactory.Callers.{Inv, Reach-Inv}
use ack_dms_controller.ManagerFactory.Keys.{IsPlain, lookup-made}
use ack_dms_controller.ManagerFactory.Runs.{Reach-two_managers}

-- All callers ask for the managers of one account and region, with one of two roles.
abbrev requests : ℕ → Request
requests i = record {
  id = "111122223333";
  region = "eu-west-1";
  role_arn = if ltb i 2 then "" else "arn:role";
  partition = "aws";
}

requests-IsPlain : (i : ℕ) → IsPlain (requests i)
unfolding is_segment
requests-IsPlain i = (refl, refl)

-- One caller is answered, and the next finds its manager.
abbrev first_made : CachedManager × Factory
first_made = make_manager (requests 0) new_factory

abbrev two_answered : System
two_answered = record {
  factory = first_made.1;
  pc =
      moved 1 (answered first_made.0)
        (moved 0 (answered first_made.0) (moved 0 missed (λ i. calling)));
}

two_answered-Reach : Reach requests two_answered
unfolding lookup
two_answered-Reach =
    later
      (later (later begin (step 0 new_factory missed (look_up_miss refl)))
        (step 0 first_made.1 (answered first_made.0) make_and_put))
      (step 1 first_made.1 (answered first_made.0)
        (look_up_hit first_made.0 (lookup-made (requests 0) new_factory)))

Reach-Inv_example : Inv requests requests-IsPlain (λ i j. refl) two_answered
Reach-Inv_example = Reach-Inv requests requests-IsPlain (λ i j. refl) two_answered-Reach

Reach-two_managers_example :
    (s : System) × (a b : CachedManager) × Reach requests s
    × (s.pc 0 ≡ answered a)
    × (s.pc 1 ≡ answered b)
    × (a.serial ≢ b.serial)
    × (lookup (rm_id (requests 0)) s.factory.rm_cache ≡ some b)
Reach-two_managers_example = Reach-two_managers requests refl
