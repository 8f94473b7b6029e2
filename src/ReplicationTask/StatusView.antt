-- ===== src/ReplicationTask/StatusView.antt =====
-- The statuses of a task that the decisions of hooks.go tell apart.
use ack_dms_controller.Base.{String, false, inl, inr, str_eq-cases, subst, sym, ◌==◌, ◌≡◌}

-- The statuses that the decisions tell apart.
pub data View : String → Type 0 where
  failed : View "failed"
  ready : View "ready"
  running : View "running"
  stopped : View "stopped"
  starting : View "starting"
  stopping : View "stopping"
  other :
      (s : String)
      → (s == "failed") ≡ false
      → (s == "ready") ≡ false
      → (s == "running") ≡ false
      → (s == "stopped") ≡ false
      → (s == "starting") ≡ false
      → (s == "stopping") ≡ false
      → View s

view_if : (s c : String) → View c → ((s == c) ≡ false → View s) → View s
view_if s c v rest = elim (str_eq-cases s c) [
  | inl (e, _) ↦ subst View (sym e) v
  | inr (_, ne) ↦ rest ne
]

pub view : (s : String) → View s
view s = view_if s "failed" failed λ n1. view_if s "ready" ready λ n2.
    view_if s "running" running λ n3. view_if s "stopped" stopped λ n4.
      view_if s "starting" starting
        λ n5. view_if s "stopping" stopping λ n6. other s n1 n2 n3 n4 n5 n6
