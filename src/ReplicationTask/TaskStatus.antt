-- ===== src/ReplicationTask/TaskStatus.antt =====
-- The constants `replicationTaskStatus…` of hooks.go.
use ack_dms_controller.Base.{String}

abbrev pub deleting : String
deleting = "deleting"

abbrev pub failed : String
failed = "failed"

abbrev pub ready : String
ready = "ready"

abbrev pub running : String
running = "running"

abbrev pub starting : String
starting = "starting"

abbrev pub stopped : String
stopped = "stopped"

abbrev pub stopping : String
stopping = "stopping"
