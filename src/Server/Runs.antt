-- ===== src/Server/Runs.antt =====
-- Requests to the empty store.
use flume.Common.{◌≡◌, refl, arith, true, [], ◌∷◌, if◌then◌else◌}
use flume.Bytes.{Bytes, bytes_equal}
use flume.Wal.{Disk, append, record_put, record_delete}
use flume.Engine.{Weather, default_config}
use flume.Engine.PutGet.{Logged}
use flume.Engine.Steps.Reach.{Reachable, latest, empty_store}
use flume.Server.{handle_put, handle_get, handle_delete}
use flume.Common.{none}
use flume.Engine.Steps.Scans.{value_of}
use flume.Server.Keys.{served, Reachable-served}
use flume.Common.{some}

abbrev name : Bytes
name = 110 ∷ []

abbrev content : Bytes
content = 1 ∷ 2 ∷ []

abbrev calm : Weather
calm = record { disk = Disk.synced; log_opens = true }

put-Logged : Logged calm name content record_put (empty_store default_config)
unfolding append
put-Logged = refl

delete-Logged : Logged calm name [] record_delete (empty_store default_config)
unfolding append
delete-Logged = refl

Reachable-served_example :
    (handle_get name (empty_store default_config) ≡ served (value_of (latest name [])))
    × (handle_get name (handle_put calm name (some content) (empty_store default_config)).1
        ≡ served (if bytes_equal name name then some content else value_of (latest name [])))
    × (handle_get name (handle_delete calm name (empty_store default_config)).1
        ≡ served (if bytes_equal name name then none else value_of (latest name [])))
Reachable-served_example =
    Reachable-served Reachable.start (omega arith) calm name content refl (omega arith) put-Logged
      delete-Logged (omega arith) name refl
