-- ===== src/Session/Machine/Releasing.antt =====
-- `cleanup` and `releaseResources` of EngineSession.
use bettter_nest_mq.Prelude.{false, List, [], ◌∷◌, ◌++◌, reverse, Failure, Result, ok, err}
use bettter_nest_mq.Session.{Session, Resource, Cleaning, not_called, disposing, releasing, cleaned}

-- this.cleaning ??= this.releaseResources()
abbrev pub call_cleanup : Cleaning → Cleaning
call_cleanup not_called = disposing
call_cleanup c = c

-- What an awaited call of the cleanup adds to the failures.
abbrev pub failure_of : Result (Unit {0}) → List Failure
failure_of (ok _) = []
failure_of (err cause) = cause ∷ []

-- The loop over the acquired resources.
unfoldable pub next_release : List Resource → List Failure → Session → Session
next_release [] failures s = record s { acquired = []; cleaning = cleaned failures }
next_release (r ∷ rest) failures s = record s { cleaning = releasing r rest failures }

-- A failed disposal takes the place of the diagnostics.
abbrev pub disposal_failures : Result (Unit {0}) → List Failure → List Failure
disposal_failures (ok _) diagnostics = diagnostics
disposal_failures (err cause) diagnostics = cause ∷ []

-- The finally block after the disposal.
abbrev pub cleared : Session → Session
cleared s = record s {
  has_runtime = false;
  ready_jobs = [];
  ready_events = [];
  ready_outboxes = [];
  ready_schedules = [];
  ready_flows = [];
  flow_readers = [];
  running_scheduler = false;
  running_publisher = false;
  running_workers = [];
  snapshots = [];
  diagnostics = [];
}

unfoldable pub on_cleanup_reply : Cleaning → Result (Unit {0}) → Session → Session
on_cleanup_reply disposing reply s =
    next_release (reverse s.acquired) (disposal_failures reply s.diagnostics) (cleared s)
on_cleanup_reply (releasing r rest failures) reply s =
    next_release rest (failures ++ failure_of reply) (record s { released = s.released ++ r ∷ [] })
on_cleanup_reply _ reply s = s
