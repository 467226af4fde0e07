-- ===== src/Core/TaskQueue.antt =====
-- crates/core/src/task_queue.rs. The map of workers is the list of its entries, in any order.
pub mod Laws
use khronos.Prelude.{
  ℕ, String, Bool, Option, none, some, List, [], ◌∷◌, ◌==◌, contains, length, if◌then◌else◌,
  is_some,
}
use khronos.Values.{DateTime}
use khronos.Table.{select, find, exists, update, delete}

pub record RegisteredWorker : Type 0 where
  pub worker_id : String
  pub activity_types : List String
  pub last_heartbeat : DateTime

pub record TaskQueue : Type 0 where
  pub name : String
  pub workers : List RegisteredWorker

abbrev pub has_worker : String → RegisteredWorker → Bool
has_worker id w = w.worker_id == id

abbrev pub can_handle : String → RegisteredWorker → Bool
can_handle activity_type w = contains w.activity_types activity_type

abbrev pub new : String → TaskQueue
new name = record { name = name; workers = [] }

-- `HashMap::insert` replaces the entry of the key
unfoldable pub register_worker : DateTime → String → List String → TaskQueue → TaskQueue
register_worker now worker_id activity_types q = record q {
  workers =
      record { worker_id = worker_id; activity_types = activity_types; last_heartbeat = now }
      ∷ delete (has_worker worker_id) q.workers;
}

unfoldable pub unregister_worker : String → TaskQueue → Option RegisteredWorker × TaskQueue
unregister_worker worker_id q = (
  find (has_worker worker_id) q.workers,
  record q { workers = delete (has_worker worker_id) q.workers },
)

abbrev pub heard_at : DateTime → RegisteredWorker → RegisteredWorker
heard_at now w = record w { last_heartbeat = now }

unfoldable pub update_heartbeat : DateTime → String → TaskQueue → Bool × TaskQueue
update_heartbeat now worker_id q = (
  exists (has_worker worker_id) q.workers,
  record q { workers = update (has_worker worker_id) (heard_at now) q.workers },
)

unfoldable pub has_handler : String → TaskQueue → Bool
has_handler activity_type q = exists (can_handle activity_type) q.workers

unfoldable pub get_handlers : String → TaskQueue → List RegisteredWorker
get_handlers activity_type q = select (can_handle activity_type) q.workers

unfoldable pub get_worker : String → TaskQueue → Option RegisteredWorker
get_worker worker_id q = find (has_worker worker_id) q.workers

unfoldable pub worker_count : TaskQueue → ℕ
worker_count q = length q.workers
