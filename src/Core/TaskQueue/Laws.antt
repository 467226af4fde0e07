-- ===== src/Core/TaskQueue/Laws.antt =====
-- The task queue as a map from worker ids.
use khronos.Prelude.{String, none, some, List, ◌≡◌, ◌≢◌, arith, eq_iff, eq_refl}
use khronos.Values.{DateTime}
use khronos.Table.{find, find-delete}
use khronos.Table.Keys.{find-delete_ne}
use khronos.Core.TaskQueue.{
  RegisteredWorker, TaskQueue, has_worker, register_worker, unregister_worker, get_worker,
}

-- A worker that is registered is found under its id as it was registered last, and is not found after it is
-- unregistered; either leaves what is found under another id as it was.
get_worker-register_worker :
    (now : DateTime) (id j : String) (activity_types : List String) (q : TaskQueue)
    → j ≢ id
    → (get_worker id (register_worker now id activity_types q)
        ≡ some (record { worker_id = id; activity_types = activity_types; last_heartbeat = now }))
      × (get_worker id (unregister_worker id q).1 ≡ none)
      × (get_worker j (register_worker now id activity_types q) ≡ get_worker j q)
      × (get_worker j (unregister_worker id q).1 ≡ get_worker j q)
unfolding get_worker register_worker unregister_worker find
get_worker-register_worker now id j activity_types q ne = (
  rw (eq_refl id),
  find-delete (has_worker id) q.workers,
  ground (
    arith,
    eq_iff id j,
    find-delete_ne {Row = RegisteredWorker} (λ w. w.worker_id) j id ne q.workers,
  ),
  find-delete_ne {Row = RegisteredWorker} (λ w. w.worker_id) j id ne q.workers,
)
