-- ===== src/Server/Temporal/Registration.antt =====
-- What a registration of a namespace does.
use khronos.Prelude.{String, not, ◌≡◌, arith, eqb, Bool-cases, inl, inr, if◌then◌else◌}
use khronos.Prelude.Result.{ok, err}
use khronos.Table.{exists}
use khronos.Table.Quantifiers.{count-exists}
use khronos.Db.Error.{message}
use khronos.Db.Schema.{Db}
use khronos.Server.State.{Server, internal}
use khronos.Server.Temporal.Namespaces.{
  has_namespace, insert_namespace, register_namespace, count_of,
}

counted :
    (name : String) (db : Db)
    → eqb (count_of name db) 0 ≡ not (exists (has_namespace name) db.namespaces)
counted name db = ground (arith, count-exists (has_namespace name) db.namespaces)

-- A registration never registers a namespace: it succeeds where the namespace is there already, and else it is
-- an error, since it inserts into a column that the table has not; the server stays as it was.
pub register_namespace_lem :
    (seconds name : String) (s : Server)
    → register_namespace seconds name s ≡ (
      if exists (has_namespace name) s.db.namespaces
          then ok tt
          else err (internal "Failed to create namespace" (message "no such column")),
      s,
    )
unfolding register_namespace insert_namespace
register_namespace_lem seconds name s =
    elim (Bool-cases (exists (has_namespace name) s.db.namespaces)) [
      | inl e ↦ rw (counted name s.db, e)
      | inr e ↦ rw (counted name s.db, e)
    ]
