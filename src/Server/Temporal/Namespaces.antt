-- ===== src/Server/Temporal/Namespaces.antt =====
-- register_namespace and describe_namespace
use khronos.Prelude.{ℕ, String, Bool, true, List, [], ◌∷◌, ◌==◌, ◌&&◌, eqb, contains, if◌then◌else◌}
use Prim.Native.String.{◌++◌}
use khronos.Prelude.Result.{Result, ok, err}
use khronos.Prelude.Exec.{Exec, pure, fail, ◌>>=◌}
use khronos.Table.{count, append_row, exists}
use khronos.Db.Error.{DbError, constraint, message}
use khronos.Db.Schema.{NamespaceRow, Db}
use khronos.Server.State.{Server, Status, internal, not_found, db_write, db_read}

abbrev pub has_namespace : String → NamespaceRow → Bool
has_namespace name r = r.name == name

-- the columns of the table namespaces
abbrev pub namespace_columns : List String
namespace_columns = "name" ∷ "created_at" ∷ []

abbrev pub all_in : List String → List String → Bool
all_in columns [] = true
all_in columns (c ∷ cs) = contains columns c && all_in columns cs

-- INSERT with the columns that it names: SQLite refuses one that the table has not
unfoldable pub insert_namespace : List String → String → String → Db → Result Db DbError
insert_namespace columns name created_at db =
    if all_in namespace_columns columns
    then if exists (has_namespace name) db.namespaces
      then err constraint
      else ok (record db {
        namespaces = append_row (record { name = name; created_at = created_at }) db.namespaces;
      })
    else err (message "no such column")

abbrev pub count_of : String → Db → ℕ
count_of name db = count (has_namespace name) db.namespaces

-- `seconds` is the text of `strftime('%s', 'now')`
unfoldable pub register_namespace : String → String → Exec Server Status (Unit {0})
unfolding insert_namespace
register_namespace seconds namespace = do
  n ← db_read (internal "") (λ db. ok (count_of namespace db))
  if eqb n 0
      then db_write (internal "Failed to create namespace")
          (insert_namespace ("name" ∷ "created_at" ∷ "updated_at" ∷ []) namespace seconds)
      else pure tt

-- the name of the namespace that the response describes
unfoldable pub describe_namespace : String → Exec Server Status String
describe_namespace namespace = do
  n ← db_read (internal "") (λ db. ok (count_of namespace db))
  if eqb n 0 then fail (not_found ("Namespace '" ++ namespace ++ "' not found")) else pure namespace
