-- ===== src/Db/Error.antt =====
-- The boxed errors of crates/db/src and of the engine.
use khronos.Prelude.{String}

pub data DbError : Type 0 where
  constraint : DbError  -- rusqlite: a CHECK, UNIQUE, PRIMARY KEY or REFERENCES clause is violated
  no_rows : DbError  -- rusqlite::Error::QueryReturnedNoRows
  json : DbError  -- serde_json::Error
  invalid_uuid : DbError
  unknown_state : String → DbError
  unknown_policy : String → DbError
  bad_datetime : String → DbError
  message : String → DbError
