-- ===== src/Store/Durability.antt =====
-- internal/comrad/store.go and store_backend.go: an update that returns no error is there after a restart.
use comrad.Prelude.{refl, ◌≡◌, ◌≢◌, Option, none, some, arith}
use comrad.Types.{Time, Error}
use comrad.Prelude.Dict.{map_values}
use comrad.Store.JsonFile.{JsonCodec, json_file_backend}
use comrad.Store.{
  persisted, Database, Change, StoreBackend, Store, update, open_store, current_schema_version,
  migrate, saved_unless_failed, open_loaded,
}

module _ (b : StoreBackend) where
  migrate_current :
      (now : Time) (db : Database) (c : b.Contents)
      → db.schema_version ≡ current_schema_version
      → migrate b now db c ≡ (some (record { db = db; contents = c }), none)
  unfolding migrate
  migrate_current now db c v = rw v

  -- The store of a process that finds a database that was saved.
  abbrev kept : Database → b.Contents → Store b
  kept db c = record { db = persisted db; contents = c }

  open_store-saved_unless_failed :
      (now : Time) (c : b.Contents) (r : Database × Option Error)
      → (saved_unless_failed b c r).1 ≡ none
      → r.0.schema_version ≡ current_schema_version
      → ((saved_unless_failed b c r).0.db ≡ r.0)
        × (open_store b now (saved_unless_failed b c r).0.contents
            ≡ (some (kept r.0 (saved_unless_failed b c r).0.contents), none))
  unfolding saved_unless_failed open_store open_loaded persisted
  open_store-saved_unless_failed now c (db, some x) e v = cc
  open_store-saved_unless_failed now c (db, none) e v =
      (refl, rw (b.load-save c db e) (migrate_current now (persisted db) (b.save c db).0 v))

  update-kept :
      (f : Change) (s : Store b) (now : Time)
      → (update b f s).1 ≡ none
      → (f s.db).0.schema_version ≡ current_schema_version
      → ((update b f s).0.db ≡ (f s.db).0)
        × (open_store b now (update b f s).0.contents
            ≡ (some (kept (f s.db).0 (update b f s).0.contents), none))
  unfolding update
  update-kept f s now e v = open_store-saved_unless_failed now s.contents (f s.db) e v

  -- An update whose callback fails is not saved.
  pub update_failed :
      (f : Change) (s : Store b) → (f s.db).1 ≢ none → (update b f s).0.contents ≡ s.contents
  unfolding update
  update_failed f s e = ground arith

-- The store keeps its database in a JSON file, in a text that is not empty and from which decoding gives
-- all but the sessions of the nodes. An update reports no error, neither of its callback nor of the
-- disk, and leaves a database of the current schema version. Then it is what the callback returned, and
-- a process that opens the file afterwards holds the same, less the sessions of the nodes.
pub open_store-update :
    (json : JsonCodec) (f : Change) (s : Store (json_file_backend json)) (now : Time)
    → (update (json_file_backend json) f s).1 ≡ none
    → (f s.db).0.schema_version ≡ current_schema_version
    → let after = (update (json_file_backend json) f s).0 in
      let reopened : Store (json_file_backend json) = record {
        db = record (f s.db).0 {
          nodes = map_values (λ n. record n { connected_session = "" }) (f s.db).0.nodes;
        };
        contents = after.contents;
      } in
      (after.db ≡ (f s.db).0)
      × (open_store (json_file_backend json) now after.contents ≡ (some reopened, none))
unfolding persisted
open_store-update json f s now e v = update-kept (json_file_backend json) f s now e v
