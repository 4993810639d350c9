-- ===== src/Store/JsonFile.antt =====
-- internal/comrad/store_backend.go: the backend of one JSON file. The texts of encoding/json are outside,
-- and so is the order in which it writes a map, which Go leaves open.
use comrad.Prelude.{
  ◌≡◌, refl, Bool, false, Option, none, some, arith, if◌then◌else◌, Bool-cases, inl, inr,
}
use comrad.Types.{Error, backend_failed}
use comrad.Store.{Database, StoreBackend, persisted}

-- What is relied on of encoding/json and the files that it fills.
pub record JsonCodec : Type 1 where
  pub Text : Type 0
  pub is_empty : Text → Bool
  pub encode : Database → Text
  pub decode : Text → Option Database
  -- An encoded database is not empty, and decoding it gives what outlives the process.
  pub filled : (db : Database) → is_empty (encode db) ≡ false
  pub decode-encode : (db : Database) → decode (encode db) ≡ some (persisted db)

module _ (json : JsonCodec) where
  -- The file, if there is one, and whether the disk lets it be written.
  pub record DiskFile : Type 0 where
    pub content : Option json.Text
    pub writable : Bool

  loaded : Option Database → Option Database × Option Error
  loaded none = (none, some (backend_failed "read database"))
  loaded (some db) = (some db, none)

  loaded_text : Option json.Text → Option Database × Option Error
  unfolding loaded
  loaded_text none = (none, none)
  loaded_text (some text) = if json.is_empty text then (none, none) else loaded (json.decode text)

  -- `Load`, of a file that can be read.
  unfoldable pub load_file : DiskFile → Option Database × Option Error
  unfolding loaded_text
  load_file file = loaded_text file.content

  -- `Save`: a new file takes the place of the old one, or the old one stays.
  unfoldable pub save_file : DiskFile → Database → DiskFile × Option Error
  save_file file db =
      if file.writable
      then (record file { content = some (json.encode db) }, none)
      else (file, some (backend_failed "write"))

  pub load_file-save_file :
      (file : DiskFile) (db : Database)
      → (save_file file db).1 ≡ none
      → load_file (save_file file db).0 ≡ (some (persisted db), none)
  unfolding load_file save_file loaded loaded_text
  load_file-save_file file db ok = elim (Bool-cases file.writable) [
    | inr e ↦ absurd (ground (arith, e, ok))
    | inl e ↦ rw (e, json.filled db, json.decode-encode db) refl
  ]

  abbrev pub json_file_backend : StoreBackend
  json_file_backend = record {
    Contents = DiskFile;
    load = load_file;
    save = save_file;
    load-save = load_file-save_file;
  }
