-- ===== src/Training/Status.antt =====
-- pluginmanager/training_plugin.go, the status of a collection and its file.
use mod_sec_intl_wace_lib.Base.{
  List, Option, Result, String, [], err, external, if◌then◌else◌, invalid_collection_status, none,
  ok, some, ℕ, ℤ, ◌=ₛ◌, ◌∷◌,
}

-- `CollectionStatus`; only these four values are ever made.
pub data CollectionStatus : Type 0 where
  collecting ready done failed : CollectionStatus

-- `String`
unfoldable pub status_string : CollectionStatus → String
status_string collecting = "collecting"
status_string ready = "ready"
status_string done = "done"
status_string failed = "error"

-- `StringToCollectionStatus`
unfoldable pub string_to_status : String → Result CollectionStatus
string_to_status s =
    if s =ₛ "collecting"
    then ok collecting
    else if s =ₛ "ready"
    then ok ready
    else if s =ₛ "done"
    then ok done
    else if s =ₛ "error"
    then ok failed
    else err (invalid_collection_status s)

-- `pluginKind` with its `String`, which is also its `logValue`.
pub data PluginKind : Type 0 where
  model_kind decision_kind : PluginKind

unfoldable pub kind_string : PluginKind → String
kind_string model_kind = "model"
kind_string decision_kind = "decision"

-- A point in time.
abbrev pub Time : Type 0
Time = ℕ

pub record TrainingStatus : Type 0 where
  pub collected_samples : ℕ
  pub min_samples : ℤ
  pub max_samples : ℤ
  pub status : CollectionStatus
  pub error_msg : String
  pub created_at : Time
  pub updated_at : Time

-- What `os.ReadFile` of the status file gives.
pub data FileRead : Type 0 where
  absent : FileRead
  unreadable : String → FileRead
  contents : List ℕ → FileRead

-- `loadStatus`. `read` is the file system and `parse` is the decoding of the JSON text.
unfoldable pub load_status :
    (String → FileRead) → (List ℕ → Result TrainingStatus) → String → Result (Option TrainingStatus)
load_status read parse path = if path =ₛ "" then ok none else elim (read path) [
  | absent ↦ ok none
  | unreadable e ↦ err (external e)
  | contents text ↦ elim (parse text) [ ok s ↦ ok (some s) | err e ↦ err e ]
]

-- `writeStatus`: what is put into the file, if it is written at all, with the time of the write.
unfoldable pub write_status : TrainingStatus → String → Time → List TrainingStatus
write_status s path now = if path =ₛ "" then [] else (record s { updated_at = now }) ∷ []
