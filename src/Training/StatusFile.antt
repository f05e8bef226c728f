-- ===== src/Training/StatusFile.antt =====
-- pluginmanager/training_plugin.go, MarshalJSON and UnmarshalJSON of CollectionStatus, and loadStatus
-- and writeStatus down to their files.
use mod_sec_intl_wace_lib.Base.{
  Error, List, Map, Option, Result, String, [], erase, err, if◌then◌else◌, insert, lookup, none, ok,
  some, ℕ, ℤ, ◌++◌, ◌=ₛ◌, ◌>>=◌, ◌∷◌,
}
use mod_sec_intl_wace_lib.WaceApi.{Bytes}
use mod_sec_intl_wace_lib.Training.Status.{
  CollectionStatus, FileRead, Time, TrainingStatus, absent, collecting, contents, status_string,
  string_to_status,
}
use Prim.Native.String

-- The fields of a `TrainingStatus` as the JSON package sees them: the status is the JSON text that
-- `MarshalJSON` gives and that `UnmarshalJSON` gets, if the key is there.
pub record RawStatus : Type 0 where
  pub collected_samples : ℕ
  pub min_samples : ℤ
  pub max_samples : ℤ
  pub status : Option Bytes
  pub error_msg : String
  pub created_at : Time
  pub updated_at : Time

-- The JSON package, on texts and on these fields.
pub record Json : Type 0 where
  pub encode_string : String → Result Bytes
  pub decode_string : Bytes → Result String
  pub encode_fields : RawStatus → Result Bytes
  pub decode_fields : Bytes → Result RawStatus

-- The file system. `write` is `os.WriteFile` to a path: the contents that the file has one after
-- another before it holds all the data, and the error. `rename` is the error of `os.Rename`.
pub record FileSystem : Type 0 where
  pub write : String → Bytes → List Bytes × Option Error
  pub rename : String → String → Option Error

-- `MarshalJSON`
unfoldable pub marshal_status : Json → CollectionStatus → Result Bytes
marshal_status j c = j.encode_string (status_string c)

-- `UnmarshalJSON`: `*s` afterwards, and the error.
unfoldable pub unmarshal_status : Json → Bytes → CollectionStatus → CollectionStatus × Option Error
unmarshal_status j text old = elim (j.decode_string text) [
  | err e ↦ (old, some e)
  | ok name ↦ elim (string_to_status name) [ err e ↦ (old, some e) | ok c ↦ (c, none) ]
]

-- `json.Marshal(status)`
unfoldable pub encode_status : Json → TrainingStatus → Result Bytes
unfolding marshal_status
encode_status j s = do
  text ← marshal_status j s.status
  j.encode_fields (record {
    collected_samples = s.collected_samples;
    min_samples = s.min_samples;
    max_samples = s.max_samples;
    status = some text;
    error_msg = s.error_msg;
    created_at = s.created_at;
    updated_at = s.updated_at;
  })

-- The fields with a status.
abbrev pub with_status : RawStatus → CollectionStatus → TrainingStatus
with_status raw c = record {
  collected_samples = raw.collected_samples;
  min_samples = raw.min_samples;
  max_samples = raw.max_samples;
  status = c;
  error_msg = raw.error_msg;
  created_at = raw.created_at;
  updated_at = raw.updated_at;
}

-- The status of a value that is decoded; it is `Collecting`, the zero, where the key is missing.
unfoldable pub decoded_status : Json → Option Bytes → CollectionStatus × Option Error
unfolding unmarshal_status
decoded_status j none = (collecting, none)
decoded_status j (some text) = unmarshal_status j text collecting

unfoldable checked_status : RawStatus → CollectionStatus × Option Error → Result TrainingStatus
checked_status raw (c, none) = ok (with_status raw c)
checked_status raw (c, some e) = err e

-- `json.Unmarshal(data, &status)` into a zero status.
unfoldable pub decode_status : Json → Bytes → Result TrainingStatus
unfolding decoded_status checked_status
decode_status j text = elim (j.decode_fields text) [
  | err e ↦ err e
  | ok raw ↦ checked_status raw (decoded_status j raw.status)
]

-- `os.ReadFile`
abbrev pub read_file : Map Bytes → String → FileRead
read_file files path = elim (lookup path files) [ none ↦ absent | some text ↦ contents text ]

-- `filePath + ".tmp"`
unfoldable pub tmp_path : String → String
tmp_path path = String.◌++◌ path ".tmp"

-- The files one after another, the last, and the error.
pub record Written : Type 0 where
  pub passed : List (Map Bytes)
  pub files : Map Bytes
  pub error : Option Error

-- The file after each part of a write.
unfoldable pub after_parts : String → List Bytes → Map Bytes → Map Bytes
after_parts path [] files = files
after_parts path (part ∷ parts) files = after_parts path parts (insert path part files)

unfoldable pub at_parts : String → List Bytes → Map Bytes → List (Map Bytes)
at_parts path [] files = []
at_parts path (part ∷ parts) files =
    insert path part files ∷ at_parts path parts (insert path part files)

-- `os.Rename`: the new path holds what the old one held.
unfoldable pub rename_file : FileSystem → String → String → Map Bytes → Map Bytes × Option Error
rename_file fs old new files = elim (fs.rename old new) [
  | some e ↦ (files, some e)
  | none ↦ elim (lookup old files) [
    | none ↦ (files, none)
    | some text ↦ (erase old (insert new text files), none)
  ]
]

-- `writeStatus` with the encoded status.
unfoldable pub put_status : FileSystem → String → Bytes → Map Bytes → Written
unfolding after_parts at_parts rename_file
put_status fs path text files =
    let (parts, e) = fs.write (tmp_path path) text in
    let before = at_parts (tmp_path path) parts files in
    let partial = after_parts (tmp_path path) parts files in
    elim e [
      | some x ↦ record { passed = before; files = partial; error = some x }
      | none ↦
          let full = insert (tmp_path path) text partial in
          let (files', e') = rename_file fs (tmp_path path) path full in
          record { passed = before ++ (full ∷ []); files = files'; error = e' }
    ]

-- `writeStatus`
unfoldable pub save_status :
    Json → FileSystem → TrainingStatus → String → Time → Map Bytes → Written
unfolding put_status encode_status
save_status j fs s path now files =
    if path =ₛ ""
    then record { passed = []; files = files; error = none }
    else elim (encode_status j (record s { updated_at = now })) [
      | err e ↦ record { passed = []; files = files; error = some e }
      | ok text ↦ put_status fs path text files
    ]
