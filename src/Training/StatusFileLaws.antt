-- ===== src/Training/StatusFileLaws.antt =====
-- pluginmanager/training_plugin.go, the status file: what its readers find while it is written, and what
-- is read back.
use mod_sec_intl_wace_lib.Base.{
  =ₛ_iff, All, All-append, Bool-cases, Error, List, Map, Option, Option-cases, Result, Result-cases,
  String, [], ap, arith, false, inl, inr, insert, lookup, lookup-erase, lookup-insert, none, ok,
  refl, set, some, ◌=ₛ◌, ◌∙◌, ◌∷◌, ◌≡◌, ◌≢◌,
}
use mod_sec_intl_wace_lib.WaceApi.{Bytes}
use mod_sec_intl_wace_lib.Training.Status.{
  CollectionStatus, Time, TrainingStatus, collecting, load_status, status_string,
}
use mod_sec_intl_wace_lib.Training.StatusFile.{
  FileSystem, Json, RawStatus, Written, after_parts, at_parts, decode_status, decoded_status,
  encode_status, marshal_status, put_status, read_file, rename_file, save_status, tmp_path,
  unmarshal_status,
}
use mod_sec_intl_wace_lib.Training.StatusLaws.{string_to_status_string}
use Prim.Native.String.{len}
use text.Mathlib.TextPositions.{len-append}

tmp_path-other : (path : String) → (tmp_path path =ₛ path) ≡ false
unfolding tmp_path
tmp_path-other path = elim (Bool-cases (tmp_path path =ₛ path)) [
  | inr e ↦ e
  | inl e ↦
      let same = ap len ((=ₛ_iff (tmp_path path) path).0 e) in
      absurd (omega (arith, same, len-append path ".tmp"))
]

after_parts-lookup :
    (key other : String) (parts : List Bytes) (files : Map Bytes)
    → (key =ₛ other) ≡ false
    → lookup other (after_parts key parts files) ≡ lookup other files
unfolding after_parts
after_parts-lookup key other [] files h = refl
after_parts-lookup key other (part ∷ parts) files h =
    after_parts-lookup key other parts (insert key part files) h
    ∙ lookup-insert key other part files
    ∙ rw h refl

-- A file is as it was.
abbrev Unchanged : String → Map Bytes → Map Bytes → Type 0
Unchanged path before files = lookup path files ≡ lookup path before

at_parts-Unchanged :
    (key other : String) (parts : List Bytes) (files before : Map Bytes)
    → (key =ₛ other) ≡ false
    → Unchanged other before files
    → All (Unchanged other before) (at_parts key parts files)
unfolding at_parts
at_parts-Unchanged key other [] files before h same = tt
at_parts-Unchanged key other (part ∷ parts) files before h same =
    let same' = lookup-insert key other part files ∙ rw h same in
    (same', at_parts-Unchanged key other parts (insert key part files) before h same')

-- What a call of writeStatus does to the file at a path, with the text that it writes.
pub record IsAtomic (path : String) (before : Map Bytes) (text : Bytes) (o : Written) : Type 0 where
  pub during : All (λ files. lookup path files ≡ lookup path before) o.passed
  pub written : o.error ≡ none → lookup path o.files ≡ some text
  pub kept : (e : Error) → o.error ≡ some e → lookup path o.files ≡ lookup path before

put_status-IsAtomic :
    (fs : FileSystem) (path : String) (text : Bytes) (files : Map Bytes)
    → IsAtomic path files text (put_status fs path text files)
unfolding put_status rename_file
put_status-IsAtomic fs path text files =
    let tmp = tmp_path path in
    let other = tmp_path-other path in
    let parts = (fs.write tmp text).0 in
    let partial = after_parts tmp parts files in
    let full = insert tmp text partial in
    let same_partial = after_parts-lookup tmp path parts files other in
    let same_full : lookup path full ≡ lookup path files =
      lookup-insert tmp path text partial ∙ rw other same_partial in
    let before = at_parts-Unchanged tmp path parts files files other refl in
    let there : lookup tmp full ≡ some text =
      ground (arith, lookup-insert tmp tmp text partial, =ₛ_iff tmp tmp) in
    elim (Option-cases (fs.write tmp text).1) [
      | inr (x, refused) ↦
          rw (refused, put_status)
            (record { during = before; written = λ h. cc; kept = λ e h. same_partial })
      | inl fine ↦
          rw (fine, put_status)
            (elim (Option-cases (fs.rename tmp path)) [
              | inr (x, refused) ↦
                  rw (refused, rename_file)
                    (record {
                      during =
                          All-append _ (at_parts tmp parts files) (full ∷ []) before
                            (same_full, tt);
                      written = λ h. cc;
                      kept = λ e h. same_full;
                    })
              | inl done' ↦
                  rw (done', rename_file)
                    (rw (there, rename_file)
                      (record {
                        during =
                            All-append _ (at_parts tmp parts files) (full ∷ []) before
                              (same_full, tt);
                        written = λ h. ground (
                          arith,
                          lookup-erase tmp path (insert path text full),
                          lookup-insert path path text full,
                          =ₛ_iff path path,
                          other,
                        );
                        kept = λ e h. cc;
                      }))
            ])
    ]

-- What is documented of the JSON package: what it encodes it decodes.
pub record IsJson (j : Json) : Type 0 where
  pub strings :
      (name : String) (text : Bytes)
      → j.encode_string name ≡ ok text
      → j.decode_string text ≡ ok name
  pub fields :
      (raw : RawStatus) (text : Bytes)
      → j.encode_fields raw ≡ ok text
      → j.decode_fields text ≡ ok raw

unmarshal_status-marshal_status :
    (j : Json) (c old : CollectionStatus) (text : Bytes)
    → IsJson j
    → marshal_status j c ≡ ok text
    → unmarshal_status j text old ≡ (c, none)
unfolding marshal_status unmarshal_status
unmarshal_status-marshal_status j c old text json h =
    rw (json.strings (status_string c) text h, unmarshal_status)
      (rw (string_to_status_string c, unmarshal_status) refl)

decode_status-encode_status :
    (j : Json) (s : TrainingStatus) (text : Bytes)
    → IsJson j
    → encode_status j s ≡ ok text
    → decode_status j text ≡ ok s
unfolding encode_status decode_status decoded_status
decode_status-encode_status j s text json h = elim (Result-cases (marshal_status j s.status)) [
  | inl (e, bad) ↦ ground (arith, h, bad)
  | inr (name, marshaled) ↦
      let raw : RawStatus = record {
        collected_samples = s.collected_samples;
        min_samples = s.min_samples;
        max_samples = s.max_samples;
        status = some name;
        error_msg = s.error_msg;
        created_at = s.created_at;
        updated_at = s.updated_at;
      } in
      let encoded : j.encode_fields raw ≡ ok text = rw (marshaled, encode_status) at h in
      rw (json.fields raw text encoded, decode_status)
        (rw (unmarshal_status-marshal_status j s.status collecting name json marshaled) refl)
]

-- What loadStatus finds at a path.
abbrev pub loaded : Json → String → Map Bytes → Result (Option TrainingStatus)
loaded j path files = load_status (read_file files) (decode_status j) path

loaded-lookup :
    (j : Json) (path : String) (files before : Map Bytes)
    → lookup path files ≡ lookup path before
    → loaded j path files ≡ loaded j path before
unfolding load_status
loaded-lookup j path files before same = rw same refl

loaded-text :
    (j : Json) (path : String) (files : Map Bytes) (text : Bytes) (s : TrainingStatus)
    → (path =ₛ "") ≡ false
    → lookup path files ≡ some text
    → decode_status j text ≡ ok s
    → loaded j path files ≡ ok (some s)
unfolding load_status
loaded-text j path files text s set there decoded =
    rw (set, load_status) (rw (there, load_status) (rw decoded refl))

All-loaded :
    (j : Json) (path : String) (before : Map Bytes) (states : List (Map Bytes))
    → All (λ files. lookup path files ≡ lookup path before) states
    → All (λ files. loaded j path files ≡ loaded j path before) states
All-loaded j path before [] h = tt
All-loaded j path before (files ∷ states) (same, rest) =
    (loaded-lookup j path files before same, All-loaded j path before states rest)

-- When writeStatus succeeds, loadStatus reads the status back, with the time of the write; when it
-- fails, loadStatus reads what it would have read before; and at each moment in between, with the
-- new text partly written, it reads that too. A path is set, and JSON decodes what it encodes.
pub load_status-save_status :
    (j : Json) (fs : FileSystem) (s : TrainingStatus) (path : String) (now : Time)
    (files : Map Bytes)
    → IsJson j
    → path ≢ ""
    → let o = save_status j fs s path now files in
      (o.error ≡ none → loaded j path o.files ≡ ok (some (record s { updated_at = now })))
      × ((e : Error) → o.error ≡ some e → loaded j path o.files ≡ loaded j path files)
      × All (λ files'. loaded j path files' ≡ loaded j path files) o.passed
unfolding save_status
load_status-save_status j fs s path now files json given =
    let set : (path =ₛ "") ≡ false = ground (arith, given, =ₛ_iff path "") in
    let s' : TrainingStatus = record s { updated_at = now } in
    rw (set, save_status)
      (elim (Result-cases (encode_status j s')) [
        | inl (e, bad) ↦ rw (bad, save_status) (λ h. cc, λ e' h. refl, tt)
        | inr (text, encoded) ↦
            let a = put_status-IsAtomic fs path text files in
            rw (encoded, save_status)
              (
                λ h.
                    loaded-text j path (put_status fs path text files).files text s' set
                      (a.written h) (decode_status-encode_status j s' text json encoded),
                λ e' h.
                    loaded-lookup j path (put_status fs path text files).files files (a.kept e' h),
                All-loaded j path files (put_status fs path text files).passed a.during,
              )
      ])
