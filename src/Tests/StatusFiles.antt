-- ===== src/Tests/StatusFiles.antt =====
-- A status that is written and read.
use mod_sec_intl_wace_lib.Base.{
  =ₛ_iff, All, Error, Option, Result, String, [], ap, arith, err, external, if◌then◌else◌, insert,
  lookup, negsuc, none, ok, pos, refl, some, sym, ℕ, ℤ, ◌=ₛ◌, ◌∷◌, ◌≡◌,
}
use mod_sec_intl_wace_lib.WaceApi.{Bytes}
use mod_sec_intl_wace_lib.Training.Status.{Time, TrainingStatus, collecting, status_string}
use mod_sec_intl_wace_lib.Training.StatusFile.{FileSystem, Json, RawStatus, save_status, tmp_path}
use mod_sec_intl_wace_lib.Training.StatusFileLaws.{IsJson, load_status-save_status, loaded}

-- A JSON package that knows one text, and no error messages.
abbrev one_name : String → Result Bytes
one_name name = if name =ₛ "collecting" then ok (0 ∷ []) else err (external "unknown")

abbrev raw_text : RawStatus → Result Bytes
raw_text r = elim r.min_samples [
  | negsuc n ↦ err (external "negative")
  | pos low ↦ elim r.max_samples [
    | negsuc n ↦ err (external "negative")
    | pos high ↦ elim r.status [
      | none ↦ err (external "no status")
      | some text ↦
          if r.error_msg =ₛ ""
          then ok (r.collected_samples ∷ low ∷ high ∷ r.created_at ∷ r.updated_at ∷ text)
          else err (external "a message")
    ]
  ]
]

abbrev raw_of : Bytes → Result RawStatus
raw_of (n ∷ low ∷ high ∷ created ∷ updated ∷ text) = ok (record {
  collected_samples = n;
  min_samples = pos low;
  max_samples = pos high;
  status = some text;
  error_msg = "";
  created_at = created;
  updated_at = updated;
})
raw_of [] = err (external "short")
raw_of (a ∷ []) = err (external "short")
raw_of (a ∷ b ∷ []) = err (external "short")
raw_of (a ∷ b ∷ c ∷ []) = err (external "short")
raw_of (a ∷ b ∷ c ∷ d ∷ []) = err (external "short")

abbrev json : Json
json = record {
  encode_string = one_name;
  decode_string = λ text. ok "collecting";
  encode_fields = raw_text;
  decode_fields = raw_of;
}

raw_of-raw_text :
    (n : ℕ) (low high : ℤ) (status : Option Bytes) (message : String) (created updated : Time)
    (text : Bytes)
    → let r : RawStatus = record {
      collected_samples = n;
      min_samples = low;
      max_samples = high;
      status = status;
      error_msg = message;
      created_at = created;
      updated_at = updated;
    } in
      raw_text r ≡ ok text → raw_of text ≡ ok r
raw_of-raw_text n (negsuc a) high status message created updated text h = cc
raw_of-raw_text n (pos a) (negsuc b) status message created updated text h = cc
raw_of-raw_text n (pos a) (pos b) none message created updated text h = cc
raw_of-raw_text n (pos a) (pos b) (some st) message created updated text h =
    let quiet = (=ₛ_iff message "").0 (ground (arith, h)) in
    let same : (n ∷ a ∷ b ∷ created ∷ updated ∷ st) ≡ text = ground (arith, h) in
    rw⁻¹ same (rw quiet refl)

json-IsJson : IsJson json
json-IsJson = record {
  strings = λ name text h. ap ok (sym ((=ₛ_iff name "collecting").0 (ground (arith, h))));
  fields = λ r text h.
      raw_of-raw_text r.collected_samples r.min_samples r.max_samples r.status r.error_msg
        r.created_at r.updated_at text h;
}

-- Each write is seen half done.
abbrev disk : FileSystem
disk = record { write = λ path text. ([] ∷ (0 ∷ []) ∷ [], none); rename = λ old new. none }

abbrev started : TrainingStatus
started = record {
  collected_samples = 3;
  min_samples = pos 1;
  max_samples = pos 9;
  status = collecting;
  error_msg = "";
  created_at = 5;
  updated_at = 5;
}

load_status-save_status_example :
    let o = save_status json disk started "status" 8 [] in
    (o.error ≡ none → loaded json "status" o.files ≡ ok (some (record started { updated_at = 8 })))
    × ((e : Error) → o.error ≡ some e → loaded json "status" o.files ≡ loaded json "status" [])
    × All (λ files'. loaded json "status" files' ≡ loaded json "status" []) o.passed
load_status-save_status_example =
    load_status-save_status json disk started "status" 8 [] json-IsJson (λ e. cc)

-- In this run there is no error.
no_error : (save_status json disk started "status" 8 []).error ≡ none
unfolding save_status status_string lookup insert tmp_path
no_error = refl
