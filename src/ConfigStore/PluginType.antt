-- ===== src/ConfigStore/PluginType.antt =====
-- configstore/configstore.go, ModelPluginType: the part of a transaction that a model plugin reads.
-- The Go type is `int`, so any integer is a value of it; `is_valid` is its range check.
use mod_sec_intl_wace_lib.Base.{
  =ₛ_iff, Bool, Result, String, arith, eqb_int, err, if◌then◌else◌, invalid_plugin_type, leb_int,
  negsuc, ok, pos, refl, suc, true, zero, ℕ, ℤ, ◌&&◌, ◌=ₛ◌, ◌↔◌, ◌≡◌, ◌≤◌,
}

abbrev pub ModelPluginType : Type 0
ModelPluginType = ℤ

abbrev pub request_headers : ModelPluginType
request_headers = pos 0

abbrev pub request_body : ModelPluginType
request_body = pos 1

abbrev pub all_request : ModelPluginType
all_request = pos 2

abbrev pub response_headers : ModelPluginType
response_headers = pos 3

abbrev pub response_body : ModelPluginType
response_body = pos 4

abbrev pub all_response : ModelPluginType
all_response = pos 5

abbrev pub everything : ModelPluginType
everything = pos 6

-- `String`: what is none of the first six is "Everything".
unfoldable pub type_string : ModelPluginType → String
unfolding eqb_int
type_string t =
    if eqb_int t request_headers
    then "RequestHeaders"
    else if eqb_int t request_body
    then "RequestBody"
    else if eqb_int t all_request
    then "AllRequest"
    else if eqb_int t response_headers
    then "ResponseHeaders"
    else if eqb_int t response_body
    then "ResponseBody"
    else if eqb_int t all_response
    then "AllResponse"
    else "Everything"

-- `IsValid`
unfoldable pub is_valid : ModelPluginType → Bool
unfolding leb_int
is_valid t = leb_int request_headers t && leb_int t everything

-- `StringToPluginType`; the code's `-1` beside an error is never read.
unfoldable pub string_to_plugin_type : String → Result ModelPluginType
string_to_plugin_type s =
    if s =ₛ "RequestHeaders"
    then ok request_headers
    else if s =ₛ "RequestBody"
    then ok request_body
    else if s =ₛ "AllRequest"
    then ok all_request
    else if s =ₛ "ResponseHeaders"
    then ok response_headers
    else if s =ₛ "ResponseBody"
    then ok response_body
    else if s =ₛ "AllResponse"
    then ok all_response
    else if s =ₛ "Everything"
    then ok everything
    else err (invalid_plugin_type s)

-- Every valid type is one of the seven.
valid_cases : (t : ModelPluginType) → is_valid t ≡ true → (n : ℕ) × (t ≡ pos n) × (n ≤ 6)
unfolding is_valid
valid_cases (pos n) h = (n, refl, ground arith)
valid_cases (negsuc n) h = absurd (ground arith)

string_to_plugin_type-small :
    (n : ℕ) → n ≤ 6 → string_to_plugin_type (type_string (pos n)) ≡ ok (pos n)
unfolding string_to_plugin_type type_string
string_to_plugin_type-small zero h = refl
string_to_plugin_type-small (suc zero) h = refl
string_to_plugin_type-small (suc (suc zero)) h = refl
string_to_plugin_type-small (suc (suc (suc zero))) h = refl
string_to_plugin_type-small (suc (suc (suc (suc zero)))) h = refl
string_to_plugin_type-small (suc (suc (suc (suc (suc zero))))) h = refl
string_to_plugin_type-small (suc (suc (suc (suc (suc (suc zero)))))) h = refl
string_to_plugin_type-small (suc (suc (suc (suc (suc (suc (suc n))))))) h = absurd (omega arith)

string_to_plugin_type_inv :
    (s : String) (t : ModelPluginType)
    → string_to_plugin_type s ≡ ok t
    → (is_valid t ≡ true) × (type_string t ≡ s)
unfolding string_to_plugin_type type_string is_valid
string_to_plugin_type_inv s t h = ground (
  arith,
  =ₛ_iff s "RequestHeaders",
  =ₛ_iff s "RequestBody",
  =ₛ_iff s "AllRequest",
  =ₛ_iff s "ResponseHeaders",
  =ₛ_iff s "ResponseBody",
  =ₛ_iff s "AllResponse",
  =ₛ_iff s "Everything",
)

-- StringToPluginType and String are inverse between the valid types and the texts that are
-- accepted: a text is read as the type t exactly when t is valid and prints as that text.
pub string_to_plugin_type_iff :
    (s : String) (t : ModelPluginType)
    → (string_to_plugin_type s ≡ ok t) ↔ ((is_valid t ≡ true) × (type_string t ≡ s))
string_to_plugin_type_iff s t = (
  string_to_plugin_type_inv s t,
  λ h. let (n, e, small) = valid_cases t h.0 in rw (← h.1, e) (string_to_plugin_type-small n small),
)
