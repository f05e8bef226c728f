-- ===== src/Sanitize/Headers.antt =====
-- sanitize.go, sanitizeHeaders and sanitizeCredentials. `equal_fold` is `strings.EqualFold`, which
-- compares under the case folding of all of Unicode.
use mod_sec_intl_wace_lib.Base.{
  Bool, List, Option, [], false, if◌then◌else◌, none, some, suc, zero, ℕ, ◌||◌, ◌∷◌,
}
use mod_sec_intl_wace_lib.WaceApi.{Bytes, HttpHeader, HttpPayload}
use mod_sec_intl_wace_lib.Sanitize.Fields.{credential_mask, sanitize_fields}

-- `out[i].Value = credentialMask`
unfoldable pub mask_value : ℕ → List HttpHeader → List HttpHeader
mask_value i [] = []
mask_value zero (x ∷ xs) = record x { value = credential_mask } ∷ xs
mask_value (suc i) (x ∷ xs) = x ∷ mask_value i xs

module _ (equal_fold : Bytes → Bytes → Bool) where
  -- `slices.ContainsFunc(names, …)`
  unfoldable pub is_named : Bytes → List Bytes → Bool
  is_named key [] = false
  is_named key (n ∷ names) = equal_fold key n || is_named key names

  -- The loop over the headers `rest` of `h`, the first of which has the index `i`. `out` is nil until
  -- a header matches, and a copy of `h` from then on.
  unfoldable pub headers_loop :
      List Bytes
      → List HttpHeader
      → ℕ
      → List HttpHeader
      → Option (List HttpHeader)
      → Option (List HttpHeader)
  unfolding is_named mask_value
  headers_loop names h i [] out = out
  headers_loop names h i (x ∷ rest) out =
      let copy = elim out as (λ _. List HttpHeader) [ none ↦ h | some o ↦ o ] in
      headers_loop names h (suc i) rest
        (if is_named x.key names then some (mask_value i copy) else out)

  -- `sanitizeHeaders`
  unfoldable pub sanitize_headers : List HttpHeader → List Bytes → List HttpHeader
  unfolding headers_loop
  sanitize_headers h names = elim (headers_loop names h 0 h none) [ none ↦ h | some out ↦ out ]

  -- `sanitizeCredentials`; `none` where `sanitizeFields` has not ended.
  unfoldable pub sanitize_credentials : HttpPayload → List Bytes → Option HttpPayload
  sanitize_credentials p names = elim (sanitize_fields p.uri) [
    | none ↦ none
    | some uri ↦ elim (sanitize_fields p.request_body) [
      | none ↦ none
      | some body ↦ some (record p {
        uri = uri;
        request_body = body;
        request_headers = sanitize_headers p.request_headers names;
        response_headers = sanitize_headers p.response_headers names;
      })
    ]
  ]
