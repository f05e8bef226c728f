-- ===== src/Sanitize/HeadersLaws.antt =====
-- sanitize.go, sanitizeHeaders and sanitizeCredentials against the header by header reading.
use mod_sec_intl_wace_lib.Base.{
  Bool, Bool-cases, List, Option, [], ap, append_assoc, arith, false, if◌then◌else◌, inl, inr,
  length, length-append, map, none, refl, some, suc, sym, ℕ, ◌++◌, ◌∙◌, ◌∷◌, ◌≡◌,
}
use mod_sec_intl_wace_lib.WaceApi.{Bytes, HttpHeader, HttpPayload}
use mod_sec_intl_wace_lib.Sanitize.Fields.{credential_mask}
use mod_sec_intl_wace_lib.Sanitize.Mask.{mask_from}
use mod_sec_intl_wace_lib.Sanitize.FieldsLaws.{sanitize_fields_lem}
use mod_sec_intl_wace_lib.Sanitize.Headers.{
  headers_loop, is_named, mask_value, sanitize_credentials, sanitize_headers,
}

module _ (equal_fold : Bytes → Bytes → Bool) (names : List Bytes) where
  -- One header, masked if it is named.
  abbrev pub mask_header : HttpHeader → HttpHeader
  mask_header x =
      if is_named equal_fold x.key names then record x { value = credential_mask } else x

  -- The slice that is written to, or would be.
  abbrev current : List HttpHeader → Option (List HttpHeader) → List HttpHeader
  current h none = h
  current h (some out) = out

  current-elim :
      (h : List HttpHeader) (out : Option (List HttpHeader))
      → ◌≡◌ {A = List HttpHeader} (elim out [ none ↦ h | some o ↦ o ]) (current h out)
  current-elim h none = refl
  current-elim h (some o) = refl

  mask_value-append :
      (done rest : List HttpHeader) (x : HttpHeader)
      → mask_value (length done) (done ++ (x ∷ rest))
        ≡ done ++ (record x { value = credential_mask } ∷ rest)
  unfolding mask_value
  mask_value-append [] rest x = refl
  mask_value-append (y ∷ done) rest x = ap (λ l. y ∷ l) (mask_value-append done rest x)

  length-snoc :
      (done : List HttpHeader) (x : HttpHeader) → suc (length done) ≡ length (done ++ (x ∷ []))
  length-snoc done x = omega (arith, length-append {0} done (x ∷ []))

  headers_loop_lem :
      (h : List HttpHeader) (i : ℕ) (done rest : List HttpHeader) (out : Option (List HttpHeader))
      → i ≡ length done
      → current h out ≡ done ++ rest
      → current h (headers_loop equal_fold names h i rest out) ≡ done ++ map mask_header rest
  unfolding headers_loop
  headers_loop_lem h i done [] out at e = e
  headers_loop_lem h i done (x ∷ rest) out at e =
      elim (Bool-cases (is_named equal_fold x.key names)) [
        | inl hit ↦
            let y : HttpHeader = record x { value = credential_mask } in
            let written : mask_value i (current h out) ≡ (done ++ (y ∷ [])) ++ rest =
              rw (at, e, mask_value-append done rest x) (sym (append_assoc done (y ∷ []) rest)) in
            rw hit (
              headers_loop_lem h (suc i) (done ++ (y ∷ [])) rest
                (some (mask_value i (current h out))) (ap suc at ∙ length-snoc done y) written
              ∙ append_assoc done (y ∷ []) (map mask_header rest))
        | inr miss ↦ rw miss (
            headers_loop_lem h (suc i) (done ++ (x ∷ [])) rest out (ap suc at ∙ length-snoc done x)
              (e ∙ sym (append_assoc done (x ∷ []) rest))
            ∙ append_assoc done (x ∷ []) (map mask_header rest))
      ]

  -- `sanitizeHeaders` masks every header that is named, and changes no other, no key and no place.
  pub sanitize_headers-eq-map :
      (h : List HttpHeader) → sanitize_headers equal_fold h names ≡ map mask_header h
  unfolding sanitize_headers
  sanitize_headers-eq-map h =
      current-elim h (headers_loop equal_fold names h 0 h none)
      ∙ headers_loop_lem h 0 [] h none refl refl

  -- The payload that a model plugin with `sanitize` gets.
  pub masked_payload : HttpPayload → HttpPayload
  masked_payload p = record p {
    uri = mask_from false [] p.uri;
    request_body = mask_from false [] p.request_body;
    request_headers = map mask_header p.request_headers;
    response_headers = map mask_header p.response_headers;
  }

  -- sanitizeCredentials always returns, with the URI, the request body and the headers of both
  -- directions masked, and with all other parts of the payload as they were.
  pub sanitize_credentials_lem :
      (p : HttpPayload) → sanitize_credentials equal_fold p names ≡ some (masked_payload p)
  unfolding sanitize_credentials masked_payload
  sanitize_credentials_lem p =
      rw (sanitize_fields_lem p.uri, sanitize_fields_lem p.request_body, sanitize_credentials)
        (simp sanitize_headers-eq-map)
