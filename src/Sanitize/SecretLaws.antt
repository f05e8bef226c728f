-- ===== src/Sanitize/SecretLaws.antt =====
-- sanitize.go, sanitizeFields on texts that differ in the value of a credential.
use mod_sec_intl_wace_lib.Base.{
  All, Bool, [], ap, append-nil, append_assoc, false, refl, some, subst, sym, true, ◌++◌, ◌∙◌, ◌∷◌,
  ◌≡◌,
}
use mod_sec_intl_wace_lib.WaceApi.{Bytes}
use mod_sec_intl_wace_lib.Sanitize.Fold.{is_credential_field}
use mod_sec_intl_wace_lib.Sanitize.Fields.{is_stop, sanitize_fields}
use mod_sec_intl_wace_lib.Sanitize.Mask.{mask_from}
use mod_sec_intl_wace_lib.Sanitize.FieldsLaws.{sanitize_fields_lem}

-- Bytes that can be the value of a field: none of them ends it.
abbrev pub IsValue : Bytes → Type 0
IsValue = All (λ b. is_stop b ≡ false)

mask_from-value : (seen v : Bytes) → IsValue v → mask_from true seen v ≡ []
unfolding mask_from
mask_from-value seen [] h = refl
mask_from-value seen (b ∷ v) (h, hs) = rw h (mask_from-value (seen ++ (b ∷ [])) v hs)

module _ (v w : Bytes) (hv : IsValue v) (hw : IsValue w) where
  mask_from-hides :
      (inside : Bool) (seen p : Bytes)
      → is_credential_field (seen ++ p) ≡ true
      → mask_from inside seen (p ++ (b'=' ∷ v)) ≡ mask_from inside seen (p ++ (b'=' ∷ w))
  unfolding mask_from is_stop
  mask_from-hides true seen [] h =
      mask_from-value (seen ++ (b'=' ∷ [])) v hv ∙ sym (mask_from-value (seen ++ (b'=' ∷ [])) w hw)
  mask_from-hides false seen [] h =
      let field : is_credential_field seen ≡ true =
        subst (λ xs. is_credential_field xs ≡ true) (append-nil seen) h in
      rw
        (
          field,
          mask_from-value (seen ++ (b'=' ∷ [])) v hv,
          mask_from-value (seen ++ (b'=' ∷ [])) w hw,
        )
        refl
  mask_from-hides true seen (b ∷ p) h =
      let field =
        subst (λ xs. is_credential_field xs ≡ true) (sym (append_assoc seen (b ∷ []) p)) h in
      rw
        (
          mask_from-hides true (seen ++ (b ∷ [])) p field,
          mask_from-hides false (seen ++ (b ∷ [])) p field,
        )
        refl
  mask_from-hides false seen (b ∷ p) h =
      let field =
        subst (λ xs. is_credential_field xs ≡ true) (sym (append_assoc seen (b ∷ []) p)) h in
      rw
        (
          mask_from-hides true (seen ++ (b ∷ [])) p field,
          mask_from-hides false (seen ++ (b ∷ [])) p field,
        )
        refl

  -- What sanitizeFields returns does not depend on the value of a credential that ends the text:
  -- two texts that differ only in the bytes behind the '=' of a credential field, none of which
  -- ends a value, are masked alike.
  pub sanitize_fields-hides :
      (pre : Bytes)
      → is_credential_field pre ≡ true
      → sanitize_fields (pre ++ (b'=' ∷ v)) ≡ sanitize_fields (pre ++ (b'=' ∷ w))
  sanitize_fields-hides pre h =
      sanitize_fields_lem (pre ++ (b'=' ∷ v))
      ∙ ap some (mask_from-hides false [] pre h)
      ∙ sym (sanitize_fields_lem (pre ++ (b'=' ∷ w)))
