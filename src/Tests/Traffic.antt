-- ===== src/Tests/Traffic.antt =====
-- Sanitize at concrete inputs.
use mod_sec_intl_wace_lib.Base.{
  Bool, [], arith, codes, false, inl, refl, some, true, ◌&&◌, ◌++◌, ◌==◌, ◌↔◌, ◌∷◌, ◌≡◌,
}
use mod_sec_intl_wace_lib.WaceApi.{Bytes, HttpPayload}
use mod_sec_intl_wace_lib.Tests.Data.{payload}
use mod_sec_intl_wace_lib.Sanitize.Fold.{fold_eq, is_credential_field}
use mod_sec_intl_wace_lib.Sanitize.Fields.{is_stop, sanitize_fields, value_end}
use mod_sec_intl_wace_lib.Sanitize.Headers.{sanitize_credentials}
use mod_sec_intl_wace_lib.Sanitize.FoldLaws.{Folds, fold_eq_iff}
use mod_sec_intl_wace_lib.Sanitize.Mask.{mask_from}
use mod_sec_intl_wace_lib.Sanitize.SecretLaws.{sanitize_fields-hides}
use mod_sec_intl_wace_lib.Sanitize.FieldsLaws.{sanitize_fields_lem}
use mod_sec_intl_wace_lib.Sanitize.HeadersLaws.{masked_payload, sanitize_credentials_lem}

-- The comparison of header names, by identity.
abbrev same_name : Bytes → Bytes → Bool
same_name [] [] = true
same_name [] (_ ∷ _) = false
same_name (_ ∷ _) [] = false
same_name (x ∷ xs) (y ∷ ys) = x == y && same_name xs ys

query-masked :
    sanitize_fields (codes "/login?newPassword=abc&x=1&clave=q=r")
    ≡ some (codes "/login?newPassword=********&x=1&clave=********")
unfolding sanitize_fields value_end is_credential_field
query-masked = refl

payload-masked :
    (p : HttpPayload) × (sanitize_credentials same_name payload (codes "Authorization" ∷ [])
      ≡ some p)
    × (p.request_body ≡ codes "password=********&x=1")
unfolding sanitize_credentials sanitize_fields value_end is_credential_field
payload-masked = (_, refl, refl)

sanitize_fields_lem_example :
    sanitize_fields payload.request_body ≡ some (mask_from false [] payload.request_body)
sanitize_fields_lem_example = sanitize_fields_lem payload.request_body

sanitize_credentials_lem_example :
    sanitize_credentials same_name payload (codes "Authorization" ∷ [])
    ≡ some (masked_payload same_name (codes "Authorization" ∷ []) payload)
sanitize_credentials_lem_example =
    sanitize_credentials_lem same_name (codes "Authorization" ∷ []) payload

fold_eq_iff_example : (fold_eq 0x17F b's' ≡ true) ↔ Folds 0x17F b's'
fold_eq_iff_example = fold_eq_iff 0x17F b's' (inl (omega arith, omega arith))

-- Two passwords behind the same field are masked alike.
sanitize_fields-hides_example :
    sanitize_fields (codes "x=1&Password" ++ (b'=' ∷ codes "abc"))
    ≡ sanitize_fields (codes "x=1&Password" ++ (b'=' ∷ codes "secret"))
unfolding is_credential_field is_stop
sanitize_fields-hides_example =
    sanitize_fields-hides (codes "abc") (codes "secret") (refl, (refl, (refl, tt)))
      (refl, (refl, (refl, (refl, (refl, (refl, tt)))))) (codes "x=1&Password") refl
