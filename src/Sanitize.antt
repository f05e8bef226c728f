-- ===== src/Sanitize.antt =====
-- sanitize.go: credentials are masked before a payload reaches a model plugin that asks for it.
pub mod Utf8
pub mod Fold
pub mod Fields
pub mod Headers
pub mod FoldLaws
pub mod Mask
pub mod FieldsLaws
pub mod SecretLaws
pub mod HeadersLaws
