-- ===== src/Sanitize/Fold.antt =====
-- sanitize.go, the match of a field name: isCredentialField, hasFoldSuffix, foldEq.
use mod_sec_intl_wace_lib.Base.{
  Bool, List, [], codes, drop, false, if◌then◌else◌, leb, ltb, not, reverse, suc, true, zero, ℕ,
  ◌&&◌, ◌+◌, ◌-◌, ◌==◌, ◌||◌, ◌∷◌,
}
use mod_sec_intl_wace_lib.WaceApi.{Bytes}
use mod_sec_intl_wace_lib.Sanitize.Utf8.{last_rune}

-- Go's `unicode.SimpleFold` on the runes that a walk from an ASCII rune meets: each letter goes to
-- its other case, but k and s go there by way of U+212A and U+017F.
unfoldable pub simple_fold : ℕ → ℕ
simple_fold r =
    if r == b'k'
    then 0x212A
    else if r == 0x212A
    then b'K'
    else if r == b's'
    then 0x17F
    else if r == 0x17F
    then b'S'
    else if leb b'A' r && leb r b'Z'
    then r + 32
    else if leb b'a' r && leb r b'z'
    then r - 32
    else r

-- The `for` loop of `foldEq`. The orbit of a character of a field name has three runes at most, and
-- fuel 3 goes round it once.
unfoldable pub fold_search : ℕ → ℕ → ℕ → ℕ → Bool
fold_search zero f r c = false
fold_search (suc fuel) f r c =
    let rest = fold_search fuel (simple_fold f) r c in
    if f == c then false else if f == r then true else rest

-- `foldEq`
unfoldable pub fold_eq : ℕ → ℕ → Bool
unfolding simple_fold fold_search
fold_eq r c =
    if r == c
    then true
    else if ltb r 0x80
    then leb b'A' r && leb r b'Z' && r + b'a' - b'A' == c
    else fold_search 3 (simple_fold c) r c

-- The loop of `hasFoldSuffix`, from the last byte of the suffix on. Text and suffix are given from
-- their ends, and `s = s[:len(s)-size]` drops bytes from the front of the reversed text.
unfoldable pub fold_suffix : Bytes → Bytes → Bool
unfolding last_rune fold_eq
fold_suffix s [] = true
fold_suffix s (c ∷ cs) =
    let (r, size) = last_rune s in
    let rest = fold_suffix (drop size s) cs in
    if size == 0 || not (fold_eq r c) then false else rest

-- `hasFoldSuffix`
unfoldable pub has_fold_suffix : Bytes → Bytes → Bool
unfolding fold_suffix
has_fold_suffix s suffix = fold_suffix (reverse s) (reverse suffix)

-- `credentialFields`
abbrev pub credential_fields : List Bytes
credential_fields = codes "password" ∷ codes "pass" ∷ codes "pass2" ∷ codes "clave" ∷ []

any_suffix : Bytes → List Bytes → Bool
any_suffix s [] = false
any_suffix s (f ∷ fs) = has_fold_suffix s f || any_suffix s fs

-- `isCredentialField`
unfoldable pub is_credential_field : Bytes → Bool
unfolding has_fold_suffix any_suffix
is_credential_field s = any_suffix s credential_fields
