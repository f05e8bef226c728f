-- ===== src/Sanitize/Fields.antt =====
-- sanitize.go, sanitizeFields: the scan over the text with its two positions and its builder.
use mod_sec_intl_wace_lib.Base.{
  Bool, Option, [], codes, drop, if◌then◌else◌, length, none, some, suc, take, zero, ℕ, ◌++◌, ◌+◌,
  ◌==◌, ◌||◌, ◌∷◌,
}
use mod_sec_intl_wace_lib.WaceApi.{Bytes}
use mod_sec_intl_wace_lib.Sanitize.Fold.{is_credential_field}

-- `credentialMask`
abbrev pub credential_mask : Bytes
credential_mask = codes "********"

-- The bytes that end a value: '*', '&' and the newline.
unfoldable pub is_stop : ℕ → Bool
is_stop b = b == b'*' || b == b'&' || b == 10

abbrev shift : Option ℕ → Option ℕ
shift none = none
shift (some k) = some (suc k)

-- `strings.IndexByte(s, '=')`
unfoldable pub index_equals : Bytes → Option ℕ
index_equals [] = none
index_equals (b ∷ s) = let rest = shift (index_equals s) in if b == b'=' then some 0 else rest

-- `strings.IndexAny(s, "*&\n")`
unfoldable pub index_stop : Bytes → Option ℕ
unfolding is_stop
index_stop [] = none
index_stop (b ∷ s) = let rest = shift (index_stop s) in if is_stop b then some 0 else rest

-- `s[from:to]`
abbrev pub slice : Bytes → ℕ → ℕ → Bytes
slice s from to = drop from (take to s)

-- Where the scan goes on behind a value that starts at `i`.
unfoldable pub value_end : Bytes → ℕ → ℕ
unfolding index_stop
value_end s i = elim (index_stop (drop i s)) [ some k ↦ i + k | none ↦ length s ]

-- The `for` loop, from the position `i`, with the position up to which the text has been copied and
-- the builder. Each round passes a '=', so more fuel than bytes left is enough; `none` is a loop
-- that has not ended.
unfoldable pub sanitize_loop : ℕ → Bytes → ℕ → ℕ → Bytes → Option (ℕ × Bytes)
unfolding index_equals
sanitize_loop zero s i copied sb = none
sanitize_loop (suc fuel) s i copied sb = elim (index_equals (drop i s)) [
  | none ↦ some (copied, sb)
  | some j ↦
      let eq = i + j in
      let plain = sanitize_loop fuel s (eq + 1) copied sb in
      let next = value_end s (eq + 1) in
      let masked : Option (ℕ × Bytes) =
        sanitize_loop fuel s next next (sb ++ slice s copied (eq + 1) ++ credential_mask) in
      if is_credential_field (take eq s) then masked else plain
]

-- What is returned after the loop.
unfoldable pub sanitize_finish : Bytes → ℕ × Bytes → Bytes
sanitize_finish s (copied, sb) = if copied == 0 then s else sb ++ drop copied s

-- `sanitizeFields`; `none` where the loop has not ended.
unfoldable pub sanitize_fields : Bytes → Option Bytes
unfolding sanitize_loop sanitize_finish
sanitize_fields s = elim (sanitize_loop (suc (length s)) s 0 0 []) [
  | none ↦ none
  | some r ↦ some (sanitize_finish s r)
]
