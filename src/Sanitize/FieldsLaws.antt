-- ===== src/Sanitize/FieldsLaws.antt =====
-- sanitize.go, sanitizeFields against the pass over the bytes of Mask.
use mod_sec_intl_wace_lib.Base.{
  Bool-cases, Option, [], ap, append-nil, append_assoc, arith, drop, drop-append, false, inl, inr,
  length, length-append, none, refl, some, subst, suc, sym, take, take-append, true, zero, ℕ, ◌++◌,
  ◌+◌, ◌<◌, ◌∙◌, ◌∷◌, ◌≡◌, ◌≤◌, ◌⊎◌,
}
use mod_sec_intl_wace_lib.WaceApi.{Bytes}
use mod_sec_intl_wace_lib.Sanitize.Fields.{
  credential_mask, index_equals, index_stop, sanitize_fields, sanitize_finish, sanitize_loop, slice,
  value_end,
}
use mod_sec_intl_wace_lib.Sanitize.Mask.{NextEquals-all, ValueEnd-all, mask_from, mask_from-equals}
use mod_sec_intl_wace_lib.Sanitize.Fold.{is_credential_field}

drop-append_le : (n : ℕ) (xs ys : Bytes) → n ≤ length xs → drop n (xs ++ ys) ≡ drop n xs ++ ys
drop-append_le zero xs ys h = refl
drop-append_le (suc n) [] ys h = absurd (omega arith)
drop-append_le (suc n) (x ∷ xs) ys h = drop-append_le n xs ys (omega arith)

drop-length : (xs : Bytes) → drop (length xs) xs ≡ []
drop-length [] = refl
drop-length (x ∷ xs) = drop-length xs

-- The end of the value behind `before`, in a text that goes on with `a ++ b`.
value_end_lem :
    (before a b : Bytes)
    → ((index_stop (a ++ b) ≡ some (length a)) ⊎ ((index_stop (a ++ b) ≡ none) × (b ≡ [])))
    → value_end (before ++ (a ++ b)) (length before) ≡ length (before ++ a)
unfolding value_end
value_end_lem before a b (inl e) =
    rw (drop-append before (a ++ b), e, value_end) (sym (length-append before a))
value_end_lem before a b (inr (e, nothing)) =
    rw (drop-append before (a ++ b), e, value_end) (rw (nothing, append-nil))

-- The three ways through a round.
sanitize_loop-last :
    (fuel : ℕ) (s sb : Bytes) (i copied : ℕ)
    → index_equals (drop i s) ≡ none
    → sanitize_loop (suc fuel) s i copied sb ≡ some (copied, sb)
unfolding sanitize_loop
sanitize_loop-last fuel s sb i copied h = rw (h, sanitize_loop)

sanitize_loop-plain :
    (fuel : ℕ) (s sb : Bytes) (i copied j : ℕ)
    → index_equals (drop i s) ≡ some j
    → is_credential_field (take (i + j) s) ≡ false
    → sanitize_loop (suc fuel) s i copied sb ≡ sanitize_loop fuel s (i + j + 1) copied sb
unfolding sanitize_loop
sanitize_loop-plain fuel s sb i copied j h k = rw (h, sanitize_loop) (rw k)

sanitize_loop-masked :
    (fuel : ℕ) (s sb : Bytes) (i copied j : ℕ)
    → index_equals (drop i s) ≡ some j
    → is_credential_field (take (i + j) s) ≡ true
    → let next = value_end s (i + j + 1) in
      sanitize_loop (suc fuel) s i copied sb
      ≡ sanitize_loop fuel s next next (sb ++ slice s copied (i + j + 1) ++ credential_mask)
unfolding sanitize_loop
sanitize_loop-masked fuel s sb i copied j h k = rw (h, sanitize_loop) (rw k)

-- The loop has ended, and what it copied and what is left are `out`. If nothing was copied, nothing
-- was written.
abbrev Ends : Bytes → Bytes → Bytes → ℕ → Option (ℕ × Bytes) → Type 0
Ends s sb out copied r =
    (c : ℕ) × (b : Bytes) × (r ≡ some (c, b))
    × (b ++ drop c s ≡ out)
    × (c ≡ 0 → (b ≡ sb) × (copied ≡ 0))

-- The positions of a round that found the '=' behind `pre ++ a`.
module _ (pre a b : Bytes) where
  abbrev through : Bytes
  through = pre ++ (a ++ (b'=' ∷ []))

  length-through : length pre + length a + 1 ≡ length through
  length-through =
      omega (arith, length-append {0} pre (a ++ (b'=' ∷ [])), length-append {0} a (b'=' ∷ []))

  split-through : pre ++ (a ++ (b'=' ∷ b)) ≡ through ++ b
  split-through = simp append_assoc

  take-through : take (length pre + length a) (pre ++ (a ++ (b'=' ∷ b))) ≡ pre ++ a
  take-through =
      rw (← length-append {0} pre a, ← append_assoc pre a (b'=' ∷ b))
        (take-append (pre ++ a) (b'=' ∷ b))

  -- A round that masks nothing moves bytes from what is left to what is pending.
  out-plain :
      (copied : ℕ)
      → copied ≤ length pre
      → is_credential_field (pre ++ a) ≡ false
      → drop copied through ++ mask_from false through b
        ≡ drop copied pre ++ (a ++ mask_from false (pre ++ a) (b'=' ∷ b))
  out-plain copied h k =
      rw (drop-append_le copied pre (a ++ (b'=' ∷ [])) h, mask_from-equals, k) (simp append_assoc)

  -- A round that masks writes what is pending and the mask, and leaves out the value `v`.
  out-masked :
      (copied : ℕ) (sb v w : Bytes)
      → copied ≤ length pre
      → is_credential_field (pre ++ a) ≡ true
      → mask_from true through b ≡ mask_from false (through ++ v) w
      → sb
          ++ drop copied through
          ++ credential_mask
          ++ (drop (length (through ++ v)) (through ++ v) ++ mask_from false (through ++ v) w)
        ≡ sb ++ (drop copied pre ++ (a ++ mask_from false (pre ++ a) (b'=' ∷ b)))
  out-masked copied sb v w h k same =
      rw
        (
          drop-append_le copied pre (a ++ (b'=' ∷ [])) h,
          drop-length (through ++ v),
          mask_from-equals,
          k,
          ← same,
        )
        (simp append_assoc)

Ends-along :
    {s sb out out' : Bytes} {copied : ℕ} {r r' : Option (ℕ × Bytes)}
    → r ≡ r'
    → out' ≡ out
    → Ends s sb out' copied r'
    → Ends s sb out copied r
Ends-along same meant (c, b, e, written, nothing) = (c, b, same ∙ e, written ∙ meant, nothing)

-- A round that masks has copied something.
Ends-masked :
    {s sb sb' out out' : Bytes} {copied next : ℕ} {r r' : Option (ℕ × Bytes)}
    → r ≡ r'
    → out' ≡ out
    → 0 < next
    → Ends s sb' out' next r'
    → Ends s sb out copied r
Ends-masked same meant positive (c, b, e, written, nothing) =
    (c, b, same ∙ e, written ∙ meant, λ z. absurd (omega (arith, (nothing z).1)))

-- One text, given whole and as `pre ++ rest`.
sanitize_loop-Ends :
    (fuel : ℕ) (s pre rest sb : Bytes) (copied : ℕ)
    → s ≡ pre ++ rest
    → length rest < fuel
    → copied ≤ length pre
    → Ends s sb
        (sb ++ (drop copied pre ++ mask_from false pre rest))
        copied
        (sanitize_loop fuel s (length pre) copied sb)
unfolding sanitize_loop
sanitize_loop-Ends zero s pre rest sb copied e f h = absurd (omega arith)
sanitize_loop-Ends (suc fuel) s pre rest sb copied e f h = elim (NextEquals-all rest) [
  | inl (absent, same) ↦ (
    copied,
    sb,
    sanitize_loop-last fuel s sb (length pre) copied (rw (e, drop-append pre rest) absent),
    rw (same pre, e, drop-append_le copied pre rest h),
    λ z. (refl, z),
  )
  | inr (a, b, split, found, same) ↦
      let e' : s ≡ pre ++ (a ++ (b'=' ∷ b)) = e ∙ ap (λ l. pre ++ l) split in
      let at : index_equals (drop (length pre) s) ≡ some (length a) =
        rw (e, drop-append pre rest) found in
      let field : take (length pre + length a) s ≡ pre ++ a = rw e' (take-through pre a b) in
      let short : length rest ≡ length a + suc (length b) =
        ap (λ l. length l) split ∙ length-append {0} a (b'=' ∷ b) in
      elim (Bool-cases (is_credential_field (pre ++ a))) [
        | inr plain ↦
            Ends-along
              (sanitize_loop-plain fuel s sb (length pre) copied (length a) at (rw field plain)
                ∙ ap (λ n. sanitize_loop fuel s n copied sb) (length-through pre a b))
              (ap (λ l. sb ++ l)
                (out-plain pre a b copied h plain
                  ∙ ap (λ l. drop copied pre ++ l) (sym (same pre))))
              (sanitize_loop-Ends fuel s (through pre a b) b sb copied (e' ∙ split-through pre a b)
                (omega arith) (omega (arith, length-through pre a b)))
        | inl hit ↦
            let (v, w, b_split, b_end, b_same) = ValueEnd-all b in
            let pre2 = through pre a b ++ v in
            let sb2 = sb ++ drop copied (through pre a b) ++ credential_mask in
            let parted : s ≡ through pre a b ++ (v ++ w) =
              e' ∙ split-through pre a b ∙ ap (λ l. through pre a b ++ l) b_split in
            let next : value_end s (length pre + length a + 1) ≡ length pre2 =
              rw (parted, length-through pre a b)
                (value_end_lem (through pre a b) v w (
                  subst (λ l. (index_stop l ≡ some (length v)) ⊎ ((index_stop l ≡ none) × (w ≡ [])))
                    b_split b_end)) in
            let written : slice s copied (length pre + length a + 1)
                ≡ drop copied (through pre a b) =
              rw (e' ∙ split-through pre a b, length-through pre a b)
                (ap (λ l. drop copied l) (take-append (through pre a b) b)) in
            Ends-masked
              (sanitize_loop-masked fuel s sb (length pre) copied (length a) at (rw field hit)
                ∙ rw (next, written) refl)
              (out-masked pre a b copied sb v w h hit (b_same (through pre a b))
                ∙ ap (λ l. sb ++ (drop copied pre ++ l)) (sym (same pre)))
              (omega (arith, length-through pre a b, length-append {0} (through pre a b) v))
              (sanitize_loop-Ends fuel s pre2 w sb2 (length pre2)
                (parted ∙ sym (append_assoc (through pre a b) v w))
                (omega (arith, length-append {0} v w, ap (λ l. length l) b_split)) (omega arith))
      ]
]

-- Where nothing was copied, the builder is empty, and the text itself is what is left.
sanitize_finish_lem :
    (s b : Bytes) (c : ℕ) → (c ≡ 0 → b ≡ []) → sanitize_finish s (c, b) ≡ b ++ drop c s
unfolding sanitize_finish
sanitize_finish_lem s b zero h = rw (h refl)
sanitize_finish_lem s b (suc c) h = ground arith

-- sanitizeFields always ends its loop, and returns the text in which a '=' behind a credential
-- field is followed by the mask, in place of all bytes up to the next stop byte or the end.
pub sanitize_fields_lem : (s : Bytes) → sanitize_fields s ≡ some (mask_from false [] s)
unfolding sanitize_fields
sanitize_fields_lem s =
    let (c, b, e, written, nothing) =
      sanitize_loop-Ends (suc (length s)) s [] s [] 0 refl (omega arith) (omega arith) in
    rw (e, sanitize_fields) (ap some (sanitize_finish_lem s b c (λ z. (nothing z).0) ∙ written))
