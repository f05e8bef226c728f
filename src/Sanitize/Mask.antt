-- ===== src/Sanitize/Mask.antt =====
-- sanitize.go, the masked text of sanitizeFields as one pass over the bytes, without positions.
use mod_sec_intl_wace_lib.Base.{
  ==_iff, Bool, Bool-cases, [], ap, append-nil, append_assoc, arith, false, if◌then◌else◌, inl, inr,
  length, none, refl, some, true, ℕ, ◌&&◌, ◌++◌, ◌==◌, ◌∙◌, ◌∷◌, ◌≡◌, ◌⊎◌,
}
use mod_sec_intl_wace_lib.WaceApi.{Bytes}
use mod_sec_intl_wace_lib.Sanitize.Fields.{credential_mask, index_equals, index_stop, is_stop}
use mod_sec_intl_wace_lib.Sanitize.Fold.{is_credential_field}

-- The masked text of the bytes behind `seen`. The flag is set inside a value that is left out: it
-- ends before a stop byte. A '=' behind a credential field is followed by the mask.
unfoldable pub mask_from : Bool → Bytes → Bytes → Bytes
mask_from inside seen [] = []
mask_from true seen (b ∷ s) =
    let copy = b ∷ mask_from false (seen ++ (b ∷ [])) s in
    let skip = mask_from true (seen ++ (b ∷ [])) s in if is_stop b then copy else skip
mask_from false seen (b ∷ s) =
    let start = b ∷ (credential_mask ++ mask_from true (seen ++ (b ∷ [])) s) in
    let plain = b ∷ mask_from false (seen ++ (b ∷ [])) s in
    if b == b'=' && is_credential_field seen then start else plain

pub mask_from-plain :
    (seen s : Bytes) (b : ℕ)
    → (b == b'=') ≡ false
    → mask_from false seen (b ∷ s) ≡ b ∷ mask_from false (seen ++ (b ∷ [])) s
unfolding mask_from
mask_from-plain seen s b h = rw h

pub mask_from-equals :
    (seen s : Bytes)
    → mask_from false seen (b'=' ∷ s) ≡ (
        if is_credential_field seen
        then b'=' ∷ (credential_mask ++ mask_from true (seen ++ (b'=' ∷ [])) s)
        else b'=' ∷ mask_from false (seen ++ (b'=' ∷ [])) s)
unfolding mask_from
mask_from-equals seen s = refl

pub mask_from-skip :
    (seen s : Bytes) (b : ℕ)
    → is_stop b ≡ false
    → mask_from true seen (b ∷ s) ≡ mask_from true (seen ++ (b ∷ [])) s
unfolding mask_from
mask_from-skip seen s b h = rw h

-- A value ends at a stop byte, which is scanned like any other.
pub mask_from-stop :
    (seen s : Bytes) (b : ℕ)
    → is_stop b ≡ true
    → mask_from true seen (b ∷ s) ≡ mask_from false seen (b ∷ s)
unfolding mask_from is_stop
mask_from-stop seen s b h = ground arith

-- Up to the next '=', if there is one, the text is copied.
abbrev pub NextEquals : Bytes → Type 0
NextEquals s =
    ((index_equals s ≡ none) × ((seen : Bytes) → mask_from false seen s ≡ s))
    ⊎ ((a : Bytes) × (b : Bytes) × (s ≡ a ++ (b'=' ∷ b))
        × (index_equals s ≡ some (length a))
        × ((seen : Bytes) → mask_from false seen s ≡ a ++ mask_from false (seen ++ a) (b'=' ∷ b)))

pub NextEquals-cons : (b : ℕ) (s : Bytes) → (b == b'=') ≡ false → NextEquals s → NextEquals (b ∷ s)
unfolding index_equals
NextEquals-cons b s h (inl (absent, same)) =
    inl (
      rw (h, absent),
      λ seen. mask_from-plain seen s b h ∙ ap (λ l. b ∷ l) (same (seen ++ (b ∷ []))),
    )
NextEquals-cons b s h (inr (x, y, split, found, same)) = inr (
  b ∷ x,
  y,
  ap (λ l. b ∷ l) split,
  rw (h, found),
  λ seen. mask_from-plain seen s b h ∙ ap (λ l. b ∷ l) (same (seen ++ (b ∷ [])) ∙ rw append_assoc),
)

pub NextEquals-all : (s : Bytes) → NextEquals s
unfolding index_equals mask_from
NextEquals-all [] = inl (refl, λ seen. refl)
NextEquals-all (b ∷ s) = elim (Bool-cases (b == b'=')) [
  | inl hit ↦
      let e : b ≡ b'=' = (==_iff b b'=').0 hit in
      inr (
        [],
        s,
        ap (λ c. c ∷ s) e,
        rw hit,
        λ seen. rw append-nil (ap (λ c. mask_from false seen (c ∷ s)) e),
      )
  | inr miss ↦ NextEquals-cons b s miss (NextEquals-all s)
]

-- A value is left out up to where `value_end` says.
abbrev pub ValueEnd : Bytes → Type 0
ValueEnd s =
    (a : Bytes) × (b : Bytes) × (s ≡ a ++ b)
    × ((index_stop s ≡ some (length a)) ⊎ ((index_stop s ≡ none) × (b ≡ [])))
    × ((seen : Bytes) → mask_from true seen s ≡ mask_from false (seen ++ a) b)

pub ValueEnd-cons : (b : ℕ) (s : Bytes) → is_stop b ≡ false → ValueEnd s → ValueEnd (b ∷ s)
unfolding index_stop
ValueEnd-cons b s h (x, y, split, found, same) = (
  b ∷ x,
  y,
  ap (λ l. b ∷ l) split,
  elim found [ inl e ↦ inl (rw (h, e)) | inr e ↦ inr (rw (h, e.0), e.1) ],
  λ seen. mask_from-skip seen s b h ∙ same (seen ++ (b ∷ [])) ∙ rw append_assoc,
)

pub ValueEnd-all : (s : Bytes) → ValueEnd s
unfolding index_stop mask_from
ValueEnd-all [] = ([], [], refl, inr (refl, refl), λ seen. refl)
ValueEnd-all (b ∷ s) = elim (Bool-cases (is_stop b)) [
  | inl hit ↦ ([], b ∷ s, refl, inl (rw hit), λ seen. mask_from-stop seen s b hit ∙ rw append-nil)
  | inr miss ↦ ValueEnd-cons b s miss (ValueEnd-all s)
]
