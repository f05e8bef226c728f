-- ===== src/Sanitize/FoldLaws.antt =====
-- sanitize.go, foldEq: the runes that are taken for a character of a field name.
use mod_sec_intl_wace_lib.Base.{arith, suc, true, ℕ, ◌+◌, ◌↔◌, ◌≡◌, ◌≤◌, ◌⊎◌}
use mod_sec_intl_wace_lib.Sanitize.Fold.{fold_eq, fold_search, simple_fold}

-- The characters of the field names.
abbrev pub IsNameRune : ℕ → Type 0
IsNameRune c = ((b'a' ≤ c) × (c ≤ b'z')) ⊎ ((b'0' ≤ c) × (c ≤ b'9'))

-- What a rune must be to be taken for `c`.
abbrev pub Folds : ℕ → ℕ → Type 0
Folds r c =
    (r ≡ c)
    ⊎ ((b'A' ≤ r) × (r ≤ b'Z') × (r + 32 ≡ c))
    ⊎ ((c ≡ b's') × (r ≡ 0x17F))
    ⊎ ((c ≡ b'k') × (r ≡ 0x212A))

-- The loop of `foldEq` ends by its test before fuel 3 is spent.
fold_search-enough :
    (k r c : ℕ)
    → IsNameRune c
    → fold_search (suc (suc (suc k))) (simple_fold c) r c ≡ fold_search 3 (simple_fold c) r c
unfolding fold_search simple_fold
fold_search-enough k r c h = ground arith

-- foldEq takes a rune for a letter or digit exactly when it is that character, its upper case, the
-- long s for an s, or the Kelvin sign for a k.
pub fold_eq_iff : (r c : ℕ) → IsNameRune c → (fold_eq r c ≡ true) ↔ Folds r c
unfolding fold_eq
fold_eq_iff r c h = (λ e. ground arith, λ e. ground arith)
