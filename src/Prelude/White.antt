-- ===== src/Prelude/White.antt =====
-- bytes.TrimSpace on bytes that need not be text: white space is that of Unicode, in UTF-8. Where no
-- such encoding begins, or ends, the code point there is no white space, whatever the bytes are.
use Prim.Native.Nat.{ℕ, zero, suc, ◌-◌, ◌≤◌}
use mathlib.Core.Path.{◌≡◌, refl, sym, ap, ◌∙◌}
use mathlib.Core.Logic.{◌↔◌, inl, inr}
use mathlib.Core.Bool.{Bool, false}
use mathlib.Core.List.{List, [], ◌∷◌, map, reverse, reverse-cons, reverse-reverse}
use native.Mathlib.Omega.{arith}
use phantom_grid.Prelude.Tests.{◌==◌, if◌then◌else◌, Bool-cases}
use phantom_grid.Prelude.Lists.{length, length-append, is_empty, any}
use phantom_grid.Prelude.Bytes.{Bytes, has_prefix}

-- unicode.IsSpace, in UTF-8: U+0009 to U+000D, U+0020, U+0085, U+00A0, U+1680, U+2000 to U+200A,
-- U+2028, U+2029, U+202F, U+205F and U+3000.
abbrev pub white_space : List Bytes
white_space =
    (9 ∷ [])
    ∷ (10 ∷ [])
    ∷ (11 ∷ [])
    ∷ (12 ∷ [])
    ∷ (13 ∷ [])
    ∷ (32 ∷ [])
    ∷ (0xc2 ∷ 0x85 ∷ [])
    ∷ (0xc2 ∷ 0xa0 ∷ [])
    ∷ (0xe1 ∷ 0x9a ∷ 0x80 ∷ [])
    ∷ (0xe2 ∷ 0x80 ∷ 0x80 ∷ [])
    ∷ (0xe2 ∷ 0x80 ∷ 0x81 ∷ [])
    ∷ (0xe2 ∷ 0x80 ∷ 0x82 ∷ [])
    ∷ (0xe2 ∷ 0x80 ∷ 0x83 ∷ [])
    ∷ (0xe2 ∷ 0x80 ∷ 0x84 ∷ [])
    ∷ (0xe2 ∷ 0x80 ∷ 0x85 ∷ [])
    ∷ (0xe2 ∷ 0x80 ∷ 0x86 ∷ [])
    ∷ (0xe2 ∷ 0x80 ∷ 0x87 ∷ [])
    ∷ (0xe2 ∷ 0x80 ∷ 0x88 ∷ [])
    ∷ (0xe2 ∷ 0x80 ∷ 0x89 ∷ [])
    ∷ (0xe2 ∷ 0x80 ∷ 0x8a ∷ [])
    ∷ (0xe2 ∷ 0x80 ∷ 0xa8 ∷ [])
    ∷ (0xe2 ∷ 0x80 ∷ 0xa9 ∷ [])
    ∷ (0xe2 ∷ 0x80 ∷ 0xaf ∷ [])
    ∷ (0xe2 ∷ 0x81 ∷ 0x9f ∷ [])
    ∷ (0xe3 ∷ 0x80 ∷ 0x80 ∷ [])
    ∷ []

-- The same from the end of a text.
abbrev pub white_ends : List Bytes
white_ends = map reverse white_space

-- The size of the first of the words that the text begins with, or 0.
unfoldable pub match_size : List Bytes → Bytes → ℕ
match_size [] s = 0
match_size (w ∷ ws) s = if has_prefix s w then length w else match_size ws s

-- The text without the words at its beginning, behind the next `k` bytes.
unfoldable pub skip : List Bytes → ℕ → Bytes → Bytes
skip ws k [] = []
skip ws (suc k) (c ∷ s) = skip ws k s
skip ws zero (c ∷ s) =
    let n = match_size ws (c ∷ s) in let rest = skip ws (n - 1) s in if n == 0 then c ∷ s else rest

-- bytes.TrimSpace(s)
unfoldable pub trim_white : Bytes → Bytes
trim_white s = reverse (skip white_ends 0 (reverse (skip white_space 0 s)))

match_size_none :
    (ws : List Bytes) (s : Bytes)
    → any ws is_empty ≡ false
    → (match_size ws s ≡ 0) ↔ (any ws (has_prefix s) ≡ false)
unfolding match_size
match_size_none [] s h = (λ _. refl, λ _. refl)
match_size_none ((b ∷ w) ∷ ws) s h = elim (Bool-cases (has_prefix s (b ∷ w))) [
  | inl e ↦ rw e (λ k. absurd (omega (arith, k)), λ k. absurd (ground (arith, k)))
  | inr e ↦ rw e (match_size_none ws s h)
]
match_size_none ([] ∷ ws) s h = absurd (ground (arith, h))

length-skip_le : (ws : List Bytes) (k : ℕ) (s : Bytes) → length (skip ws k s) ≤ length s
unfolding skip
length-skip_le ws k [] = omega arith
length-skip_le ws (suc k) (c ∷ s) = omega (arith, length-skip_le ws k s)
length-skip_le ws zero (c ∷ s) = ground (arith, length-skip_le ws (match_size ws (c ∷ s) - 1) s)

-- Nothing is skipped exactly where no word begins.
skip_same : (ws : List Bytes) (s : Bytes) → match_size ws s ≡ 0 → skip ws 0 s ≡ s
unfolding skip
skip_same ws [] h = refl
skip_same ws (c ∷ s) h = rw h refl

length-skip :
    (ws : List Bytes) (s : Bytes)
    → match_size ws [] ≡ 0
    → length s ≤ length (skip ws 0 s)
    → match_size ws s ≡ 0
unfolding skip
length-skip ws [] none h = none
length-skip ws (c ∷ s) none h = ground (arith, h, length-skip_le ws (match_size ws (c ∷ s) - 1) s)

length-reverse : (s : Bytes) → length (reverse s) ≡ length s
length-reverse [] = refl
length-reverse (c ∷ s) =
    ap length (reverse-cons c s)
    ∙ length-append (reverse s) (c ∷ [])
    ∙ omega (arith, length-reverse s)

-- There is white space at the beginning, or at the end.
abbrev pub begins_white : Bytes → Bool
begins_white s = any white_space (has_prefix s)

abbrev pub ends_white : Bytes → Bool
ends_white s = any white_ends (has_prefix (reverse s))

-- TrimSpace keeps exactly the texts that neither begin nor end with white space.
pub trim_white_same :
    (s : Bytes) → (trim_white s ≡ s) ↔ ((begins_white s ≡ false) × (ends_white s ≡ false))
unfolding trim_white
trim_white_same s =
    let front = skip white_space 0 s in
    let back = skip white_ends 0 (reverse front) in
    let begins = match_size_none white_space s refl in
    let ends = match_size_none white_ends (reverse s) refl in
    (
      λ e.
          let sizes = ap length e in
          let n = length-reverse back in
          let m = length-reverse front in
          let less = length-skip_le white_space 0 s in
          let less' = length-skip_le white_ends 0 (reverse front) in
          let first =
            length-skip white_space s (unfold match_size has_prefix in refl) (omega arith) in
          let same = skip_same white_space s first in
          let last =
            length-skip white_ends (reverse front) (unfold match_size has_prefix in refl)
              (omega arith) in
          (begins.0 first, ends.0 (ap (λ t. match_size white_ends (reverse t)) (sym same) ∙ last)),
      λ (b, f).
          let same = skip_same white_space s (begins.1 b) in
          let same' = skip_same white_ends (reverse s) (ends.1 f) in
          ap (λ t. reverse (skip white_ends 0 (reverse t))) same
          ∙ ap reverse same'
          ∙ reverse-reverse s,
    )
