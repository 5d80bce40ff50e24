-- ===== src/Prelude/Bytes.antt =====
-- Go's strings and byte slices are lists of bytes. What the source uses of the packages `bytes`
-- and `strings`, on ASCII text.
use Prim.Native.Nat.{ℕ, zero, suc, ◌+◌, ◌-◌, ◌/◌, ◌%◌}
use Prim.Native.Char.{code}
use Prim.Native.String.{String}
use mathlib.Core.Path.{◌≡◌, refl, sym, ap, ◌∙◌}
use mathlib.Core.Logic.{◌↔◌}
use mathlib.Core.Bool.{Bool, true, false, ◌&&◌, ◌||◌}
use mathlib.Core.List.{List, [], ◌∷◌, ◌++◌}
use mathlib.Core.Option.{Option, none, some}
use native.Mathlib.Omega.{arith}
use phantom_grid.Prelude.Tests.{leb, ltb, ◌==◌, if◌then◌else◌}
use phantom_grid.Prelude.Lists.{is_empty}

abbrev pub Bytes : Type 0
Bytes = List ℕ

-- The bytes of an ASCII literal.
abbrev pub codes : String → Bytes
codes String.[] = []
codes (String.◌∷◌ c s) = code c ∷ codes s

-- `a == b` on strings.
unfoldable pub bytes_eq : Bytes → Bytes → Bool
bytes_eq [] [] = true
bytes_eq (x ∷ a) (y ∷ b) = x == y && bytes_eq a b
bytes_eq _ _ = false

pub bytes_eq_iff : (a b : Bytes) → (bytes_eq a b ≡ true) ↔ (a ≡ b)
unfolding bytes_eq
bytes_eq_iff (x ∷ a) (y ∷ b) = ground (arith, bytes_eq_iff a b)
bytes_eq_iff _ _ = ground arith

pub bytes_eq_refl : (a : Bytes) → bytes_eq a a ≡ true
bytes_eq_refl a = (bytes_eq_iff a a).1 refl

-- strings.HasPrefix(s, p)
unfoldable pub has_prefix : Bytes → Bytes → Bool
has_prefix s [] = true
has_prefix [] (y ∷ p) = false
has_prefix (x ∷ s) (y ∷ p) = x == y && has_prefix s p

-- strings.Contains(s, p)
unfoldable pub contains : Bytes → Bytes → Bool
unfolding has_prefix
contains [] p = has_prefix [] p
contains (x ∷ s) p = has_prefix (x ∷ s) p || contains s p

-- strings.Index(s, p): the position of the first occurrence of `p`.
unfoldable pub index_of : Bytes → Bytes → Option ℕ
unfolding has_prefix
index_of [] p = if is_empty p then some 0 else none
index_of (x ∷ s) p =
    let rest = index_of s p in
    if has_prefix (x ∷ s) p then some 0 else elim rest [ none ↦ none | some i ↦ some (i + 1) ]

-- unicode.IsSpace on ASCII
unfoldable pub is_space : ℕ → Bool
is_space c = (leb 9 c && leb c 13) || c == 32

trim_left : Bytes → Bytes
unfolding is_space
trim_left [] = []
trim_left (c ∷ s) = if is_space c then trim_left s else c ∷ s

-- Drops the white space at the end: what is left of a tail of blanks is empty.
trim_right : Bytes → Bytes
unfolding is_space
trim_right [] = []
trim_right (c ∷ s) = let rest = trim_right s in if is_space c && is_empty rest then [] else c ∷ rest

-- strings.TrimSpace(s)
unfoldable pub trim_space : Bytes → Bytes
unfolding trim_left trim_right
trim_space s = trim_right (trim_left s)

-- The text begins with a blank.
blank_head : Bytes → Bool
blank_head [] = false
blank_head (c ∷ s) = is_space c

blank_head-trim_left : (s : Bytes) → blank_head (trim_left s) ≡ false
unfolding blank_head trim_left
blank_head-trim_left [] = refl
blank_head-trim_left (c ∷ s) = ground (arith, blank_head-trim_left s)

blank_head-trim_right : (s : Bytes) → blank_head s ≡ false → blank_head (trim_right s) ≡ false
unfolding blank_head trim_right
blank_head-trim_right [] h = h
blank_head-trim_right (c ∷ s) h = rw h h

trim_left_kept : (s : Bytes) → blank_head s ≡ false → trim_left s ≡ s
unfolding blank_head trim_left
trim_left_kept [] h = refl
trim_left_kept (c ∷ s) h = rw h

trim_right-idempotent : (s : Bytes) → trim_right (trim_right s) ≡ trim_right s
unfolding trim_right
trim_right-idempotent [] = refl
trim_right-idempotent (c ∷ s) = ground (arith, trim_right-idempotent s)

pub trim_space-idempotent : (s : Bytes) → trim_space (trim_space s) ≡ trim_space s
unfolding trim_space
trim_space-idempotent s =
    ap trim_right (
      trim_left_kept (trim_right (trim_left s))
        (blank_head-trim_right (trim_left s) (blank_head-trim_left s)))
    ∙ trim_right-idempotent (trim_left s)

trim_right-append :
    (a b : Bytes)
    → trim_right b ≡ b
    → is_empty b ≡ false
    → (trim_right (a ++ b) ≡ a ++ b) × (is_empty (a ++ b) ≡ false)
unfolding trim_right
trim_right-append [] b e h = (e, h)
trim_right-append (x ∷ a) b e h =
    let (t, n) = trim_right-append a b e h in (rw (t, n) (ground arith), refl)

-- In front of a trimmed text, one that does not begin with a blank.
pub trim_space-append :
    (c : ℕ) (a b : Bytes)
    → is_space c ≡ false
    → trim_space b ≡ b
    → is_empty b ≡ false
    → trim_space (c ∷ a ++ b) ≡ c ∷ a ++ b
unfolding trim_space trim_left
trim_space-append c a b n e h =
    let kept = ap trim_right (sym e) ∙ trim_right-idempotent (trim_left b) ∙ e in
    rw n (trim_right-append (c ∷ a) b kept h).0

fields_onto : Bytes → Bytes → List Bytes
unfolding is_space
fields_onto word [] = if is_empty word then [] else word ∷ []
fields_onto word (c ∷ s) =
    let blank = fields_onto [] s in
    let more = fields_onto (word ++ c ∷ []) s in
    if is_space c then (if is_empty word then blank else word ∷ blank) else more

-- strings.Fields(s)
unfoldable pub fields : Bytes → List Bytes
unfolding fields_onto
fields s = fields_onto [] s

upper_byte : ℕ → ℕ
upper_byte c = if leb b'a' c && leb c b'z' then c - 32 else c

lower_byte : ℕ → ℕ
lower_byte c = if leb b'A' c && leb c b'Z' then c + 32 else c

-- strings.ToUpper(s), strings.ToLower(s)
unfoldable pub to_upper : Bytes → Bytes
unfolding upper_byte
to_upper [] = []
to_upper (c ∷ s) = upper_byte c ∷ to_upper s

unfoldable pub to_lower : Bytes → Bytes
unfolding lower_byte
to_lower [] = []
to_lower (c ∷ s) = lower_byte c ∷ to_lower s

-- The decimal digits of a number, in front of `acc`. The fuel is the number itself and one more,
-- so it never runs out.
decimal_onto : ℕ → ℕ → Bytes → Bytes
decimal_onto zero n acc = acc
decimal_onto (suc fuel) n acc =
    let d = b'0' + n % 10 in
    let rest = decimal_onto fuel (n / 10) (d ∷ acc) in if ltb n 10 then d ∷ acc else rest

-- fmt's %d
unfoldable pub decimal : ℕ → Bytes
unfolding decimal_onto
decimal n = decimal_onto (n + 1) n []

hex_digit : ℕ → ℕ
hex_digit n = if ltb n 10 then b'0' + n else b'a' + (n - 10)

-- hex.EncodeToString(s)
unfoldable pub hex_encode : Bytes → Bytes
unfolding hex_digit
hex_encode [] = []
hex_encode (b ∷ s) = hex_digit (b / 16) ∷ hex_digit (b % 16) ∷ hex_encode s
