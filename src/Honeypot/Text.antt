-- ===== src/Honeypot/Text.antt =====
-- What the honeypot uses of the packages `strings` and `fmt`, on ASCII text.
pub mod Joins
pub mod Cases
use phantom_grid.Prelude.{
  ℕ, ◌+◌, ◌-◌, Bool, true, false, ◌||◌, List, [], ◌∷◌, ◌++◌, String, ◌==◌, leb, if◌then◌else◌,
  length, drop, replicate, is_empty,
}
use phantom_grid.Prelude.Bytes.{Bytes, codes, bytes_eq, has_prefix, to_upper}

abbrev pub slash : ℕ
slash = 47

abbrev pub newline : Bytes
newline = 10 ∷ []

-- The pieces, one after another.
abbrev pub glue : List Bytes → Bytes
glue [] = []
glue (a ∷ more) = a ++ glue more

-- Each line with the end that the network has, or that a file has.
abbrev pub screen : List String → Bytes
screen [] = []
screen (l ∷ ls) = codes l ++ 13 ∷ 10 ∷ screen ls

abbrev pub text_lines : List String → Bytes
text_lines [] = []
text_lines (l ∷ ls) = codes l ++ 10 ∷ text_lines ls

-- Whether a case of a switch has the string.
unfoldable pub one_of : Bytes → List String → Bool
one_of s [] = false
one_of s (n ∷ names) = bytes_eq s (codes n) || one_of s names

-- switch s { case names: ... default: ... }
unfoldable pub switch {ℓ} : {A : Type ℓ} → Bytes → List (List String × A) → A → A
switch s [] d = d
switch s ((names, a) ∷ cases) d = if one_of s names then a else switch s cases d

-- The first argument is there and is this one.
unfoldable pub first_is : List Bytes → Bytes → Bool
first_is [] s = false
first_is (a ∷ more) s = bytes_eq a s

-- The second argument, or "".
unfoldable pub second_or_empty : List Bytes → Bytes
second_or_empty (a ∷ b ∷ more) = b
second_or_empty _ = []

abbrev pub prepend : ℕ → List Bytes → List Bytes
prepend c [] = (c ∷ []) ∷ []
prepend c (w ∷ ws) = (c ∷ w) ∷ ws

-- strings.Split(s, sep), for a separator of one byte
unfoldable pub split_on : ℕ → Bytes → List Bytes
split_on sep [] = [] ∷ []
split_on sep (c ∷ s) = let rest = split_on sep s in if c == sep then [] ∷ rest else prepend c rest

-- strings.Join(words, sep)
unfoldable pub join : Bytes → List Bytes → Bytes
join sep [] = []
join sep (w ∷ []) = w
join sep (w ∷ ws) = w ++ (sep ++ join sep ws)

-- The words but the last one: words[:len(words)-1]
unfoldable pub init {ℓ} : {A : Type ℓ} → List A → List A
init [] = []
init (w ∷ []) = []
init (w ∷ ws) = w ∷ init ws

-- strings.Trim(s, c), for a cutset of one byte
unfoldable pub trim_start : ℕ → Bytes → Bytes
trim_start c [] = []
trim_start c (x ∷ s) = if x == c then trim_start c s else x ∷ s

unfoldable pub trim_end : ℕ → Bytes → Bytes
trim_end c [] = []
trim_end c (x ∷ s) =
    let rest = trim_end c s in if is_empty rest then (if x == c then [] else x ∷ []) else x ∷ rest

unfoldable pub trim : ℕ → Bytes → Bytes
trim c s = trim_end c (trim_start c s)

-- strings.TrimPrefix(s, p)
unfoldable pub trim_prefix : Bytes → Bytes → Bytes
trim_prefix s p = if has_prefix s p then drop (length p) s else s

-- fmt's width: blanks in front.
unfoldable pub pad_left : ℕ → Bytes → Bytes
pad_left width s = replicate (width - length s) 32 ++ s

-- strings.Title(s): a letter behind a byte that is no letter, no digit and no underscore.
in_word : ℕ → Bool
in_word c =
    (if leb 48 c then leb c 57 else false)
    || ((if leb 65 c then leb c 90 else false)
        || ((if leb 97 c then leb c 122 else false) || c == 95))

title_from : Bool → Bytes → Bytes
unfolding in_word
title_from inside [] = []
title_from inside (c ∷ s) =
    let rest = title_from (in_word c) s in if inside then c ∷ rest else to_upper (c ∷ []) ++ rest

unfoldable pub title : Bytes → Bytes
unfolding title_from
title s = title_from false s

-- The part of an address in front of the first colon: strings.Split(remote, ":")[0]
unfoldable pub before_colon : Bytes → Bytes
before_colon [] = []
before_colon (c ∷ s) = let rest = before_colon s in if c == 58 then [] else c ∷ rest
