-- ===== src/Honeypot/Resp/Arrays.antt =====
-- What parseRESP makes of the protocol's arrays.
use phantom_grid.Prelude.{
  ℕ, suc, Bool, true, false, ◌||◌, List, [], ◌∷◌, ◌++◌, ◌≡◌, refl, length, ap, ◌∙◌, ◌==◌, ==_iff,
  arith, inl, inr, Bool-cases, append-nil, sym,
}
use phantom_grid.Prelude.Bytes.{Bytes}
use phantom_grid.Honeypot.Resp.{
  push_head, split_from, split_lines, resp_from, starts_with, parse_resp,
}

-- There is a line end in the text; `cr` says that a carriage return stands in front of it.
abbrev pub ends_line : Bool → Bytes → Bool
ends_line cr [] = false
ends_line false (c ∷ cs) = ends_line (c == 13) cs
ends_line true (c ∷ cs) = c == 10 || ends_line (c == 13) cs

abbrev held : Bool → Bytes → Bytes
held false text = text
held true text = 13 ∷ text

-- A text without a line end, in front of lines that begin with an empty one.
module _ (tail : Bytes) (more : List Bytes) (plain : split_from false tail ≡ [] ∷ more)
    (cut : split_from true tail ≡ (13 ∷ []) ∷ more) where
  split_from-cons :
      (c : ℕ) (cs : Bytes)
      → (ends_line true cs ≡ false → split_from true (cs ++ tail) ≡ (13 ∷ cs) ∷ more)
      → (ends_line false cs ≡ false → split_from false (cs ++ tail) ≡ cs ∷ more)
      → ends_line (c == 13) cs ≡ false
      → split_from false ((c ∷ cs) ++ tail) ≡ (c ∷ cs) ∷ more
  unfolding split_from push_head
  split_from-cons c cs f g h = elim (Bool-cases (c == 13)) [
    | inl e ↦ rw e (f (rw e at h) ∙ ap (λ k. (k ∷ cs) ∷ more) (sym ((==_iff c 13).0 e)))
    | inr e ↦ rw e (ap (push_head c) (g (rw e at h)))
  ]

  split_from-append :
      (cr : Bool) (text : Bytes)
      → ends_line cr text ≡ false
      → split_from cr (text ++ tail) ≡ held cr text ∷ more
  unfolding split_from push_head
  split_from-append false [] h = plain
  split_from-append true [] h = cut
  split_from-append false (c ∷ cs) h =
      split_from-cons c cs (split_from-append true cs) (split_from-append false cs) h
  split_from-append true (c ∷ cs) h = elim (Bool-cases (c == 10)) [
    | inl e ↦ absurd (ground (arith, rw e at h))
    | inr e ↦
        let step =
          split_from-cons c cs (split_from-append true cs) (split_from-append false cs)
            (rw e at h) in
        rw e (ap (push_head 13) step)
  ]

split_from-line :
    (text rest : Bytes)
    → ends_line false text ≡ false
    → split_from false (text ++ 13 ∷ 10 ∷ rest) ≡ text ∷ split_from false rest
unfolding split_from push_head
split_from-line text rest h =
    split_from-append (13 ∷ 10 ∷ rest) (split_from false rest) refl refl false text h

split_from-last : (text : Bytes) → ends_line false text ≡ false → split_from false text ≡ text ∷ []
unfolding split_from
split_from-last text h =
    ap (split_from false) (sym (append-nil text)) ∙ split_from-append [] [] refl refl false text h

-- The text of an array of strings, as handleRedis hands it on: for each string the line with its
-- length and its own line, of which the last one has no end.
abbrev pub strings_text : (Bytes → Bytes) → List Bytes → Bytes
strings_text size [] = []
strings_text size (s ∷ []) = (36 ∷ size s) ++ 13 ∷ 10 ∷ s
strings_text size (s ∷ more) = (36 ∷ size s) ++ 13 ∷ 10 ∷ (s ++ 13 ∷ 10 ∷ strings_text size more)

abbrev string_lines : (Bytes → Bytes) → List Bytes → List Bytes
string_lines size [] = []
string_lines size (s ∷ ss) = (36 ∷ size s) ∷ s ∷ string_lines size ss

-- The strings, and the lines of their lengths, have no line end.
abbrev pub AllLines : (Bytes → Bytes) → List Bytes → Type 0
AllLines size [] = Unit
AllLines size (s ∷ ss) =
    (ends_line false (size s) ≡ false) × (ends_line false s ≡ false) × AllLines size ss

split_from-strings_text :
    (size : Bytes → Bytes) (s : Bytes) (ss : List Bytes)
    → AllLines size (s ∷ ss)
    → split_from false (strings_text size (s ∷ ss)) ≡ string_lines size (s ∷ ss)
split_from-strings_text size s [] (h, k, t) =
    split_from-line (36 ∷ size s) s h ∙ ap (λ l. (36 ∷ size s) ∷ l) (split_from-last s k)
split_from-strings_text size s (r ∷ rs) (h, k, t) =
    split_from-line (36 ∷ size s) _ h
    ∙ ap (λ l. (36 ∷ size s) ∷ l)
        (split_from-line s (strings_text size (r ∷ rs)) k
          ∙ ap (λ l. s ∷ l) (split_from-strings_text size r rs t))

array_strings :
    (scan : Bytes → ℕ) (size : Bytes → Bytes) (strings : List Bytes)
    → resp_from scan false (length strings) (string_lines size strings) ≡ strings
unfolding resp_from starts_with
array_strings scan size [] = refl
array_strings scan size (s ∷ ss) = ap (λ r. s ∷ r) (array_strings scan size ss)

resp_from-string_lines :
    (scan : Bytes → ℕ) (size : Bytes → Bytes) (number : Bytes) (strings : List Bytes)
    → scan (42 ∷ number) ≡ length strings
    → resp_from scan false 0 ((42 ∷ number) ∷ string_lines size strings) ≡ strings
unfolding resp_from starts_with
resp_from-string_lines scan size number strings e =
    ap (λ n. resp_from scan false n (string_lines size strings)) e ∙ array_strings scan size strings

-- parseRESP reads the text of an array, whose last line has no end since handleRedis trims it, back
-- into its strings, if there is at least one, and none of them has a CR LF. The conditions on the
-- protocol: the first line is a star and the number of strings, as fmt.Sscanf reads it, and neither
-- it nor a line of a length has a CR LF inside.
pub parse_resp-strings_text :
    (scan : Bytes → ℕ) (size : Bytes → Bytes) (number s : Bytes) (ss : List Bytes)
    → scan (42 ∷ number) ≡ suc (length ss)
    → ends_line false number ≡ false
    → AllLines size (s ∷ ss)
    → parse_resp scan ((42 ∷ number) ++ 13 ∷ 10 ∷ strings_text size (s ∷ ss)) ≡ s ∷ ss
unfolding parse_resp split_lines
parse_resp-strings_text scan size number s ss e plain lines =
    let text = (42 ∷ number) ++ 13 ∷ 10 ∷ strings_text size (s ∷ ss) in
    let parts : resp_from scan false 0 (split_from false text) ≡ s ∷ ss =
      ap (resp_from scan false 0) (
        split_from-line (42 ∷ number) _ plain
        ∙ ap (λ l. (42 ∷ number) ∷ l) (split_from-strings_text size s ss lines))
      ∙ resp_from-string_lines scan size number (s ∷ ss) e in
    rw parts refl
