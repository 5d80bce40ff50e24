-- ===== src/Honeypot/Resp.antt =====
-- internal/honeypot/redis_handler.go, parseRESP: the protocol of Redis.
pub mod Arrays
use phantom_grid.Prelude.{
  ℕ, zero, suc, ◌+◌, Bool, true, false, ◌||◌, List, [], ◌∷◌, ◌++◌, ◌==◌, if◌then◌else◌, is_empty,
}
use phantom_grid.Prelude.Bytes.{Bytes, codes, has_prefix, fields}

unfoldable pub push_head : ℕ → List Bytes → List Bytes
push_head c [] = (c ∷ []) ∷ []
push_head c (l ∷ ls) = (c ∷ l) ∷ ls

-- strings.Split(input, "\r\n"); `cr` says that the byte before was a carriage return that has not
-- been put out yet.
unfoldable pub split_from : Bool → Bytes → List Bytes
split_from false [] = [] ∷ []
split_from true [] = (13 ∷ []) ∷ []
split_from false (c ∷ cs) =
    let held = split_from true cs in
    let rest = split_from false cs in if c == 13 then held else push_head c rest
split_from true (c ∷ cs) =
    let held = split_from true cs in
    let rest = split_from false cs in
    if c == 10 then [] ∷ rest else push_head 13 (if c == 13 then held else push_head c rest)

unfoldable pub split_lines : Bytes → List Bytes
split_lines input = split_from false input

-- line[0] == c
unfoldable pub starts_with : ℕ → Bytes → Bool
starts_with c [] = false
starts_with c (b ∷ bs) = b == c

-- A line that is no array and no length.
unfoldable pub simple_parts : Bytes → List Bytes
simple_parts line =
    if has_prefix line (codes "+") || has_prefix line (codes "-")
    then drop_first line ∷ []
    else fields line
  where
    drop_first : Bytes → Bytes
    drop_first [] = []
    drop_first (b ∷ bs) = bs

-- The two loops of parseRESP, over the lines from the current one on. `count` is how many rounds
-- the inner loop has left, and `value` says that the current line is the text of a string. `scan`
-- is the number that fmt.Sscanf reads behind the star, 0 where there is none or a negative one.
unfoldable pub resp_from : (Bytes → ℕ) → Bool → ℕ → List Bytes → List Bytes
resp_from scan value count [] = []
resp_from scan true count (line ∷ rest) = line ∷ resp_from scan false count rest
resp_from scan false (suc count) (line ∷ rest) = resp_from scan (starts_with 36 line) count rest
resp_from scan false zero (line ∷ rest) =
    let plain = resp_from scan false 0 rest in
    let elements = resp_from scan false (scan line) rest in
    let string = resp_from scan true 0 rest in
    if is_empty line
    then plain
    else if starts_with 42 line
    then elements
    else if starts_with 36 line
    then string
    else simple_parts line ++ plain

-- parseRESP
unfoldable pub parse_resp : (Bytes → ℕ) → Bytes → List Bytes
parse_resp scan input =
    let parts = resp_from scan false 0 (split_lines input) in
    if is_empty parts then fields input else parts
