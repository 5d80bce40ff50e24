-- ===== src/Honeypot/Text/Joins.antt =====
-- strings.Split and strings.Trim of words that strings.Join has put together with one byte.
use phantom_grid.Prelude.{
  ℕ, false, List, [], ◌∷◌, ◌++◌, ◌≡◌, refl, sym, ap, ◌∙◌, arith, ◌==◌, is_empty, append-nil,
}
use phantom_grid.Prelude.Bytes.{Bytes}
use phantom_grid.Honeypot.Text.{split_on, join, trim_start, trim_end, trim}

module _ (c : ℕ) where
  -- A word without the byte.
  abbrev pub Without : Bytes → Type 0
  Without [] = Unit
  Without (x ∷ w) = ((x == c) ≡ false) × Without w

  -- Words that are not empty, and have no such byte.
  abbrev pub AreWords : List Bytes → Type 0
  AreWords [] = Unit
  AreWords (w ∷ ws) = (is_empty w ≡ false) × Without w × AreWords ws

  abbrev joined : List Bytes → Bytes
  joined ws = join (c ∷ []) ws

  split_on-Without : (w : Bytes) → Without w → split_on c w ≡ w ∷ []
  unfolding split_on
  split_on-Without [] h = refl
  split_on-Without (x ∷ w) (e, h) = rw (e, split_on-Without w h)

  split_on-append : (w s : Bytes) → Without w → split_on c (w ++ c ∷ s) ≡ w ∷ split_on c s
  unfolding split_on
  split_on-append [] s h = ground arith
  split_on-append (x ∷ w) s (e, h) = rw (e, split_on-append w s h)

  pub split_on-join :
      (w : Bytes) (ws : List Bytes) → AreWords (w ∷ ws) → split_on c (joined (w ∷ ws)) ≡ w ∷ ws
  unfolding join
  split_on-join w [] (e, h, _) = split_on-Without w h
  split_on-join w (v ∷ ws) (e, h, hs) =
      split_on-append w (joined (v ∷ ws)) h ∙ ap (λ r. w ∷ r) (split_on-join v ws hs)

  trim_start-Without :
      (w s : Bytes) → is_empty w ≡ false → Without w → trim_start c (w ++ s) ≡ w ++ s
  unfolding trim_start
  trim_start-Without [] s e h = absurd (ground arith)
  trim_start-Without (x ∷ w) s e (n, h) = rw n

  trim_end-Without : (w : Bytes) → Without w → trim_end c w ≡ w
  unfolding trim_end
  trim_end-Without [] h = refl
  trim_end-Without (x ∷ []) (n, h) = rw n
  trim_end-Without (x ∷ y ∷ w) (n, h) = rw (trim_end-Without (y ∷ w) h)

  trim_end-append :
      (a b : Bytes)
      → is_empty (trim_end c b) ≡ false
      → (trim_end c (a ++ b) ≡ a ++ trim_end c b) × (is_empty (trim_end c (a ++ b)) ≡ false)
  unfolding trim_end
  trim_end-append [] b h = (refl, h)
  trim_end-append (x ∷ a) b h =
      let (e, n) = trim_end-append a b h in (rw n (ap (λ r. x ∷ r) e), rw n)

  trim_end-after_separator :
      (s : Bytes)
      → trim_end c s ≡ s
      → is_empty s ≡ false
      → (trim_end c (c ∷ s) ≡ c ∷ s) × (is_empty (trim_end c (c ∷ s)) ≡ false)
  unfolding trim_end
  trim_end-after_separator s t n = rw (t, n) (refl, refl)

  pub trim_end-join :
      (w : Bytes) (ws : List Bytes)
      → AreWords (w ∷ ws)
      → (trim_end c (joined (w ∷ ws)) ≡ joined (w ∷ ws)) × (is_empty (joined (w ∷ ws)) ≡ false)
  unfolding join
  trim_end-join w [] (e, h, _) = (trim_end-Without w h, e)
  trim_end-join w (v ∷ ws) (e, h, hs) =
      let (t, n) = trim_end-join v ws hs in
      let (q, m) = trim_end-after_separator (joined (v ∷ ws)) t n in
      let (p, k) = trim_end-append w (c ∷ joined (v ∷ ws)) m in
      let whole = p ∙ ap (λ r. w ++ r) q in (whole, rw whole at k)

  trim_start-separator : (s : Bytes) → trim_start c (c ∷ s) ≡ trim_start c s
  unfolding trim_start
  trim_start-separator s = ground arith

  trim_start-join :
      (w : Bytes) (ws : List Bytes)
      → AreWords (w ∷ ws)
      → trim_start c (joined (w ∷ ws)) ≡ joined (w ∷ ws)
  unfolding join
  trim_start-join w [] (e, h, _) =
      ap (trim_start c) (sym (append-nil w)) ∙ trim_start-Without w [] e h ∙ append-nil w
  trim_start-join w (v ∷ ws) (e, h, _) = trim_start-Without w (c ∷ joined (v ∷ ws)) e h

  -- A separator in front is trimmed off.
  pub trim-join :
      (w : Bytes) (ws : List Bytes)
      → AreWords (w ∷ ws)
      → trim c (c ∷ joined (w ∷ ws)) ≡ joined (w ∷ ws)
  unfolding trim
  trim-join w ws h =
      ap (trim_end c) (trim_start-separator (joined (w ∷ ws)) ∙ trim_start-join w ws h)
      ∙ (trim_end-join w ws h).0
