-- ===== src/Honeypot/Http/Answers.antt =====
-- What handleHTTP answers.
use phantom_grid.Prelude.{
  ℕ, ◌+◌, ◌≤◌, true, ◌||◌, Option, none, some, List, [], ◌∷◌, ◌≡◌, refl, arith, inl, inr, ltb,
  if_either, length, slice, Bool-cases, Option-cases,
}
use phantom_grid.Prelude.Bytes.{Bytes, codes, bytes_eq, has_prefix, contains, index_of, fields}
use phantom_grid.Prelude.Partial.{Yields, >>=-Yields, slice-Yields}
use phantom_grid.Honeypot.Text.Cases.{switch-AllOf}
use phantom_grid.Honeypot.Http.{
  Exchange, blank_line, body_of, body_from, other_page, pages, page_for, answer_request,
  handle_http, first_line, request_lines,
}

length-has_prefix : (s p : Bytes) → has_prefix s p ≡ true → length p ≤ length s
unfolding has_prefix
length-has_prefix s [] h = omega arith
length-has_prefix [] (y ∷ p) h = absurd (ground (arith, h))
length-has_prefix (x ∷ s) (y ∷ p) h =
    let r : has_prefix s p ≡ true = ground (arith, h) in omega (arith, length-has_prefix s p r)

-- Where a text is found, all of it lies inside.
index_of-inside : (s p : Bytes) (i : ℕ) → index_of s p ≡ some i → i + length p ≤ length s
unfolding index_of
index_of-inside [] [] i h = ground (arith, h)
index_of-inside [] (y ∷ p) i h = absurd (ground (arith, h))
index_of-inside (x ∷ s) p i h = elim (Bool-cases (has_prefix (x ∷ s) p)) [
  | inl e ↦
      let n = length-has_prefix (x ∷ s) p e in
      let z : i ≡ 0 = ground (arith, rw e at h) in omega (arith, n, z)
  | inr e ↦ elim (Option-cases (index_of s p)) [
    | inl none_left ↦ absurd (ground (arith, rw (e, none_left) at h))
    | inr (j, q) ↦
        let n = index_of-inside s p j q in
        let z : i ≡ j + 1 = ground (arith, rw (e, q) at h) in omega (arith, n, z)
  ]
]

-- A page begins with the version of HTTP.
abbrev pub IsHttp : Bytes → Type 0
IsHttp page = has_prefix page (codes "HTTP/1.1 ") ≡ true

abbrev Pages : List Bytes × Bytes → Type 0
Pages answer = IsHttp answer.1

abbrev Anything {ℓ} : {A : Type ℓ} → A → Type 0
Anything a = Unit

body_from-Yields :
    (request : Bytes) (o : Option ℕ)
    → index_of request blank_line ≡ o
    → Yields Anything (body_from request o)
unfolding body_from
body_from-Yields request none e = tt
body_from-Yields request (some start) e =
    if_either (Yields Anything) (ltb 0 start)
      (λ _.
        >>=-Yields Anything Anything (slice (start + 4) (length request) request) _
          (slice-Yields (start + 4) (length request) request
            (index_of-inside request blank_line start e) (omega arith))
          (λ body _. tt))
      tt

module _ (t clock rfc3339 : Bytes) where
  other_page-Pages : (method path : Bytes) → Pages (other_page t method path)
  unfolding other_page has_prefix
  other_page-Pages method path =
      if_either Pages (bytes_eq method (codes "POST")) (λ _. refl)
        (if_either Pages
          (contains path (codes ".php")
            || (contains path (codes ".jsp") || contains path (codes ".asp")))
          (λ _. refl) refl)

  page_for-Pages : (method path : Bytes) → Pages (page_for t clock rfc3339 method path)
  unfolding page_for
  page_for-Pages method path =
      switch-AllOf Pages path (pages t clock rfc3339) (other_page t method path)
        (unfold has_prefix in
          (refl, (refl, (refl, (refl, (refl, (refl, (refl, (refl, (refl, (refl, tt)))))))))))
        (other_page-Pages method path)

  -- A request line with a method and a path is answered by a page, any other by nothing.
  abbrev pub Answered : List Bytes → Exchange → Type 0
  Answered (method ∷ target ∷ _) e = IsHttp e.response
  Answered _ e = e.response ≡ []

  answer_request-Answered :
      (request : Bytes) (lines : List Bytes) (line : Bytes) (parts : List Bytes)
      → Yields (Answered parts) (answer_request t clock rfc3339 request lines line parts)
  unfolding answer_request
  answer_request-Answered request lines line [] = refl
  answer_request-Answered request lines line (m ∷ []) = refl
  answer_request-Answered request lines line (m ∷ target ∷ more) =
      >>=-Yields Anything (Answered (m ∷ target ∷ more)) _ _
        (if_either (Yields Anything) (bytes_eq m (codes "POST"))
          (λ _. unfold body_of in body_from-Yields request (index_of request blank_line) refl) tt)
        (λ body _. page_for-Pages m _)

  -- handleHTTP panics on no request. It writes a page that begins with the version of HTTP where
  -- the first line has a method and a path, and nothing otherwise.
  pub handle_http-Answered :
      (request : Bytes)
      → Yields
          (Answered (fields (first_line (request_lines request))))
          (handle_http t clock rfc3339 request)
  unfolding handle_http
  handle_http-Answered request =
      let lines = request_lines request in
      answer_request-Answered request lines (first_line lines) (fields (first_line lines))
