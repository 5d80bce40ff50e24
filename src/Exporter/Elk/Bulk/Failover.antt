-- ===== src/Exporter/Elk/Bulk/Failover.antt =====
-- What the requests of one BulkIndex carry.
use phantom_grid.Prelude.{◌++◌, false, Option, List, [], ◌∷◌, ◌≡◌, if◌then◌else◌, Result, ok, err}
use phantom_grid.Prelude.Bytes.{Bytes}
use phantom_grid.Exporter.Elk.Bulk.{Request, Exchange, Network, BulkError, is_accepted}

-- The body of a request is read from its front: what an exchange leaves is the end of it.
pub record Consumes (network : Network) : Type 0 where
  pub left :
      (before : List Exchange) (r : Request)
      → (read_part : Bytes) × (r.body ≡ read_part ++ (network.exchange before r).1)

-- The last request, and no other, was answered by a status of success.
abbrev pub Succeeds : List Exchange → Type 0
Succeeds [] = ⊥
Succeeds (x ∷ xs) = if is_accepted x.answer then xs ≡ [] else Succeeds xs

-- No request was answered by a status of success.
abbrev pub Fails : List Exchange → Type 0
Fails [] = Unit
Fails (x ∷ xs) = (is_accepted x.answer ≡ false) × Fails xs

-- The result agrees with the answers.
abbrev pub Agrees : Result (Option BulkError) (Unit {0}) → List Exchange → Type 0
Agrees (ok u) xs = Succeeds xs
Agrees (err e) xs = Fails xs

-- The requests pass on one body, behind the exchanges `before`: each carries what the one in front
-- of it has left unread.
abbrev pub PassOn : Network → Bytes → List Exchange → List Exchange → Type 0
PassOn network body before [] = Unit
PassOn network body before (x ∷ xs) =
    (x.request.body ≡ body)
    × (x.answer ≡ (network.exchange before x.request).0)
    × (read_part : Bytes) × (body ≡ read_part ++ (network.exchange before x.request).1)
    × PassOn network (network.exchange before x.request).1 (before ++ x ∷ []) xs
