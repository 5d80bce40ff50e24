-- ===== src/Exporter/Elk/Bulk.antt =====
-- internal/exporter/elk.go: BulkIndex of the client for Elasticsearch. encoding/json is a parameter,
-- and so is the network: whether a URL can be parsed, and what an exchange leaves unread of the
-- body, by the exchanges before it.
pub mod Failover
use phantom_grid.Prelude.{
  ℕ, Bool, true, false, not, ◌&&◌, Option, none, some, List, [], ◌∷◌, ◌++◌, leb, ltb, if◌then◌else◌,
  is_empty, Result, ok, err,
}
use phantom_grid.Prelude.Bytes.{Bytes, codes}

-- A request to an address, with the user and the password of its basic authentication.
pub record Request : Type 0 where
  pub url : Bytes
  pub content_type : Bytes
  pub basic_auth : Option (Bytes × Bytes)
  pub body : Bytes

-- A request and the status of its answer, if there was one.
pub record Exchange : Type 0 where
  pub request : Request
  pub answer : Option ℕ

pub record Network : Type 0 where
  pub parses : Bytes → Bool
  pub exchange : List Exchange → Request → Option ℕ × Bytes

pub data BulkError : Type 0 where
  bad_request unreachable : BulkError
  refused : ℕ → BulkError

-- ElasticsearchHTTPClient
pub record HttpClient : Type 0 where
  pub addresses : List Bytes
  pub username : Bytes
  pub password : Bytes

-- resp.StatusCode >= 200 && resp.StatusCode < 300
unfoldable pub is_success : ℕ → Bool
is_success status = leb 200 status && ltb status 300

abbrev pub is_accepted : Option ℕ → Bool
is_accepted none = false
is_accepted (some status) = is_success status

-- lastErr after an exchange that did not succeed
abbrev pub error_of : Option ℕ → BulkError
error_of none = unreachable
error_of (some status) = refused status

unfoldable pub bulk_request : HttpClient → Bytes → Bytes → Request
bulk_request client addr body = record {
  url = addr ++ codes "/_bulk";
  content_type = codes "application/json";
  basic_auth =
      if not (is_empty client.username) && not (is_empty client.password)
      then some (client.username, client.password)
      else none;
  body = body;
}

module _ (network : Network) (client : HttpClient) where
  open network use {parses, exchange}

  -- The loop over the addresses with what is left in the buffer, the last error and the exchanges
  -- so far; it yields the exchanges from here on.
  unfoldable pub try_addresses :
      List Bytes
      → Bytes
      → Option BulkError
      → List Exchange
      → Result (Option BulkError) (Unit {0}) × List Exchange
  try_addresses [] buffer last before = (err last, [])
  try_addresses (addr ∷ more) buffer last before =
      let request = bulk_request client addr buffer in
      let (answer, left) = exchange before request in
      let done : Exchange = record { request = request; answer = answer } in
      let skipped = try_addresses more buffer (some bad_request) before in
      let rest = try_addresses more left (some (error_of answer)) (before ++ done ∷ []) in
      if parses request.url
      then (if is_accepted answer then (ok tt, done ∷ []) else (rest.0, done ∷ rest.1))
      else skipped

  module _ {ℓ} {Doc : Type ℓ} (action_json : Bytes → Bytes) (doc_json : Doc → Bytes) where
    -- An action line and a document line for each document.
    unfoldable pub bulk_body : Bytes → List Doc → Bytes
    bulk_body index [] = []
    bulk_body index (doc ∷ docs) =
        action_json index ++ (10 ∷ (doc_json doc ++ (10 ∷ bulk_body index docs)))

    unfoldable pub bulk_index :
        Bytes → List Doc → Result (Option BulkError) (Unit {0}) × List Exchange
    bulk_index index documents =
        if is_empty documents
        then (ok tt, [])
        else try_addresses client.addresses (bulk_body index documents) none []
