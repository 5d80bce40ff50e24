-- ===== src/Tests/Services.antt =====
-- The theorems on the logger, the exporter, the ports, the proxy and the honeypot at concrete inputs.
use phantom_grid.Prelude.{
  ℕ, ◌+◌, Bool, true, false, [], ◌∷◌, ◌++◌, ◌≡◌, refl, if◌then◌else◌, In, is_empty, drop,
}
use phantom_grid.Prelude.Bytes.{Bytes, codes, bytes_eq}
use phantom_grid.Exporter.Elk.{
  ElkConfiguration, ElkExporter, begin_flush, buffer_event, Steps, done, then_export, then_begin,
  then_finish, finish_flush, pick_batch, settle_batch,
}
use phantom_grid.Exporter.Elk.Conservation.{count, held, held-Steps}
use phantom_grid.Proxy.Mtls.{
  Uri, handle_connection, is_allowed, any_allowed, has_id, client_ids, connect_target,
  handle_connection_forwarded,
}
use phantom_grid.Honeypot.Resp.{parse_resp}
use phantom_grid.Honeypot.Resp.Arrays.{strings_text, parse_resp-strings_text}

abbrev exporter : ElkExporter ℕ
exporter = record { buffer = []; in_flight = []; sent = [] }

abbrev configuration : ElkConfiguration
configuration = record { enabled = true; batch_size = 10 }

-- A document is exported and sent in vain, while another one is exported.
abbrev retried : ElkExporter ℕ
retried = record { buffer = 7 ∷ 8 ∷ []; in_flight = []; sent = [] }

every : ℕ → Bool
every d = true

run : Steps ℕ configuration (8 ∷ 7 ∷ []) exporter retried
unfolding begin_flush buffer_event finish_flush pick_batch settle_batch
run = then_finish false 0 (then_export (λ d. d) 8 (then_begin (then_export (λ d. d) 7 done))) refl

held-Steps_example : held every retried ≡ count every (8 ∷ 7 ∷ []) + held every exporter
held-Steps_example = held-Steps every refl run

abbrev uri : Uri
uri = record { scheme = codes "spiffe"; text = codes "spiffe://a" }

handle_connection_forwarded_example :
    (true ≡ true)
    × ((u : Uri) × In u (uri ∷ [])
        × (u.scheme ≡ codes "spiffe")
        × In u.text (codes "spiffe://a" ∷ []))
unfolding handle_connection is_allowed any_allowed has_id client_ids connect_target bytes_eq
handle_connection_forwarded_example =
    handle_connection_forwarded (codes "spiffe://a") [] true (record { uris = uri ∷ [] }) refl

-- The lengths of the two strings.
abbrev toy_size : Bytes → Bytes
toy_size s = if is_empty s then codes "0" else if is_empty (drop 1 s) then codes "1" else codes "3"

parse_resp-strings_text_example :
    parse_resp
      (λ line. 2)
      (codes "*2" ++ 13 ∷ 10 ∷ strings_text toy_size (codes "GET" ∷ codes "k" ∷ []))
    ≡ codes "GET" ∷ codes "k" ∷ []
parse_resp-strings_text_example =
    parse_resp-strings_text (λ line. 2) toy_size (codes "2") (codes "GET") (codes "k" ∷ []) refl
      refl (refl, refl, (refl, refl, tt))
