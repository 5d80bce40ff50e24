-- ===== src/Logger/Manager/Parsing.antt =====
-- parseLogMessage on every message: it does not panic, and gives an event with the message.
use phantom_grid.Prelude.{
  ℕ, ◌+◌, ◌-◌, take, drop, ◌≤◌, Bool, true, ◌||◌, Option, some, [], ◌∷◌, ◌≡◌, refl, arith,
  if_either, String, length, slice_total, inl, inr, Bool-cases, Option-cases,
}
use phantom_grid.Prelude.Bytes.{Bytes, codes, contains, index_of, has_prefix, trim_space}
use phantom_grid.Logger.Event.{new_security_event, with_risk_level}
use phantom_grid.Logger.Manager.{Event, extract_command, parse_log_message}

has_prefix-length : (s p : Bytes) → has_prefix s p ≡ true → length p ≤ length s
unfolding has_prefix
has_prefix-length s [] h = omega arith
has_prefix-length [] (y ∷ p) h = absurd (ground arith)
has_prefix-length (x ∷ s) (y ∷ p) h = ground (arith, has_prefix-length s p)

-- An occurrence lies in the text.
pub index_of_bound : (s p : Bytes) (i : ℕ) → index_of s p ≡ some i → i + length p ≤ length s
unfolding index_of
index_of_bound [] [] i h = ground arith
index_of_bound [] (y ∷ p) i h = absurd (ground arith)
index_of_bound (x ∷ s) p i h = elim (Bool-cases (has_prefix (x ∷ s) p)) [
  | inl here_lem ↦ ground (arith, has_prefix-length (x ∷ s) p)
  | inr later ↦ elim (Option-cases (index_of s p)) [
    | inl none_lem ↦ absurd (ground arith)
    | inr (j, found) ↦ ground (arith, index_of_bound s p j)
  ]
]

module _ (Data : Type 0) where
  -- An event of the message and the time.
  abbrev pub EventOf : Bytes → Bytes → Option (Event Data) → Type 0
  EventOf now msg o = (e : Event Data) × (o ≡ some e) × (e.message ≡ msg) × (e.timestamp ≡ now)

  extract_command-EventOf :
      (now msg : Bytes) (event : Event Data)
      → event.message ≡ msg
      → event.timestamp ≡ now
      → EventOf now msg (extract_command Data msg event)
  unfolding extract_command
  extract_command-EventOf now msg event m t =
      elim (Option-cases (index_of msg (codes "COMMAND:"))) [
        | inl e ↦ (event, rw (e, extract_command) refl, m, t)
        | inr (i, found) ↦
            let bound = index_of_bound msg (codes "COMMAND:") i found in
            let cut = slice_total (i + 8) (length msg) msg (omega arith) (omega arith) in
            (
              record event {
                command_line = trim_space (take (length msg - (i + 8)) (drop (i + 8) msg));
              },
              rw (found, extract_command) (rw cut refl),
              m,
              t,
            )
      ]

  -- parseLogMessage panics on no message: what it cuts out behind "COMMAND:" is in range. The
  -- event that it returns holds the whole message and the time.
  pub parse_log_message_total :
      (now msg : Bytes)
      → (e : Event Data) × (parse_log_message Data now msg ≡ some e)
        × (e.message ≡ msg)
        × (e.timestamp ≡ now)
  unfolding parse_log_message new_security_event with_risk_level
  parse_log_message_total now msg =
      let P = EventOf now msg in
      let has : String → Bool = λ text. contains msg (codes text) in
      if_either P (has "TRAP HIT") (λ _. (_, refl, refl, refl))
        (if_either P (has "COMMAND") (λ _. extract_command-EventOf now msg _ refl refl)
          (if_either P (has "[SPA] Successful authentication") (λ _. (_, refl, refl, refl))
            (if_either P (has "[SPA] Failed authentication") (λ _. (_, refl, refl, refl))
              (if_either P (has "stealth" || has "Stealth") (λ _. (_, refl, refl, refl))
                (if_either P (has "OS mutation" || has "OS fingerprint")
                  (λ _. (_, refl, refl, refl))
                  (if_either P (has "egress" || has "DLP") (λ _. (_, refl, refl, refl))
                    (if_either P (has "Connection" || has "connection") (λ _. (_, refl, refl, refl))
                      (_, refl, refl, refl))))))))
