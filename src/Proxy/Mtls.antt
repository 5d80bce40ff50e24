-- ===== src/Proxy/Mtls.antt =====
-- internal/proxy/mtls.go, handleConnection: whether a connection is forwarded. crypto/tls and the
-- dial are outside of the repository: their results are arguments.
use mathlib.Core.Path.{◌≡◌, sym, subst}
use phantom_grid.Prelude.{
  Bool, true, false, ◌||◌, List, [], ◌∷◌, ◌⊎◌, inl, inr, refl, arith, if◌then◌else◌, is_empty,
  Bool-cases, In, here, there,
}
use phantom_grid.Prelude.Bytes.{Bytes, codes, bytes_eq, bytes_eq_iff}

-- A URI of a certificate: its scheme and its text.
pub record Uri : Type 0 where
  pub scheme : Bytes
  pub text : Bytes

-- The first peer certificate, after the handshake.
pub record Certificate : Type 0 where
  pub uris : List Uri

-- What the connection turns out to be.
pub data Connection : Type 0 where
  plain handshake_failed no_certificate : Connection
  certified : Certificate → Connection

pub data Ending : Type 0 where
  handshake_error denied dial_error forwarded : Ending

-- The SPIFFE identities of the client.
unfoldable pub client_ids : List Uri → List Bytes
client_ids [] = []
client_ids (u ∷ us) =
    let rest = client_ids us in if bytes_eq u.scheme (codes "spiffe") then u.text ∷ rest else rest

unfoldable pub has_id : Bytes → List Bytes → Bool
has_id id [] = false
has_id id (c ∷ cs) = bytes_eq c id || has_id id cs

unfoldable pub any_allowed : List Bytes → List Bytes → Bool
any_allowed [] clients = false
any_allowed (id ∷ ids) clients = has_id id clients || any_allowed ids clients

-- An empty list of allowed identities allows every client.
unfoldable pub is_allowed : List Bytes → Certificate → Bool
is_allowed allowed cert = is_empty allowed || any_allowed allowed (client_ids cert.uris)

unfoldable pub connect_target : Bool → Ending
connect_target dialed = if dialed then forwarded else dial_error

unfoldable pub handle_connection : List Bytes → Bool → Connection → Ending
handle_connection allowed dialed plain = connect_target dialed
handle_connection allowed dialed handshake_failed = handshake_error
handle_connection allowed dialed no_certificate = connect_target dialed
handle_connection allowed dialed (certified cert) =
    if is_allowed allowed cert then connect_target dialed else denied

has_id_sound : (id : Bytes) (clients : List Bytes) → has_id id clients ≡ true → In id clients
unfolding has_id
has_id_sound id [] h = absurd (ground arith)
has_id_sound id (c ∷ cs) h = elim (Bool-cases (bytes_eq c id)) [
  | inl e ↦ here (sym ((bytes_eq_iff c id).0 e))
  | inr e ↦ there (has_id_sound id cs (ground arith))
]

any_allowed_sound :
    (ids clients : List Bytes)
    → any_allowed ids clients ≡ true
    → (id : Bytes) × In id ids × In id clients
unfolding any_allowed
any_allowed_sound [] clients h = absurd (ground arith)
any_allowed_sound (id ∷ ids) clients h = elim (Bool-cases (has_id id clients)) [
  | inl e ↦ (id, here refl, has_id_sound id clients e)
  | inr e ↦ let (other, i, j) = any_allowed_sound ids clients (ground arith) in (other, there i, j)
]

In-cases : {a x : Bytes} {xs : List Bytes} → In a (x ∷ xs) → (a ≡ x) ⊎ In a xs
In-cases (here e) = inl e
In-cases (there i) = inr i

client_ids_sound :
    (id : Bytes) (uris : List Uri)
    → In id (client_ids uris)
    → (u : Uri) × In u uris × (u.scheme ≡ codes "spiffe") × (u.text ≡ id)
unfolding client_ids
client_ids_sound id [] i = elim i [ ]
client_ids_sound id (u ∷ us) i = elim (Bool-cases (bytes_eq u.scheme (codes "spiffe"))) [
  | inl e ↦ elim (In-cases (rw e at i)) [
    | inl q ↦ (u, here refl, (bytes_eq_iff u.scheme (codes "spiffe")).0 e, sym q)
    | inr j ↦ let (v, k, s, t) = client_ids_sound id us j in (v, there k, s, t)
  ]
  | inr e ↦ let (v, j, s, t) = client_ids_sound id us (rw e at i) in (v, there j, s, t)
]

-- With a list of allowed identities, a client with a certificate reaches the target only if one of
-- the URIs of the certificate has the scheme spiffe and is in the list, and the dial succeeds.
pub handle_connection_forwarded :
    (first : Bytes) (more : List Bytes) (dialed : Bool) (cert : Certificate)
    → handle_connection (first ∷ more) dialed (certified cert) ≡ forwarded
    → (dialed ≡ true)
      × ((u : Uri) × In u cert.uris × (u.scheme ≡ codes "spiffe") × In u.text (first ∷ more))
unfolding handle_connection is_allowed connect_target
handle_connection_forwarded first more dialed cert h =
    let allowed : any_allowed (first ∷ more) (client_ids cert.uris) ≡ true = ground arith in
    let (id, listed, held) = any_allowed_sound (first ∷ more) (client_ids cert.uris) allowed in
    let (u, i, s, t) = client_ids_sound id cert.uris held in
    (ground arith, (u, i, s, subst (λ x. In x (first ∷ more)) (sym t) listed))
