-- ===== src/EnvelopeBook.antt =====
-- The envelope book (src/crypto/sealed_sender/book.rs): the key pairs of the sessions of this device,
-- newest first. An id is its bytes; the keys are not looked into.
pub mod Retention
mod Examples
use construct_core.Prelude.{
  ℕ, ◌-◌, ◌*◌, ltb, if◌then◌else◌, Bool, true, false, not, ◌&&◌, ◌||◌, Option, none, some, List, [],
  ◌∷◌, bytes_eq, contains,
}

abbrev pub queue_ttl_secs : ℕ
queue_ttl_secs = 7 * 24 * 3600

abbrev pub retired_retention_secs : ℕ
retired_retention_secs = queue_ttl_secs

pub record FiledFirstFlightKey : Type 0 where
  pub ciphertext_hash : List ℕ
  pub key : List ℕ
  pub handshake_at : ℕ

pub record BookEntry : Type 0 where
  pub device : List ℕ
  pub session_id : List ℕ
  pub keys : List ℕ
  pub retired_at : Option ℕ
  pub first_flight : Option FiledFirstFlightKey

abbrev pub EnvelopeBook : Type 0
EnvelopeBook = List BookEntry

unfoldable pub new_book : EnvelopeBook
new_book = []

unfoldable pub has_session : List ℕ → EnvelopeBook → Bool
has_session session_id [] = false
has_session session_id (e ∷ es) = bytes_eq e.session_id session_id || has_session session_id es

-- `entries.iter().find(|e| e.session_id == session_id)`.
unfoldable pub find_entry : List ℕ → EnvelopeBook → Option BookEntry
find_entry session_id [] = none
find_entry session_id (e ∷ es) =
    if bytes_eq e.session_id session_id then some e else find_entry session_id es

-- A session that is filed keeps its pair.
unfoldable pub register : List ℕ → List ℕ → List ℕ → EnvelopeBook → EnvelopeBook
register device session_id keys entries =
    if has_session session_id entries
    then entries
    else record {
      device = device;
      session_id = session_id;
      keys = keys;
      retired_at = none;
      first_flight = none;
    }
      ∷ entries

-- `if let Some(e) = entries.iter_mut().find(..) { e.first_flight = .. }`.
unfoldable pub with_first_flight : List ℕ → Option FiledFirstFlightKey → EnvelopeBook → EnvelopeBook
with_first_flight session_id flight [] = []
with_first_flight session_id flight (e ∷ es) =
    let rest = with_first_flight session_id flight es in
    if bytes_eq e.session_id session_id then record e { first_flight = flight } ∷ es else e ∷ rest

unfoldable pub set_first_flight : List ℕ → List ℕ → List ℕ → ℕ → EnvelopeBook → EnvelopeBook
set_first_flight session_id ciphertext_hash key handshake_at entries =
    with_first_flight session_id
      (some (record { ciphertext_hash = ciphertext_hash; key = key; handshake_at = handshake_at }))
      entries

unfoldable pub clear_first_flight : List ℕ → EnvelopeBook → EnvelopeBook
clear_first_flight session_id entries = with_first_flight session_id none entries

unfoldable pub first_flight_of_session : List ℕ → EnvelopeBook → Option FiledFirstFlightKey
first_flight_of_session session_id entries = elim (find_entry session_id entries) [
  | none ↦ none
  | some e ↦ e.first_flight
]

unfoldable pub key_of : List ℕ → Option FiledFirstFlightKey → Option (List ℕ) → Option (List ℕ)
key_of ciphertext_hash none later = later
key_of ciphertext_hash (some f) later =
    if bytes_eq f.ciphertext_hash ciphertext_hash then some f.key else later

unfoldable pub first_flight_by_handshake : List ℕ → EnvelopeBook → Option (List ℕ)
first_flight_by_handshake ciphertext_hash [] = none
first_flight_by_handshake ciphertext_hash (e ∷ es) =
    key_of ciphertext_hash e.first_flight (first_flight_by_handshake ciphertext_hash es)

-- `retired_at.get_or_insert(now)`.
unfoldable pub retired_or : Option ℕ → ℕ → ℕ
retired_or none now = now
retired_or (some at) now = at

unfoldable pub retire : ℕ → BookEntry → BookEntry
retire now e = record e { retired_at = some (retired_or e.retired_at now) }

-- The entries that pass the test are retired.
unfoldable pub retire_where : (BookEntry → Bool) → ℕ → EnvelopeBook → EnvelopeBook
retire_where test now [] = []
retire_where test now (e ∷ es) = (if test e then retire now e else e) ∷ retire_where test now es

unfoldable pub retire_session : List ℕ → ℕ → EnvelopeBook → EnvelopeBook
retire_session session_id now entries =
    retire_where (λ e. bytes_eq e.session_id session_id) now entries

unfoldable pub retire_device : List ℕ → ℕ → EnvelopeBook → EnvelopeBook
retire_device device now entries = retire_where (λ e. bytes_eq e.device device) now entries

unfoldable pub retire_device_except : List ℕ → List (List ℕ) → ℕ → EnvelopeBook → EnvelopeBook
retire_device_except device held now entries =
    retire_where (λ e. bytes_eq e.device device && not (contains held e.session_id)) now entries

-- `retired_at.is_none_or(|at| now.saturating_sub(at) < RETIRED_RETENTION_SECS)`.
unfoldable pub unexpired : ℕ → Option ℕ → Bool
unexpired now none = true
unexpired now (some at) = ltb (now - at) retired_retention_secs

unfoldable pub prune : ℕ → EnvelopeBook → EnvelopeBook
prune now [] = []
prune now (e ∷ es) = if unexpired now e.retired_at then e ∷ prune now es else prune now es
