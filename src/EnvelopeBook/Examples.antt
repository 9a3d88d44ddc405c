-- ===== src/EnvelopeBook/Examples.antt =====
-- A session of the envelope book of src/crypto/sealed_sender/book.rs that is retired and pruned.
use construct_core.Prelude.{◌+◌, ◌-◌, ◌≡◌, refl, inl, true, none, some, List, [], ◌∷◌, arith}
use construct_core.EnvelopeBook.{
  EnvelopeBook, new_book, register, has_session, prune, unexpired, retire_session, retire_where,
  retire, retired_or, with_first_flight, find_entry, set_first_flight, first_flight_of_session,
  first_flight_by_handshake, key_of, FiledFirstFlightKey, retired_retention_secs,
}
use construct_core.EnvelopeBook.Retention.{
  Call, registers, retires_session, prunes, run, run-has_session,
}

abbrev book : EnvelopeBook
book =
    record {
      device = 1 ∷ [];
      session_id = 2 ∷ [];
      keys = 3 ∷ [];
      retired_at = none;
      first_flight = none;
    }
    ∷ []

-- Retired at 1000, pruned in the last second of the retention.
abbrev calls : List Call
calls =
    registers (4 ∷ []) (5 ∷ []) (6 ∷ [])
    ∷ retires_session (2 ∷ []) 1000
    ∷ prunes (1000 + retired_retention_secs - 1)
    ∷ []

run-has_session_example : has_session (2 ∷ []) (run calls book) ≡ true
run-has_session_example =
    run-has_session 1000 (2 ∷ []) calls book (inl (refl, tt)) (tt, (omega arith, (omega arith, tt)))

-- A second later it is gone.
dropped : prune (1000 + retired_retention_secs) (retire_session (2 ∷ []) 1000 book) ≡ []
unfolding prune unexpired retire_session retire_where retire retired_or
dropped = refl

filed : register (1 ∷ []) (2 ∷ []) (3 ∷ []) new_book ≡ book
unfolding register new_book has_session
filed = refl

-- A first-flight key, by its session and by its handshake.
abbrev key : FiledFirstFlightKey
key = record { ciphertext_hash = 7 ∷ []; key = 8 ∷ []; handshake_at = 9 }

by_session :
    first_flight_of_session (2 ∷ []) (set_first_flight (2 ∷ []) (7 ∷ []) (8 ∷ []) 9 book) ≡ some key
unfolding first_flight_of_session set_first_flight with_first_flight find_entry
by_session = refl

by_handshake :
    first_flight_by_handshake (7 ∷ []) (set_first_flight (2 ∷ []) (7 ∷ []) (8 ∷ []) 9 book)
    ≡ some (8 ∷ [])
unfolding first_flight_by_handshake key_of set_first_flight with_first_flight
by_handshake = refl
