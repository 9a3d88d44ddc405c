-- ===== src/EnvelopeBook/Retention.antt =====
-- How long the envelope book of src/crypto/sealed_sender/book.rs names the writer of a session.
use construct_core.Prelude.{
  ℕ, ◌≤◌, ◌<◌, ◌+◌, ◌-◌, lt→ltb, Bool-cases, ◌≡◌, refl, ap, ◌∙◌, ◌⊎◌, inl, inr, Bool, true, false,
  ◌||◌, Option, none, some, List, [], ◌∷◌, arith, All, bytes_eq, bytes_eq_refl,
}
use construct_core.EnvelopeBook.{
  retired_retention_secs, FiledFirstFlightKey, BookEntry, EnvelopeBook, has_session, register,
  with_first_flight, set_first_flight, clear_first_flight, retired_or, retire, retire_where,
  retire_session, retire_device, retire_device_except, unexpired, prune,
}

-- The calls that change the book.
pub data Call : Type 0 where
  registers : (device session_id keys : List ℕ) → Call
  sets_first_flight : (session_id ciphertext_hash key : List ℕ) (handshake_at : ℕ) → Call
  clears_first_flight : (session_id : List ℕ) → Call
  retires_session : (session_id : List ℕ) (now : ℕ) → Call
  retires_device : (device : List ℕ) (now : ℕ) → Call
  retires_device_except : (device : List ℕ) (held : List (List ℕ)) (now : ℕ) → Call
  prunes : (now : ℕ) → Call

unfoldable pub call : Call → EnvelopeBook → EnvelopeBook
call (registers device session_id keys) book = register device session_id keys book
call (sets_first_flight session_id ciphertext_hash key handshake_at) book =
    set_first_flight session_id ciphertext_hash key handshake_at book
call (clears_first_flight session_id) book = clear_first_flight session_id book
call (retires_session session_id now) book = retire_session session_id now book
call (retires_device device now) book = retire_device device now book
call (retires_device_except device held now) book = retire_device_except device held now book
call (prunes now) book = prune now book

unfoldable pub run : List Call → EnvelopeBook → EnvelopeBook
run [] book = book
run (c ∷ cs) book = run cs (call c book)

-- Not retired before the time `t`.
abbrev pub Fresh : ℕ → Option ℕ → Type 0
Fresh t none = Unit
Fresh t (some at) = t ≤ at

-- The book has the session, not retired before `t`.
abbrev pub Held : ℕ → List ℕ → EnvelopeBook → Type 0
Held t s [] = 0 < 0
Held t s (e ∷ es) = ((e.session_id ≡ s) × Fresh t e.retired_at) ⊎ Held t s es

-- A call at `t` or later that retires, or one that prunes within the retention of `t`.
abbrev pub InTime : ℕ → Call → Type 0
InTime t (registers device session_id keys) = Unit
InTime t (sets_first_flight session_id ciphertext_hash key handshake_at) = Unit
InTime t (clears_first_flight session_id) = Unit
InTime t (retires_session session_id now) = t ≤ now
InTime t (retires_device device now) = t ≤ now
InTime t (retires_device_except device held now) = t ≤ now
InTime t (prunes now) = now < t + retired_retention_secs

retired_or-Fresh : (t now : ℕ) (at : Option ℕ) → t ≤ now → Fresh t at → t ≤ retired_or at now
unfolding retired_or
retired_or-Fresh t now none h f = h
retired_or-Fresh t now (some at) h f = f

retire_where-Held :
    (test : BookEntry → Bool) (t now : ℕ) (s : List ℕ) (book : EnvelopeBook)
    → t ≤ now
    → Held t s book
    → Held t s (retire_where test now book)
unfolding retire_where retire
retire_where-Held test t now s [] h k = k
retire_where-Held test t now s (e ∷ es) h (inr k) = inr (retire_where-Held test t now s es h k)
retire_where-Held test t now s (e ∷ es) h (inl (same, fresh)) = elim (Bool-cases (test e)) [
  | inl b ↦ rw b (inl (same, retired_or-Fresh t now e.retired_at h fresh))
  | inr b ↦ rw b (inl (same, fresh))
]

with_first_flight-Held :
    (id : List ℕ) (flight : Option FiledFirstFlightKey) (t : ℕ) (s : List ℕ) (book : EnvelopeBook)
    → Held t s book
    → Held t s (with_first_flight id flight book)
unfolding with_first_flight
with_first_flight-Held id flight t s [] k = k
with_first_flight-Held id flight t s (e ∷ es) (inl here) =
    elim (Bool-cases (bytes_eq e.session_id id)) [
      | inl b ↦ rw b (inl here)
      | inr b ↦ rw b (inl here)
    ]
with_first_flight-Held id flight t s (e ∷ es) (inr k) =
    elim (Bool-cases (bytes_eq e.session_id id)) [
      | inl b ↦ rw b (inr k)
      | inr b ↦ rw b (inr (with_first_flight-Held id flight t s es k))
    ]

unexpired-Fresh :
    (t now : ℕ) (at : Option ℕ)
    → now < t + retired_retention_secs
    → Fresh t at
    → unexpired now at ≡ true
unfolding unexpired
unexpired-Fresh t now none h f = refl
unexpired-Fresh t now (some at) h f = lt→ltb (now - at) retired_retention_secs (omega arith)

prune-Held :
    (t now : ℕ) (s : List ℕ) (book : EnvelopeBook)
    → now < t + retired_retention_secs
    → Held t s book
    → Held t s (prune now book)
unfolding prune
prune-Held t now s [] h k = k
prune-Held t now s (e ∷ es) h (inl (same, fresh)) =
    rw (unexpired-Fresh t now e.retired_at h fresh) (inl (same, fresh))
prune-Held t now s (e ∷ es) h (inr k) = elim (Bool-cases (unexpired now e.retired_at)) [
  | inl b ↦ rw b (inr (prune-Held t now s es h k))
  | inr b ↦ rw b (prune-Held t now s es h k)
]

register-Held :
    (device id keys : List ℕ) (t : ℕ) (s : List ℕ) (book : EnvelopeBook)
    → Held t s book
    → Held t s (register device id keys book)
unfolding register
register-Held device id keys t s book k = elim (Bool-cases (has_session id book)) [
  | inl b ↦ rw b k
  | inr b ↦ rw b (inr k)
]

call-Held :
    (t : ℕ) (s : List ℕ) (c : Call) (book : EnvelopeBook)
    → InTime t c
    → Held t s book
    → Held t s (call c book)
unfolding call set_first_flight clear_first_flight retire_session retire_device retire_device_except
call-Held t s (registers device session_id keys) book h k =
    register-Held device session_id keys t s book k
call-Held t s (sets_first_flight session_id ciphertext_hash key handshake_at) book h k =
    with_first_flight-Held session_id _ t s book k
call-Held t s (clears_first_flight session_id) book h k =
    with_first_flight-Held session_id none t s book k
call-Held t s (retires_session session_id now) book h k = retire_where-Held _ t now s book h k
call-Held t s (retires_device device now) book h k = retire_where-Held _ t now s book h k
call-Held t s (retires_device_except device held now) book h k =
    retire_where-Held _ t now s book h k
call-Held t s (prunes now) book h k = prune-Held t now s book h k

Held-has_session :
    (t : ℕ) (s : List ℕ) (book : EnvelopeBook) → Held t s book → has_session s book ≡ true
unfolding has_session
Held-has_session t s [] k = absurd (omega arith)
Held-has_session t s (e ∷ es) (inl (same, fresh)) =
    rw (ap (λ x. bytes_eq x s) same ∙ bytes_eq_refl s) refl
Held-has_session t s (e ∷ es) (inr k) =
    or_true (bytes_eq e.session_id s) _ (Held-has_session t s es k)
  where
    or_true : (a b : Bool) → b ≡ true → (a || b) ≡ true
    or_true true b h = refl
    or_true false b h = h

-- A session that the book holds, not retired before a time, is still filed after any run of calls in
-- which nothing is retired before that time and every pruning is within the retention after it.
pub run-has_session :
    (t : ℕ) (s : List ℕ) (calls : List Call) (book : EnvelopeBook)
    → Held t s book
    → All (InTime t) calls
    → has_session s (run calls book) ≡ true
unfolding run
run-has_session t s [] book k h = Held-has_session t s book k
run-has_session t s (c ∷ cs) book k (now, h) =
    run-has_session t s cs (call c book) (call-Held t s c book now k) h
