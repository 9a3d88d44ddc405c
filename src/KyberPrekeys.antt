-- ===== src/KyberPrekeys.antt =====
-- src/crypto/kyber_prekeys.rs: the store of the device's ML-KEM prekeys. The result of
-- `mlkem1024_generate`, a seed or an error, is an argument of the operations that call it, and the
-- errors' texts are constructors. A `BTreeMap` is the list of its entries in the order of the ids.
-- Not modelled: public keys, upload records and the snapshot for storage.
pub mod Burned
mod Examples
use construct_core.Prelude.{
  ℕ, ◌+◌, ◌-◌, ◌*◌, ◌^◌, ltb, leb, ◌==◌, if◌then◌else◌, Bool, true, false, not, Option, none, some,
  List, [], ◌∷◌, ◌++◌, map, length, Result, ok, err, ◌>>=◌,
}

abbrev pub kyber_otpk_id_start : ℕ
kyber_otpk_id_start = 1000000

-- `SPK_RETENTION_AFTER_ROTATION_SECS` of src/crypto/keys.rs.
abbrev pub spk_retention_after_rotation_secs : ℕ
spk_retention_after_rotation_secs = 14 * 24 * 3600

pub data KyberError : Type 0 where
  spk_id_range_exhausted otpk_id_range_exhausted : KyberError
  generate_failed : List ℕ → KyberError

pub record KyberPrekey : Type 0 where
  pub key_id : ℕ
  pub created_at : ℕ
  pub seed : List ℕ

pub record RetiredSpk : Type 0 where
  pub prekey : KyberPrekey
  pub retired_at : ℕ

pub record KyberPrekeyStore : Type 0 where
  pub spk : Option KyberPrekey
  pub pending_spk : Option KyberPrekey
  pub retired_spks : List RetiredSpk
  pub otpks : List (ℕ × KyberPrekey)
  pub next_spk_id : ℕ
  pub next_otpk_id : ℕ

abbrev pub default_store : KyberPrekeyStore
default_store = record {
  spk = none;
  pending_spk = none;
  retired_spks = [];
  otpks = [];
  next_spk_id = 1;
  next_otpk_id = kyber_otpk_id_start;
}

-- The operations of the map: insertion in order, lookup, and what passes a test of the id.
pub insert_id : ℕ → KyberPrekey → List (ℕ × KyberPrekey) → List (ℕ × KyberPrekey)
insert_id id key [] = (id, key) ∷ []
insert_id id key ((i, k) ∷ entries) =
    let rest = insert_id id key entries in
    if i == id
    then (id, key) ∷ entries
    else if ltb id i
    then (id, key) ∷ (i, k) ∷ entries
    else (i, k) ∷ rest

pub lookup_id : List (ℕ × KyberPrekey) → ℕ → Option KyberPrekey
lookup_id [] id = none
lookup_id ((i, k) ∷ entries) id =
    let rest = lookup_id entries id in if i == id then some k else rest

pub retain_ids : (ℕ → Bool) → List (ℕ × KyberPrekey) → List (ℕ × KyberPrekey)
retain_ids keep [] = []
retain_ids keep ((i, k) ∷ entries) =
    let rest = retain_ids keep entries in if keep i then (i, k) ∷ rest else rest

-- `KyberPrekey::generate`, from what the key generator gave.
abbrev pub generate : ℕ → ℕ → Result (List ℕ) (List ℕ) → Result KyberError KyberPrekey
generate key_id created_at (ok seed) =
    ok record { key_id = key_id; created_at = created_at; seed = seed }
generate key_id created_at (err why) = err (generate_failed why)

-- The last steps of `begin_spk_rotation`, with the generated key.
abbrev pub begun :
    KyberPrekeyStore
    → Result KyberError KyberPrekey
    → KyberPrekeyStore × Result KyberError KyberPrekey
begun s (err why) = (s, err why)
begun s (ok prekey) = (
  record {
    spk = s.spk;
    pending_spk = some prekey;
    retired_spks = s.retired_spks;
    otpks = s.otpks;
    next_spk_id = s.next_spk_id + 1;
    next_otpk_id = s.next_otpk_id;
  },
  ok prekey,
)

-- By the pending key.
abbrev pub begin_by :
    ℕ
    → Result (List ℕ) (List ℕ)
    → KyberPrekeyStore
    → Option KyberPrekey
    → KyberPrekeyStore × Result KyberError KyberPrekey
begin_by now made s (some pending) = (s, ok pending)
begin_by now made s none =
    if leb kyber_otpk_id_start s.next_spk_id
    then (s, err spk_id_range_exhausted)
    else begun s (generate s.next_spk_id now made)

pub begin_spk_rotation :
    ℕ
    → Result (List ℕ) (List ℕ)
    → KyberPrekeyStore
    → KyberPrekeyStore × Result KyberError KyberPrekey
begin_spk_rotation now made s = begin_by now made s s.pending_spk

pub unexpired : ℕ → List RetiredSpk → List RetiredSpk
unexpired now [] = []
unexpired now (r ∷ rs) =
    let rest = unexpired now rs in
    if ltb (now - r.retired_at) spk_retention_after_rotation_secs then r ∷ rest else rest

pub prune_retired : ℕ → KyberPrekeyStore → KyberPrekeyStore
prune_retired now s = record {
  spk = s.spk;
  pending_spk = s.pending_spk;
  retired_spks = unexpired now s.retired_spks;
  otpks = s.otpks;
  next_spk_id = s.next_spk_id;
  next_otpk_id = s.next_otpk_id;
}

-- The previous key, if there is one, goes behind the retired ones.
abbrev pub retire : ℕ → Option KyberPrekey → List RetiredSpk → List RetiredSpk
retire now none rs = rs
retire now (some previous) rs = rs ++ (record { prekey = previous; retired_at = now } ∷ [])

-- By the pending key.
abbrev pub commit_by : ℕ → KyberPrekeyStore → Option KyberPrekey → KyberPrekeyStore × Bool
commit_by now s none = (s, false)
commit_by now s (some pending) = (
  prune_retired now record {
    spk = some pending;
    pending_spk = none;
    retired_spks = retire now s.spk s.retired_spks;
    otpks = s.otpks;
    next_spk_id = s.next_spk_id;
    next_otpk_id = s.next_otpk_id;
  },
  true,
)

pub commit_spk_rotation : ℕ → KyberPrekeyStore → KyberPrekeyStore × Bool
commit_spk_rotation now s = commit_by now s s.pending_spk

pub rollback_spk_rotation : KyberPrekeyStore → KyberPrekeyStore
rollback_spk_rotation s = record {
  spk = s.spk;
  pending_spk = none;
  retired_spks = s.retired_spks;
  otpks = s.otpks;
  next_spk_id = s.next_spk_id;
  next_otpk_id = s.next_otpk_id;
}

-- The store with other one-time keys and another counter for them.
abbrev pub with_otpks : KyberPrekeyStore → List (ℕ × KyberPrekey) → ℕ → KyberPrekeyStore
with_otpks s otpks next = record {
  spk = s.spk;
  pending_spk = s.pending_spk;
  retired_spks = s.retired_spks;
  otpks = otpks;
  next_spk_id = s.next_spk_id;
  next_otpk_id = next;
}

-- The loop of `generate_otpks`, with one outcome of the generator to a round. Keys that were stored
-- before an error stay.
pub generate_otpks :
    List (Result (List ℕ) (List ℕ))
    → ℕ
    → KyberPrekeyStore
    → KyberPrekeyStore × Result KyberError (List KyberPrekey)
generate_otpks [] now s = (s, ok [])
generate_otpks (err why ∷ made) now s =
    if leb (2 ^ 32) (s.next_otpk_id + 1)
    then (s, err otpk_id_range_exhausted)
    else (s, err (generate_failed why))
generate_otpks (ok seed ∷ made) now s =
    let prekey : KyberPrekey = record { key_id = s.next_otpk_id; created_at = now; seed = seed } in
    let stored = with_otpks s (insert_id s.next_otpk_id prekey s.otpks) (s.next_otpk_id + 1) in
    let rest = generate_otpks made now stored in
    if leb (2 ^ 32) (s.next_otpk_id + 1)
    then (s, err otpk_id_range_exhausted)
    else (rest.0, rest.1 >>= λ keys. ok (prekey ∷ keys))

pub otpk_count : KyberPrekeyStore → ℕ
otpk_count s = length s.otpks

pub prune_otpks_below : ℕ → KyberPrekeyStore → KyberPrekeyStore × ℕ
prune_otpks_below min_keep_id s =
    let kept_otpks = retain_ids (λ id. leb min_keep_id id) s.otpks in
    (with_otpks s kept_otpks s.next_otpk_id, length s.otpks - length kept_otpks)

pub remove_otpk : ℕ → KyberPrekeyStore → KyberPrekeyStore × Option KyberPrekey
remove_otpk key_id s = (
  with_otpks s (retain_ids (λ id. not (id == key_id)) s.otpks) s.next_otpk_id,
  lookup_id s.otpks key_id,
)

-- The chain of the signed prekeys, and the first with an id.
abbrev pub option_list : Option KyberPrekey → List KyberPrekey
option_list none = []
option_list (some key) = key ∷ []

pub spk_chain : KyberPrekeyStore → List KyberPrekey
spk_chain s =
    option_list s.spk
    ++ (option_list s.pending_spk ++ map (λ (r : RetiredSpk). r.prekey) s.retired_spks)

pub first_with_id : ℕ → List KyberPrekey → Option KyberPrekey
first_with_id id [] = none
first_with_id id (k ∷ keys) =
    let rest = first_with_id id keys in if k.key_id == id then some k else rest

pub find : KyberPrekeyStore → ℕ → Option KyberPrekey
find s key_id =
    if leb kyber_otpk_id_start key_id
    then lookup_id s.otpks key_id
    else first_with_id key_id (spk_chain s)
