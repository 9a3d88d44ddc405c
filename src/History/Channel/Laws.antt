-- ===== src/History/Channel/Laws.antt =====
-- What one side of a stream of src/history/channel.rs seals, the other side opens, in its place only.
use construct_core.Prelude.{
  ℕ, ◌≤◌, ◌<◌, ◌+◌, ◌-◌, ◌^◌, ltb, leb, ◌==◌, le→ltb, le→leb, lt→leb, pos→==_zero, Bool-cases,
  Option-cases, ◌≡◌, refl, sym, ap, ◌∙◌, ◌≢◌, inl, inr, false, ◌||◌, some, List, ◌++◌, arith,
  length, take, drop, length-append, take-append_left, to_le_bytes, from_le_bytes,
  from_le_bytes-to_le_bytes, slice, At-start, At-slice, At-advance, Result, ok, err, ok-injective,
  bytes_eq_refl, ≢→bytes_eq,
}
use construct_core.History.{chunk_open_failed, HistoryFailure}
use construct_core.History.Channel.{
  open_at, max_sealed_chunk, open_next, sealed_len, open_chunk, chunk_plaintext, nonce_len, tag_len,
  aad, nonce, ChunkCipher, next_index, sealed_chunk, seal_next, seal,
}

length-nonce : (index : ℕ) → length (nonce index) ≡ 12
unfolding nonce
length-nonce index = refl

next_index-ok :
    (c : ChunkCipher)
    → c.index + 1 < 2 ^ 32
    → next_index c ≡ ok (c.index, record c { index = c.index + 1 })
unfolding next_index
next_index-ok c h = rw (lt→leb (2 ^ 32) (c.index + 1) h) refl

-- A nonce is the one of its index only.
nonce-injective : (i j : ℕ) → i < 2 ^ 32 → j < 2 ^ 32 → nonce i ≡ nonce j → i ≡ j
unfolding nonce
nonce-injective i j hi hj h =
    let e = ap (take 4) h in
    sym (from_le_bytes-to_le_bytes 4 i hi) ∙ ap from_le_bytes e ∙ from_le_bytes-to_le_bytes 4 j hj

-- A sealed chunk, by its parts.
record Sealed (c c' : ChunkCipher) (plaintext out : List ℕ) : Type 0 where
  ciphertext : List ℕ
  tag : List ℕ
  encrypted :
      c.cipher.encrypt (nonce c.index) (aad c.snapshot_id c.user_id c.index) plaintext
      ≡ some (ciphertext, tag)
  written :
      to_le_bytes 4 (nonce_len + length plaintext + tag_len)
        ++ (nonce c.index ++ (ciphertext ++ tag))
      ≡ out
  advanced : record c { index = c.index + 1 } ≡ c'
  some_text : 0 < length plaintext
  fits : length plaintext ≤ chunk_plaintext
  room : c.index + 1 < 2 ^ 32

refused_call :
    {c c' : ChunkCipher} {f : HistoryFailure} {out : List ℕ} {P : Type 0}
    → ◌≡◌ {A = ChunkCipher × Result HistoryFailure (List ℕ)} (c, err f) (c', ok out)
    → P
refused_call h = let k = ap (λ q. q.1) h in cc

seal-Sealed :
    (c c' : ChunkCipher) (plaintext out : List ℕ)
    → seal c plaintext ≡ (c', ok out)
    → Sealed c c' plaintext out
unfolding seal seal_next sealed_chunk next_index
seal-Sealed c c' plaintext out h =
    elim (Bool-cases (length plaintext == 0 || ltb chunk_plaintext (length plaintext))) [
      | inl e ↦ let k = rw e at h in refused_call k
      | inr e ↦ elim (Bool-cases (leb (2 ^ 32) (c.index + 1))) [
        | inl f ↦ let k = rw (e, f, next_index) at h in refused_call k
        | inr f ↦
            elim (Option-cases
              (c.cipher.encrypt (nonce c.index) (aad c.snapshot_id c.user_id c.index) plaintext)) [
                | inl g ↦ let k = rw (e, f, next_index, g) at h in refused_call k
                | inr ((ciphertext, tag), g) ↦
                    let k = rw (e, f, next_index, g) at h in
                    record {
                      ciphertext = ciphertext;
                      tag = tag;
                      encrypted = g;
                      written = ok-injective (ap (λ q. q.1) k);
                      advanced = ap (λ q. q.0) k;
                      some_text = ground arith;
                      fits = ground arith;
                      room = ground arith;
                    }
              ]
      ]
    ]

module _ (c : ChunkCipher)
    (sizes : (n ad text ciphertext tag : List ℕ)
      → c.cipher.encrypt n ad text ≡ some (ciphertext, tag)
      → (length ciphertext ≡ length text) × (length tag ≡ 16)) where
  -- The chunk behind its length prefix.
  module _ {c' : ChunkCipher} {plaintext out : List ℕ} (s : Sealed c c' plaintext out) where
    body : List ℕ
    body = nonce c.index ++ (s.ciphertext ++ s.tag)

    length-body : length body ≡ 12 + length plaintext + 16
    unfolding body
    length-body =
        let (a, b) = sizes _ _ plaintext s.ciphertext s.tag s.encrypted in
        omega (
          arith,
          a,
          b,
          length-nonce c.index,
          length-append (nonce c.index) (s.ciphertext ++ s.tag),
          length-append s.ciphertext s.tag,
        )

    body-drop : drop 4 out ≡ body
    unfolding body
    body-drop = ap (drop 4) (sym s.written)

    take-body : take 12 body ≡ nonce c.index
    unfolding body
    take-body = take-append_left 12 (nonce c.index) (s.ciphertext ++ s.tag) (length-nonce c.index)

    body-parts :
        (slice body 12 (length body - 16) ≡ s.ciphertext) × (drop (length body - 16) body ≡ s.tag)
    unfolding body
    body-parts =
        let (a, b) = sizes _ _ plaintext s.ciphertext s.tag s.encrypted in
        let n = length s.ciphertext in
        let e : 12 + n ≡ length body - 16 = omega (arith, a, length-body) in
        let behind =
          At-advance 12 (nonce c.index) (s.ciphertext ++ s.tag) (At-start body)
            (length-nonce c.index) in
        (
          ap (slice body 12) (sym e) ∙ At-slice n s.ciphertext s.tag behind refl,
          ap (λ k. drop k body) (sym e) ∙ (At-advance n s.ciphertext s.tag behind refl).ahead,
        )

    -- The guards let the chunk in, and the prefix announces it.
    body-guards :
        ((ltb (length body) (nonce_len + tag_len + 1) || ltb max_sealed_chunk (length body))
          ≡ false)
        × (sealed_len (take 4 out) ≡ ok (some (length body)))
    unfolding sealed_len
    body-guards =
        let n = length body in
        let low : 29 ≤ n = omega (arith, length-body, s.some_text) in
        let high : n ≤ 65564 = omega (arith, length-body, s.fits) in
        let announced : nonce_len + length plaintext + tag_len ≡ n = omega (arith, length-body) in
        let front : from_le_bytes (take 4 out) ≡ n =
          ap (λ xs. from_le_bytes (take 4 xs)) (sym s.written)
          ∙ from_le_bytes-to_le_bytes 4 (nonce_len + length plaintext + tag_len)
              (omega (arith, s.fits))
          ∙ announced in
        (
          rw (le→ltb n 29 low, le→ltb 65564 n high) refl,
          rw (front, pos→==_zero n (omega arith), le→leb 29 n low, le→leb n 65564 high) refl,
        )

  -- With an AEAD that also decrypts what it encrypts: a chunk that one side seals, the other side, at the same index of the same stream, opens to its
  -- text, and both are then at the next index; the chunk's prefix announces its length.
  pub open_chunk-seal :
      (round : (n ad text ciphertext tag : List ℕ)
        → c.cipher.encrypt n ad text ≡ some (ciphertext, tag)
        → c.cipher.decrypt n ad ciphertext tag ≡ some text)
      (c' : ChunkCipher) (plaintext out : List ℕ)
      → seal c plaintext ≡ (c', ok out)
      → (sealed_len (take 4 out) ≡ ok (some (length (drop 4 out))))
        × (open_chunk c (drop 4 out) ≡ (c', ok plaintext))
  unfolding open_chunk open_next open_at
  open_chunk-seal round c' plaintext out h =
      let s = seal-Sealed c c' plaintext out h in
      let (guard, announced) = body-guards s in
      let (ciphertext, tag) = body-parts s in
      let same = body-drop s in
      let opened = round _ _ plaintext s.ciphertext s.tag s.encrypted in
      (
        announced ∙ ap (λ (xs : List ℕ). ok (some (length xs))) (sym same),
        rw
            (
              same,
              guard,
              next_index-ok c s.room,
              take-body s,
              bytes_eq_refl (nonce c.index),
              ciphertext,
              tag,
              opened,
            )
            (ap (λ (q : ChunkCipher). (q, ok plaintext)) s.advanced),
      )

  -- With an AEAD that keeps lengths and has tags of 16 bytes: a chunk that was sealed at one index is
  -- refused at any other one, below the last, whatever the keys.
  pub open_chunk-moved :
      (c' d : ChunkCipher) (plaintext out : List ℕ)
      → seal c plaintext ≡ (c', ok out)
      → d.index ≢ c.index
      → d.index + 1 < 2 ^ 32
      → open_chunk d (drop 4 out) ≡ (record d { index = d.index + 1 }, err chunk_open_failed)
  unfolding open_chunk open_next open_at
  open_chunk-moved c' d plaintext out h moved room =
      let s = seal-Sealed c c' plaintext out h in
      let (guard, _) = body-guards s in
      let other : nonce c.index ≢ nonce d.index = λ e.
        moved (sym (nonce-injective c.index d.index (omega (arith, s.room)) (omega arith) e)) in
      rw
        (
          body-drop s,
          guard,
          next_index-ok d room,
          take-body s,
          ≢→bytes_eq (nonce c.index) (nonce d.index) other,
        )
        refl
