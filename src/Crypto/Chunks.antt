-- ===== src/Crypto/Chunks.antt =====
-- Both ends of the encrypted stream: they derive the key of each chunk from its number, and keep in
-- step as long as no chunk is lost.
use live_cdn.Common.{
  ℕ, ◌≡◌, refl, sym, ap, ◌∙◌, true, false, Option, none, some, List, [], ◌∷◌, ◌++◌, ltb, map,
  length, take, drop, take-append, drop-append, length-append, le→ltb, ∷-injective, Result, ok, err,
  arith, Bool-cases, inl, inr,
}
use mathlib.Core.Path.{ap₂}
use live_cdn.Crypto.{
  Ring, Stream, CipherSuite, CryptoError, next_seq, encrypt, decrypt, derive_chunk_key, sealed,
}

-- What ring documents of its ciphers: the tag has 16 bytes, and what is sealed opens again, with the
-- same key and nonce.
pub record IsAead (R : Ring) : Type 0 where
  pub tag_16 :
      (suite : CipherSuite) (key nonce p c t : List ℕ)
      → R.seal suite key nonce p ≡ some (c, t)
      → length t ≡ 16
  pub opens :
      (suite : CipherSuite) (key nonce p c t : List ℕ)
      → R.seal suite key nonce p ≡ some (c, t)
      → R.open_sealed suite key nonce (c ++ t) ≡ some p

refused : {e : CryptoError} {d : List ℕ} → ◌≡◌ {A = Result CryptoError (List ℕ)} (err e) (ok d) → ⊥
refused h = cc

module _ (R : Ring) (aead : IsAead R) where
  -- Where a chunk is sealed, the other end, at the same number, reads it, and both go on to the next.
  decrypt-sealed :
      (s : Stream) (nonce p c t : List ℕ)
      → length nonce ≡ 12
      → R.accepts_key s.key_info.cipher (derive_chunk_key R s.key_info s.seq) ≡ true
      → R.seal s.key_info.cipher (derive_chunk_key R s.key_info s.seq) nonce p ≡ some (c, t)
      → decrypt R s (nonce ++ (c ++ t)) ≡ (next_seq s, ok p)
  unfolding decrypt
  decrypt-sealed s nonce p c t n k e =
      let suite : CipherSuite = s.key_info.cipher in
      let key : List ℕ = derive_chunk_key R s.key_info s.seq in
      let long : ltb (length (nonce ++ (c ++ t))) 28 ≡ false = le→ltb _ _ (
        omega (
          arith,
          length-append nonce (c ++ t),
          length-append c t,
          aead.tag_16 suite key nonce p c t e,
        )) in
      let front : take 12 (nonce ++ (c ++ t)) ≡ nonce =
        ap (λ i. take i (nonce ++ (c ++ t))) (sym n) ∙ take-append nonce (c ++ t) in
      let back : drop 12 (nonce ++ (c ++ t)) ≡ c ++ t =
        ap (λ i. drop i (nonce ++ (c ++ t))) (sym n) ∙ drop-append nonce (c ++ t) in
      rw (long, k, front, back, aead.opens suite key nonce p c t e) refl

  pub encrypt-sealed :
      (s s' : Stream) (nonce p d : List ℕ)
      → encrypt R s nonce p ≡ (s', ok d)
      → (R.accepts_key s.key_info.cipher (derive_chunk_key R s.key_info s.seq) ≡ true)
        × (sealed R nonce (R.seal s.key_info.cipher (derive_chunk_key R s.key_info s.seq) nonce p)
            ≡ ok d)
        × (s' ≡ next_seq s)
  unfolding encrypt
  encrypt-sealed s s' nonce p d =
      elim (Bool-cases (R.accepts_key s.key_info.cipher (derive_chunk_key R s.key_info s.seq))) [
        | inl k ↦ rw k (λ h. (
          refl,
          ap (λ (r : Stream × Result CryptoError (List ℕ)). r.1) h,
          sym (ap (λ (r : Stream × Result CryptoError (List ℕ)). r.0) h),
        ))
        | inr k ↦
            rw k (λ h. absurd (refused (ap (λ (r : Stream × Result CryptoError (List ℕ)). r.1) h)))
      ]

  pub sealed_parts :
      (nonce d : List ℕ) (o : Option (List ℕ × List ℕ))
      → sealed R nonce o ≡ ok d
      → (c : List ℕ) × (t : List ℕ) × (o ≡ some (c, t)) × (d ≡ nonce ++ (c ++ t))
  sealed_parts nonce d none h = absurd (refused h)
  sealed_parts nonce d (some (c, t)) h = (c, t, refl, cc)

  -- What the encryptor makes of a chunk is read by a decryptor that is at the same number.
  pub decrypt-encrypt :
      (s s' : Stream) (nonce p d : List ℕ)
      → length nonce ≡ 12
      → encrypt R s nonce p ≡ (s', ok d)
      → decrypt R s d ≡ (s', ok p)
  decrypt-encrypt s s' nonce p d n h =
      let (k, e, same) = encrypt-sealed s s' nonce p d h in
      let (c, t, seal, whole) = sealed_parts nonce d _ e in
      ap (decrypt R s) whole
      ∙ decrypt-sealed s nonce p c t n k seal
      ∙ ap (λ (u : Stream). (u, ok p)) (sym same)

module _ (R : Ring) where
  -- The chunks of a stream with their nonces, one after the other.
  unfoldable pub encrypt_all :
      Stream → List (List ℕ × List ℕ) → Stream × List (Result CryptoError (List ℕ))
  encrypt_all s [] = (s, [])
  encrypt_all s ((nonce, p) ∷ ms) =
      let (s', r) = encrypt R s nonce p in let (t, rs) = encrypt_all s' ms in (t, r ∷ rs)

  unfoldable pub decrypt_all : Stream → List (List ℕ) → Stream × List (Result CryptoError (List ℕ))
  decrypt_all s [] = (s, [])
  decrypt_all s (d ∷ ds) =
      let (s', r) = decrypt R s d in let (t, rs) = decrypt_all s' ds in (t, r ∷ rs)

abbrev pub Run : Type 0
Run = Stream × List (Result CryptoError (List ℕ))

abbrev pub plaintexts : List (List ℕ × List ℕ) → List (List ℕ)
plaintexts [] = []
plaintexts ((nonce, p) ∷ ms) = p ∷ plaintexts ms

abbrev pub IsNonced : List (List ℕ × List ℕ) → Type 0
IsNonced [] = Unit {0}
IsNonced ((nonce, p) ∷ ms) = (length nonce ≡ 12) × IsNonced ms

-- Of two ends that start at the same number, with a cipher that opens what it seals and nonces of
-- 12 bytes, the one reads, in order, every chunk that the other has encrypted, if all of them were
-- encrypted and all of them arrive. Both then are at the same number again.
pub decrypt_all-encrypt_all :
    (R : Ring) (s s' : Stream) (ms : List (List ℕ × List ℕ)) (ds : List (List ℕ))
    → IsAead R
    → IsNonced ms
    → encrypt_all R s ms ≡ (s', map ok ds)
    → decrypt_all R s ds ≡ (s', map ok (plaintexts ms))
unfolding encrypt_all decrypt_all
decrypt_all-encrypt_all R s s' [] [] aead n h = h
decrypt_all-encrypt_all R s s' [] (d ∷ ds) aead n h = absurd cc
decrypt_all-encrypt_all R s s' ((nonce, p) ∷ ms) [] aead n h = absurd cc
decrypt_all-encrypt_all R s s' ((nonce, p) ∷ ms) (d ∷ ds) aead n h =
    let t : Stream = (encrypt R s nonce p).0 in
    let (first, rest) = ∷-injective (ap (λ (r : Run). r.1) h) in
    let now : encrypt R s nonce p ≡ (t, ok d) =
      ap (λ (r : Result CryptoError (List ℕ)). (t, r)) first in
    let later : encrypt_all R t ms ≡ (s', map ok ds) =
      ap₂ (λ (u : Stream) (rs : List (Result CryptoError (List ℕ))). (u, rs))
        (ap (λ (r : Run). r.0) h) rest in
    rw (decrypt-encrypt R aead s t nonce p d n.0 now)
      (ap (λ (r : Run). (r.0, ok p ∷ r.1)) (decrypt_all-encrypt_all R t s' ms ds aead n.1 later))
