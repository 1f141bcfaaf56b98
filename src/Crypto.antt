-- ===== src/Crypto.antt =====
-- agent-rust/src/crypto/mod.rs: the stream encryption with a key for each chunk, and the signed
-- tokens. The primitives of the ring library are a parameter, `Ring`, and the random nonces are
-- inputs. Strings are their bytes.
pub mod Hex
pub mod Chunks
pub mod Toy
pub mod Suites
mod Tests
use live_cdn.Common.{
  ℕ, ◌+◌, ◌-◌, ◌*◌, ◌/◌, ◌%◌, ◌^◌, ◌≡◌, Bool, true, false, ◌&&◌, not, Option, none, some, List, [],
  ◌∷◌, ◌++◌, ltb, leb, ◌==◌, if◌then◌else◌, length, take, drop, bit_or, shl, be32, Result, ok, err,
}

pub data CipherSuite : Type 0 where
  chacha20_poly1305 aes_128_gcm : CipherSuite

unfoldable pub key_len : CipherSuite → ℕ
key_len chacha20_poly1305 = 32
key_len aes_128_gcm = 16

abbrev pub nonce_len : CipherSuite → ℕ
nonce_len suite = 12

abbrev pub tag_len : CipherSuite → ℕ
tag_len suite = 16

pub data CryptoError : Type 0 where
  encrypt_failed decrypt_failed ciphertext_too_short : CryptoError
  invalid_key_length : ℕ → ℕ → CryptoError

pub record KeyInfo : Type 0 where
  pub master_key : List ℕ
  pub salt : List ℕ
  pub cipher : CipherSuite

unfoldable pub from_parts : List ℕ → List ℕ → CipherSuite → Result CryptoError KeyInfo
from_parts key salt cipher =
    if length key == key_len cipher
    then ok (record { master_key = key; salt = salt; cipher = cipher })
    else err (invalid_key_length (key_len cipher) (length key))

-- The primitives: HKDF (the salt, the master key, the info and the length of the key), SHA-256, the
-- decimal digits of a u32, the check that a key fits an algorithm, sealing (the ciphertext and the
-- tag) and opening (of both) with a key and a nonce, and the message authentication code.
pub record Ring : Type 0 where
  pub hkdf : List ℕ → List ℕ → List ℕ → ℕ → Option (List ℕ)
  pub sha256 : List ℕ → List ℕ
  pub digits : ℕ → List ℕ
  pub accepts_key : CipherSuite → List ℕ → Bool
  pub seal : CipherSuite → List ℕ → List ℕ → List ℕ → Option (List ℕ × List ℕ)
  pub open_sealed : CipherSuite → List ℕ → List ℕ → List ℕ → Option (List ℕ)
  pub hmac_sign : List ℕ → List ℕ → List ℕ
  pub hmac_verify : List ℕ → List ℕ → List ℕ → Bool

-- The struct of both `StreamEncryptor` and `StreamDecryptor`.
pub record Stream : Type 0 where
  pub key_info : KeyInfo
  pub seq : ℕ

abbrev pub new_stream : KeyInfo → Stream
new_stream key_info = record { key_info = key_info; seq = 0 }

abbrev pub next_seq : Stream → Stream
next_seq s = record s { seq = (s.seq + 1) % 2 ^ 32 }

abbrev or_fallback : Option (List ℕ) → List ℕ → List ℕ
or_fallback none key = key
or_fallback (some okm) key = okm

-- "livecdn-chunk-"
abbrev chunk_info : List ℕ
chunk_info = 108 ∷ 105 ∷ 118 ∷ 101 ∷ 99 ∷ 100 ∷ 110 ∷ 45 ∷ 99 ∷ 104 ∷ 117 ∷ 110 ∷ 107 ∷ 45 ∷ []

module _ (R : Ring) where
  abbrev pub fallback_key : List ℕ → ℕ → ℕ → List ℕ
  fallback_key master_key seq n = take n (R.sha256 (master_key ++ be32 seq))

  unfoldable pub derive_chunk_key : KeyInfo → ℕ → List ℕ
  derive_chunk_key k seq =
      let n = key_len k.cipher in
      or_fallback (R.hkdf k.salt k.master_key (chunk_info ++ R.digits seq) n)
        (fallback_key k.master_key seq n)

  -- The result of sealing, behind the nonce.
  abbrev sealed : List ℕ → Option (List ℕ × List ℕ) → Result CryptoError (List ℕ)
  sealed nonce none = err encrypt_failed
  sealed nonce (some (ciphertext, tag)) = ok (nonce ++ (ciphertext ++ tag))

  -- The number goes up whether the sealing succeeds or not.
  unfoldable pub encrypt : Stream → List ℕ → List ℕ → Stream × Result CryptoError (List ℕ)
  encrypt s nonce plaintext =
      let k = s.key_info in
      let chunk_key = derive_chunk_key k s.seq in
      if not (R.accepts_key k.cipher chunk_key)
      then (next_seq s, err encrypt_failed)
      else (next_seq s, sealed nonce (R.seal k.cipher chunk_key nonce plaintext))

  abbrev opened : Option (List ℕ) → Result CryptoError (List ℕ)
  opened none = err decrypt_failed
  opened (some plaintext) = ok plaintext

  unfoldable pub decrypt : Stream → List ℕ → Stream × Result CryptoError (List ℕ)
  decrypt s d =
      let k = s.key_info in
      let n = nonce_len k.cipher in
      let chunk_key = derive_chunk_key k s.seq in
      if ltb (length d) (n + tag_len k.cipher)
      then (s, err ciphertext_too_short)
      else if not (R.accepts_key k.cipher chunk_key)
      then (next_seq s, err decrypt_failed)
      else (next_seq s, opened (R.open_sealed k.cipher chunk_key (take n d) (drop n d)))

  unfoldable decrypt_with_embedded_nonce : Stream → List ℕ → Stream × Result CryptoError (List ℕ)
  decrypt_with_embedded_nonce s d = decrypt s d

-- `format!("{:02x}", b)` of each byte.
abbrev pub hex_digit : ℕ → ℕ
hex_digit n = if ltb n 10 then 48 + n else 87 + n

unfoldable pub hex_encode : List ℕ → List ℕ
hex_encode [] = []
hex_encode (b ∷ bs) = hex_digit (b / 16) ∷ hex_digit (b % 16) ∷ hex_encode bs

unfoldable pub hex_value : ℕ → Option ℕ
hex_value b =
    if leb 48 b && leb b 57
    then some (b - 48)
    else if leb 97 b && leb b 102
    then some (b - 97 + 10)
    else if leb 65 b && leb b 70
    then some (b - 65 + 10)
    else none

abbrev joined : Option ℕ → Option ℕ → Option (List ℕ) → Option (List ℕ)
joined none lo rest = none
joined (some hi) none rest = none
joined (some hi) (some lo) none = none
joined (some hi) (some lo) (some rest) = some (bit_or (shl hi 4) lo ∷ rest)

-- The loop over `chunks_exact(2)`.
unfoldable pub decode_pairs : List ℕ → Option (List ℕ)
decode_pairs [] = some []
decode_pairs (a ∷ []) = some []
decode_pairs (a ∷ b ∷ rest) = joined (hex_value a) (hex_value b) (decode_pairs rest)

unfoldable pub hex_decode : List ℕ → Option (List ℕ)
hex_decode s = if length s % 2 == 0 then decode_pairs s else none

module _ (R : Ring) (secret : List ℕ) where
  -- `TokenSigner::sign` and `TokenSigner::verify`
  unfoldable pub sign : List ℕ → List ℕ
  sign d = hex_encode (R.hmac_sign secret d)

  abbrev verified : List ℕ → Option (List ℕ) → Bool
  verified d none = false
  verified d (some signature) = R.hmac_verify secret d signature

  unfoldable pub verify : List ℕ → List ℕ → Bool
  verify d signature = verified d (hex_decode signature)
