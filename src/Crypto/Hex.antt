-- ===== src/Crypto/Hex.antt =====
-- The hexadecimal text of the signatures.
use live_cdn.Common.{
  ℕ, ◌*◌, ◌/◌, ◌%◌, ◌<◌, ◌≡◌, refl, ap, true, some, List, [], ◌∷◌, length, bit_or-shl, All, IsByte,
  arith,
}
use live_cdn.Crypto.{Ring, hex_digit, hex_encode, hex_value, decode_pairs, hex_decode, sign, verify}

hex_value-hex_digit : (n : ℕ) → n < 16 → hex_value (hex_digit n) ≡ some n
unfolding hex_value
hex_value-hex_digit n h = ground arith

decode_pairs-hex_encode : (bs : List ℕ) → All IsByte bs → decode_pairs (hex_encode bs) ≡ some bs
unfolding decode_pairs hex_encode
decode_pairs-hex_encode [] h = refl
decode_pairs-hex_encode (b ∷ bs) h =
    rw
      (
        hex_value-hex_digit (b / 16) (omega (arith, h.0)),
        hex_value-hex_digit (b % 16) (omega arith),
        decode_pairs-hex_encode bs h.1,
        bit_or-shl 4 (b / 16) (b % 16) (omega arith),
      )
      (ap (λ (x : ℕ). some (x ∷ bs)) (omega arith))

length-hex_encode : (bs : List ℕ) → length (hex_encode bs) ≡ 2 * length bs
unfolding hex_encode
length-hex_encode [] = refl
length-hex_encode (b ∷ bs) = omega (arith, length-hex_encode bs)

-- Every list of bytes is read back from its hexadecimal text.
pub hex_decode-hex_encode : (bs : List ℕ) → All IsByte bs → hex_decode (hex_encode bs) ≡ some bs
unfolding hex_decode
hex_decode-hex_encode bs h =
    let even : length (hex_encode bs) % 2 ≡ 0 = omega (arith, length-hex_encode bs) in
    rw even (decode_pairs-hex_encode bs h)

-- A signature that the signer made is accepted for its text, where the authentication code accepts
-- what it made and is made of bytes.
pub verify-sign :
    (R : Ring) (secret d : List ℕ)
    → ((key message : List ℕ) → R.hmac_verify key message (R.hmac_sign key message) ≡ true)
    → ((key message : List ℕ) → All IsByte (R.hmac_sign key message))
    → verify R secret d (sign R secret d) ≡ true
unfolding verify sign
verify-sign R secret d accepts bytes =
    rw (hex_decode-hex_encode (R.hmac_sign secret d) (bytes secret d)) (accepts secret d)
