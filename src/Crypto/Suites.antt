-- ===== src/Crypto/Suites.antt =====
-- The names of the cipher suites, and new keys, with the random bytes as inputs.
use live_cdn.Common.{
  ℕ, ◌≡◌, refl, ◌||◌, Option, none, some, List, if◌then◌else◌, codes, same, length, ok, ==_iff,
}
use live_cdn.Crypto.{CipherSuite, chacha20_poly1305, aes_128_gcm, KeyInfo, from_parts, key_len}

abbrev pub as_str : CipherSuite → List ℕ
as_str chacha20_poly1305 = codes "chacha20-poly1305"
as_str aes_128_gcm = codes "aes-128-gcm"

unfoldable pub suite_from_str : List ℕ → Option CipherSuite
suite_from_str s =
    if same s (codes "chacha20-poly1305") || same s (codes "chacha20")
    then some chacha20_poly1305
    else if same s (codes "aes-128-gcm") || same s (codes "aes128")
    then some aes_128_gcm
    else none

suite_from_str-as_str : (suite : CipherSuite) → suite_from_str (as_str suite) ≡ some suite
unfolding suite_from_str
suite_from_str-as_str chacha20_poly1305 = refl
suite_from_str-as_str aes_128_gcm = refl

-- `KeyInfo::new`: the random bytes are a function of how many are wanted.
unfoldable pub new_key_info : (ℕ → List ℕ) → (ℕ → List ℕ) → CipherSuite → KeyInfo
new_key_info key_bytes salt_bytes cipher = record {
  master_key = key_bytes (key_len cipher);
  salt = salt_bytes 32;
  cipher = cipher;
}

-- The parts of a new key make the same key again.
from_parts-new_key_info :
    (key_bytes salt_bytes : ℕ → List ℕ) (cipher : CipherSuite)
    → ((n : ℕ) → length (key_bytes n) ≡ n)
    → from_parts
        (new_key_info key_bytes salt_bytes cipher).master_key
        (new_key_info key_bytes salt_bytes cipher).salt
        cipher
      ≡ ok (new_key_info key_bytes salt_bytes cipher)
unfolding from_parts new_key_info
from_parts-new_key_info key_bytes salt_bytes cipher h =
    let fits = (==_iff _ _).1 (h (key_len cipher)) in rw fits refl
