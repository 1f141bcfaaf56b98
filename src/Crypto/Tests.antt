-- ===== src/Crypto/Tests.antt =====
-- Two chunks and a signature, with stand-ins for the primitives.
use live_cdn.Common.{ℕ, ◌≡◌, refl, List, [], ◌∷◌, ◌++◌, replicate, map, ok}
use live_cdn.Crypto.{Stream, new_stream, key_len, encrypt, derive_chunk_key}
use live_cdn.Crypto.Toy.{pad, toy, toy-IsAead, key_info}
use live_cdn.Crypto.Chunks.{encrypt_all, decrypt_all, decrypt_all-encrypt_all}

abbrev nonce : List ℕ
nonce = replicate 12 9

abbrev messages : List (List ℕ × List ℕ)
messages = (nonce, 1 ∷ 2 ∷ []) ∷ (nonce, 3 ∷ []) ∷ []

abbrev chunks : List (List ℕ)
chunks = (nonce ++ (1 ∷ 2 ∷ 0 ∷ pad)) ∷ (nonce ++ (3 ∷ 1 ∷ pad)) ∷ []

abbrev after_two : Stream
after_two = record { key_info = key_info; seq = 2 }

chunks-encrypted : encrypt_all toy (new_stream key_info) messages ≡ (after_two, map ok chunks)
unfolding encrypt_all encrypt derive_chunk_key key_len
chunks-encrypted = refl

decrypt_all-encrypt_all_example :
    decrypt_all toy (new_stream key_info) chunks
    ≡ (after_two, map ok ((1 ∷ 2 ∷ []) ∷ (3 ∷ []) ∷ []))
decrypt_all-encrypt_all_example =
    decrypt_all-encrypt_all toy (new_stream key_info) after_two messages chunks toy-IsAead
      (refl, (refl, tt)) chunks-encrypted
