-- ===== src/StreamRelay/Step.antt =====
-- The frames of the m3u8 relay, its encryptor and a viewer's decryptor stay in step.
use live_cdn.Common.{
  ℕ, zero, suc, ◌+◌, ◌%◌, ◌^◌, ◌≡◌, ◌∙◌, refl, sym, ap, subst, true, some, List, [], ◌∷◌, ◌++◌, map,
  map-append, length, length-append, Result, ok, arith,
}
use live_cdn.Crypto.{
  Ring, Stream, KeyInfo, CipherSuite, CryptoError, new_stream, next_seq, derive_chunk_key, encrypt,
  decrypt,
}
use live_cdn.Crypto.Chunks.{IsAead, Run, decrypt_all, decrypt-encrypt}
use live_cdn.Protocol.{Frame, data_frame, new_with_ts, encode}

-- Every chunk is sealed: the derived keys fit the cipher, and sealing does not fail.
pub record IsSealing (R : Ring) (k : KeyInfo) : Type 0 where
  pub fits : (seq : ℕ) → R.accepts_key k.cipher (derive_chunk_key R k seq) ≡ true
  pub seals :
      (suite : CipherSuite) (key nonce p : List ℕ)
      → (c : List ℕ) × (t : List ℕ) × (R.seal suite key nonce p ≡ some (c, t))

pub encrypt_total :
    (R : Ring) (k : KeyInfo) (s : Stream) (nonce p : List ℕ)
    → IsSealing R k
    → s.key_info ≡ k
    → (d : List ℕ) × (encrypt R s nonce p ≡ (next_seq s, ok d))
unfolding encrypt
encrypt_total R k s nonce p sealing e =
    let fits =
      subst (λ i. R.accepts_key i.cipher (derive_chunk_key R i s.seq) ≡ true) (sym e)
        (sealing.fits s.seq) in
    let (c, t, seal) =
      sealing.seals s.key_info.cipher (derive_chunk_key R s.key_info s.seq) nonce p in
    (nonce ++ (c ++ t), rw (fits, seal) refl)

decrypt_all-append :
    (R : Ring) (s : Stream) (ds : List (List ℕ)) (d : List ℕ)
    → decrypt_all R s (ds ++ d ∷ []) ≡ (
      (decrypt R (decrypt_all R s ds).0 d).0,
      (decrypt_all R s ds).1 ++ (decrypt R (decrypt_all R s ds).0 d).1 ∷ [],
    )
unfolding decrypt_all
decrypt_all-append R s [] d = refl
decrypt_all-append R s (x ∷ ds) d =
    ap (λ (u : Run). (u.0, (decrypt R s x).1 ∷ u.1)) (decrypt_all-append R (decrypt R s x).0 ds d)

decrypt_all_next :
    (R : Ring) (s s' t : Stream) (ds : List (List ℕ)) (d : List ℕ)
    (rs : List (Result CryptoError (List ℕ))) (r : Result CryptoError (List ℕ))
    → decrypt_all R s ds ≡ (s', rs)
    → decrypt R s' d ≡ (t, r)
    → decrypt_all R s (ds ++ d ∷ []) ≡ (t, rs ++ r ∷ [])
decrypt_all_next R s s' t ds d rs r h k =
    decrypt_all-append R s ds d
    ∙ ap (λ (u : Run). ((decrypt R u.0 d).0, u.1 ++ (decrypt R u.0 d).1 ∷ [])) h
    ∙ ap (λ (v : Stream × Result CryptoError (List ℕ)). (v.0, rs ++ v.1 ∷ [])) k

-- The numbers of frames that are sent one after the other.
abbrev pub counts : ℕ → List ℕ
counts zero = []
counts (suc n) = counts n ++ (n % 2 ^ 32) ∷ []

-- What has been sent, and the state of the encryptor: frames numbered from 0, in each of which the
-- chunk has the frame's number, and a viewer who takes all of them reads `log`.
pub record IsInStep (R : Ring) (k : KeyInfo) (sent : List (List ℕ)) (e : Stream) (n : ℕ)
    (log : List (List ℕ)) : Type 0 where
  pub frames : List Frame
  pub encoded : sent ≡ map encode frames
  pub numbers : map (λ f. f.seq) frames ≡ counts (length frames)
  pub counter : n ≡ length frames % 2 ^ 32
  pub chunk : e.seq ≡ n
  pub key : e.key_info ≡ k
  pub read : decrypt_all R (new_stream k) (map (λ f. f.payload) frames) ≡ (e, map ok log)

length-next : {A : Type 0} (xs : List A) (x : A) → length (xs ++ x ∷ []) ≡ suc (length xs)
length-next xs x = omega (arith, length-append xs (x ∷ []))

pub IsInStep-next :
    (R : Ring) (k : KeyInfo) (sent : List (List ℕ)) (e : Stream) (n t : ℕ) (log : List (List ℕ))
    (nonce p d : List ℕ)
    → IsAead R
    → length nonce ≡ 12
    → IsInStep R k sent e n log
    → encrypt R e nonce p ≡ (next_seq e, ok d)
    → IsInStep R k
        (sent ++ encode (new_with_ts data_frame n t d) ∷ [])
        (next_seq e)
        ((n + 1) % 2 ^ 32)
        (log ++ p ∷ [])
unfolding new_with_ts
IsInStep-next R k sent e n t log nonce p d aead l i h =
    let f : Frame = new_with_ts data_frame n t d in
    record {
      frames = i.frames ++ f ∷ [];
      encoded = ap (λ b. b ++ encode f ∷ []) i.encoded ∙ sym (map-append encode i.frames (f ∷ []));
      numbers =
          map-append (λ g. g.seq) i.frames (f ∷ [])
          ∙ ap (λ ns. ns ++ n ∷ []) i.numbers
          ∙ ap (λ m. counts (length i.frames) ++ m ∷ []) i.counter
          ∙ ap counts (sym (length-next i.frames f));
      counter = let l = length-next i.frames f in rw l (let c = i.counter in omega arith);
      chunk = ap (λ m. (m + 1) % 2 ^ 32) i.chunk;
      key = i.key;
      read =
          ap (decrypt_all R (new_stream k)) (map-append (λ g. g.payload) i.frames (f ∷ []))
          ∙ decrypt_all_next R (new_stream k) e (next_seq e) (map (λ g. g.payload) i.frames) d _
              (ok p) i.read (decrypt-encrypt R aead e (next_seq e) nonce p d l h)
          ∙ ap (λ rs. (next_seq e, rs)) (sym (map-append ok log (p ∷ [])));
    }
