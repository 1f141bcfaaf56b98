-- ===== src/Crypto/Toy.antt =====
-- Stand-ins for the primitives of the ring library, at which the theorems are tried.
use live_cdn.Common.{
  ℕ, ◌-◌, ◌%◌, ◌≡◌, refl, ap, ◌∙◌, true, Option, some, List, [], ◌∷◌, ◌++◌, ◌==◌, length, take,
  drop, get_or, drop-append, none, if◌then◌else◌, replicate, arith, length-append, take-append,
}
use live_cdn.Crypto.{Ring, KeyInfo, chacha20_poly1305}
use live_cdn.Crypto.Chunks.{IsAead}

abbrev pub pad : List ℕ
pad = replicate 15 0

-- The tag names the chunk of the key.
abbrev pub tag_of : List ℕ → List ℕ
tag_of key = get_or key 14 0 ∷ pad

abbrev pub open_as : ℕ → List ℕ → Option (List ℕ)
open_as m d =
    if get_or (drop (length d - 16) d) 0 0 == m then some (take (length d - 16) d) else none

abbrev pub toy : Ring
toy = record {
  hkdf = λ salt master_key info n. some (take n info);
  sha256 = λ d. d;
  digits = λ n. n ∷ [];
  accepts_key = λ suite key. true;
  seal = λ suite key nonce p. some (p, tag_of key);
  open_sealed = λ suite key nonce d. open_as (get_or key 14 0) d;
  hmac_sign = λ key d. replicate 4 (length d % 256);
  hmac_verify = λ key d signature. length signature == 4;
}

pub toy_opens :
    (m : ℕ) (p c t : List ℕ)
    → ◌≡◌ {A = Option (List ℕ × List ℕ)} (some (p, m ∷ pad)) (some (c, t))
    → (c ≡ p) × (t ≡ m ∷ pad)
toy_opens m p c t h = (cc, cc)

pub open_as_tagged :
    (m n : ℕ) (c : List ℕ) → open_as n (c ++ m ∷ pad) ≡ (if m == n then some c else none)
open_as_tagged m n c =
    let size : length (c ++ m ∷ pad) - 16 ≡ length c = omega (arith, length-append c (m ∷ pad)) in
    rw (size, drop-append c (m ∷ pad), take-append c (m ∷ pad)) refl

pub toy-IsAead : IsAead toy
toy-IsAead = record {
  tag_16 = λ suite key nonce p c t h. ap length (toy_opens (get_or key 14 0) p c t h).1;
  opens = λ suite key nonce p c t h.
      let m : ℕ = get_or key 14 0 in
      let (a, b) = toy_opens m p c t h in
      ap (λ x. open_as m (c ++ x)) b
      ∙ open_as_tagged m m c
      ∙ (let e : (m == m) ≡ true = ground arith in rw e (ap some a));
}

abbrev pub key_info : KeyInfo
key_info = record { master_key = replicate 32 7; salt = 1 ∷ []; cipher = chacha20_poly1305 }
