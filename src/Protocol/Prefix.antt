-- ===== src/Protocol/Prefix.antt =====
-- `Frame::decode` on a slice and on a longer one, and what a decoded frame has used.
use live_cdn.Common.{
  ℕ, ◌+◌, ◌≤◌, ◌≡◌, refl, inl, inr, Option, none, some, List, ◌++◌, arith, ltb, length, drop,
  byte_at, ◌⊎◌, ◌^◌, length-take, length-append, length-drop, byte_at-append, u32_at-append,
  u64_at-append, take-append_le, drop-append_le, ok, err, Bool-cases, ltb→le, le→ltb, ◌>>=◌,
  Result-cases, ◌==◌, not, ◌||◌,
}
use live_cdn.Protocol.{FrameType, Decoded, Frame, decode, decode_v2, finish, try_from}

-- What `decode` answers on a slice and on a longer one: only "incomplete" may change.
abbrev pub Extends : Decoded (Option (Frame × ℕ)) → Decoded (Option (Frame × ℕ)) → Type 0
Extends (ok none) later = Unit {0}
Extends (ok (some r)) later = later ≡ ok (some r)
Extends (err e) later = later ≡ err e

finish-Extends :
    (header version : ℕ) (ft : FrameType) (flags seq ts len : ℕ) (d more : List ℕ)
    → Extends
        (finish header version ft flags seq ts len d)
        (finish header version ft flags seq ts len (d ++ more))
unfolding finish
finish-Extends header version ft flags seq ts len d more = elim (Bool-cases (ltb 1048576 len)) [
  | inl large ↦ rw large refl
  | inr small ↦ rw small (elim (Bool-cases (ltb (length d) (header + len))) [
    | inl short ↦ rw short tt
    | inr whole ↦
        let fits : header + len ≤ length d = ltb→le _ _ whole in
        rw
          (
            whole,
            le→ltb (length (d ++ more)) (header + len) (omega (arith, length-append d more)),
            drop-append_le header d more (omega arith),
            take-append_le len (drop header d) more (omega (arith, length-drop header d)),
          )
          refl
  ])
]

try_from-Extends :
    (b : ℕ) (k k' : FrameType → Decoded (Option (Frame × ℕ)))
    → ((t : FrameType) → Extends (k t) (k' t))
    → Extends (try_from b >>= k) (try_from b >>= k')
try_from-Extends b k k' each = elim (Result-cases (try_from b)) [
  | inl (t, e) ↦ rw e (each t)
  | inr (x, e) ↦ rw e refl
]

decode_v2-Extends : (d more : List ℕ) → Extends (decode_v2 d) (decode_v2 (d ++ more))
unfolding decode_v2
decode_v2-Extends d more = elim (Bool-cases (ltb (length d) 20)) [
  | inl short ↦ rw short tt
  | inr whole ↦
      let long : 20 ≤ length d = ltb→le _ _ whole in
      rw
        (
          whole,
          le→ltb (length (d ++ more)) 20 (omega (arith, length-append d more)),
          byte_at-append d more 2 (omega arith),
          byte_at-append d more 3 (omega arith),
          u32_at-append d more 4 (omega arith),
          u64_at-append d more 8 (omega arith),
          u32_at-append d more 16 (omega arith),
        )
        (try_from-Extends (byte_at d 2) _ _ (λ t. finish-Extends 20 2 t _ _ _ _ d more))
]

-- More bytes never change a frame that was decoded, nor an error: the answer of `Frame::decode` on
-- a slice is, on every longer slice, the same, unless it was that the frame is incomplete.
pub decode-Extends : (d more : List ℕ) → Extends (decode d) (decode (d ++ more))
unfolding decode
decode-Extends d more = elim (Bool-cases (ltb (length d) 21)) [
  | inl short ↦ rw short tt
  | inr whole ↦
      let long : 21 ≤ length d = ltb→le _ _ whole in
      rw
        (
          whole,
          le→ltb (length (d ++ more)) 21 (omega (arith, length-append d more)),
          byte_at-append d more 0 (omega arith),
          byte_at-append d more 1 (omega arith),
          byte_at-append d more 2 (omega arith),
          byte_at-append d more 3 (omega arith),
          byte_at-append d more 4 (omega arith),
          u32_at-append d more 5 (omega arith),
          u64_at-append d more 9 (omega arith),
          u32_at-append d more 17 (omega arith),
        )
        (elim (Bool-cases (not (byte_at d 0 == 0x48) || not (byte_at d 1 == 0x54))) [
          | inl bad ↦ rw bad refl
          | inr good ↦ rw good (elim (Bool-cases (ltb (byte_at d 2) 3)) [
            | inl old ↦ rw old (decode_v2-Extends d more)
            | inr new ↦
                rw new
                  (try_from-Extends (byte_at d 3) _ _ (λ t. finish-Extends 21 _ t _ _ _ _ d more))
          ])
        ])
]

-- What a result of `decode` says of the slice `d`.
abbrev pub Uses : List ℕ → Decoded (Option (Frame × ℕ)) → Type 0
Uses d (ok (some (f, n))) =
    (n ≤ length d)
    × (length f.payload ≤ 2 ^ 20)
    × ((n ≡ 20 + length f.payload) ⊎ (n ≡ 21 + length f.payload))
Uses d (ok none) = Unit {0}
Uses d (err e) = Unit {0}

finish-Uses :
    (header version : ℕ) (ft : FrameType) (flags seq ts len : ℕ) (d : List ℕ)
    → (header ≡ 20) ⊎ (header ≡ 21)
    → Uses d (finish header version ft flags seq ts len d)
unfolding finish
finish-Uses header version ft flags seq ts len d h =
    ground (arith, length-take len (drop header d), length-drop header d)

try_from-Uses :
    (b : ℕ) (k : FrameType → Decoded (Option (Frame × ℕ))) (d : List ℕ)
    → ((t : FrameType) → Uses d (k t))
    → Uses d (try_from b >>= k)
try_from-Uses b k d each = elim (Result-cases (try_from b)) [
  | inl (t, e) ↦ rw e (each t)
  | inr (x, e) ↦ rw e tt
]

decode_v2-Uses : (d : List ℕ) → Uses d (decode_v2 d)
unfolding decode_v2
decode_v2-Uses d = elim (Bool-cases (ltb (length d) 20)) [
  | inl short ↦ rw short tt
  | inr whole ↦
      rw whole (try_from-Uses (byte_at d 2) _ d (λ t. finish-Uses 20 2 t _ _ _ _ d (inl refl)))
]

-- A decoded frame has a payload of 1 MB at most, and the count of bytes used is that of the
-- payload and a header of 20 or 21 bytes, and is within the slice.
pub decode-Uses : (d : List ℕ) → Uses d (decode d)
unfolding decode
decode-Uses d = elim (Bool-cases (ltb (length d) 21)) [
  | inl short ↦ rw short tt
  | inr whole ↦
      rw whole (elim (Bool-cases (not (byte_at d 0 == 0x48) || not (byte_at d 1 == 0x54))) [
        | inl bad ↦ rw bad tt
        | inr good ↦ rw good (elim (Bool-cases (ltb (byte_at d 2) 3)) [
          | inl old ↦ rw old (decode_v2-Uses d)
          | inr new ↦ rw new (
              try_from-Uses (byte_at d 3) _ d
                (λ t. finish-Uses 21 (byte_at d 2) t _ _ _ _ d (inr refl)))
        ])
      ])
]
