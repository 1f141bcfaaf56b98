-- ===== src/Viewer/Heard.antt =====
-- What a viewer receives of the packets that are sent into the broadcast channel.
use live_cdn.Common.{
  ℕ, ◌+◌, ◌≡◌, refl, ap, ◌∙◌, Bool, List, [], ◌∷◌, ◌++◌, arith, length, length-append, keep, inl,
  inr, Bool-cases,
}
use live_cdn.Flv.{FlvTagPacket}
use live_cdn.Drop.{get_packet_priority, is_high}
use live_cdn.Viewer.{RecvEvent, received, lagged, closed}

-- The packets that the channel delivers.
abbrev pub delivered : List RecvEvent → List FlvTagPacket
delivered [] = []
delivered (received t b ∷ es) = t ∷ delivered es
delivered (lagged n ∷ es) = delivered es
delivered (closed ∷ es) = delivered es

abbrev pub tag_is_high : FlvTagPacket → Bool
tag_is_high t = is_high (get_packet_priority t)

pub keep-append :
    (p : FlvTagPacket → Bool) (xs ys : List FlvTagPacket)
    → keep p (xs ++ ys) ≡ keep p xs ++ keep p ys
keep-append p [] ys = refl
keep-append p (x ∷ xs) ys = elim (Bool-cases (p x)) [
  | inl y ↦ rw (y, keep-append p xs ys) refl
  | inr n ↦ rw (n, keep-append p xs ys) refl
]

-- How the broadcast channel turns the packets that were sent into what a viewer receives: in order,
-- where a viewer that is told of `n` lost packets misses the next `n` of them.
abbrev pub IsHeard : List FlvTagPacket → List RecvEvent → List FlvTagPacket → Type 0
IsHeard sent [] lost = (sent ≡ []) × (lost ≡ [])
IsHeard sent (received t b ∷ es) lost =
    (rest : List FlvTagPacket) × (sent ≡ t ∷ rest) × IsHeard rest es lost
IsHeard sent (lagged n ∷ es) lost =
    (gap : List FlvTagPacket) × (rest : List FlvTagPacket) × (more : List FlvTagPacket) × (sent
      ≡ gap ++ rest)
    × (lost ≡ gap ++ more)
    × (length gap ≡ n)
    × IsHeard rest es more
IsHeard sent (closed ∷ es) lost = ⊥

-- The number of the packets that the viewer is told it has lost.
abbrev pub lags : List RecvEvent → ℕ
lags [] = 0
lags (received t b ∷ es) = lags es
lags (lagged n ∷ es) = n + lags es
lags (closed ∷ es) = lags es

pub IsHeard-counts :
    (es : List RecvEvent) (sent lost : List FlvTagPacket)
    → IsHeard sent es lost
    → (length (keep tag_is_high sent)
        ≡ length (keep tag_is_high (delivered es)) + length (keep tag_is_high lost))
      × (length lost ≡ lags es)
IsHeard-counts [] sent lost (no_sent, no_lost) = rw (no_sent, no_lost) (refl, refl)
IsHeard-counts (received t b ∷ es) sent lost (rest, split, h) =
    let (high, count) = IsHeard-counts es rest lost h in
    (
      ap (λ ts. length (keep tag_is_high ts)) split ∙ elim (Bool-cases (tag_is_high t)) [
        | inl e ↦ rw e (omega (arith, high))
        | inr e ↦ rw e high
      ],
      count,
    )
IsHeard-counts (lagged n ∷ es) sent lost (gap, rest, more, split, missed, length_n, h) =
    let (high, count) = IsHeard-counts es rest more h in
    (
      rw (split, missed, keep-append tag_is_high gap rest, keep-append tag_is_high gap more)
          (omega (
            arith,
            high,
            length-append (keep tag_is_high gap) (keep tag_is_high rest),
            length-append (keep tag_is_high gap) (keep tag_is_high more),
          )),
      rw missed (omega (arith, count, length_n, length-append gap more)),
    )
IsHeard-counts (closed ∷ es) sent lost h = absurd h
