-- ===== src/Puller/Chunks.antt =====
-- What the puller broadcasts does not depend on how the network cuts the response into chunks.
use live_cdn.Common.{
  ℕ, zero, suc, ◌+◌, ◌≤◌, ◌<◌, ◌≡◌, ◌⊎◌, refl, sym, ap, ◌∙◌, inl, inr, Bool, true, false, arith,
  ltb, List, [], ◌∷◌, ◌++◌, append-nil, append_assoc, map, from_be32, length, drop, byte_at,
  length-drop, length-append, get_or-append, drop-append_le, take-append_le, Result-cases,
  Bool-cases, ltb→le, le→ltb, not, ◌||◌, ◌==◌,
}
use live_cdn.Flv.{FlvTagPacket, tag_try_from}
use live_cdn.Gop.{GopCache}
use live_cdn.Puller.{
  Pull, Round, waits, rejects, goes, parse_header, parse_tag, emit, round, size_field,
  timestamp_field, Parsed, waiting, rejected, stuck, parse_all, on_chunk, Arrival, chunk, Ended,
  invalid_stream, pull_loop,
}
use live_cdn.Puller.Loop.{
  Round-cases, round_shorter, parse_all-waits, parse_all-rejects, parse_all-goes,
  parse_all-ne-stuck,
}

pub extend : Pull → List ℕ → Pull
extend s d = record s { buffer = s.buffer ++ d }

-- What a round does once more bytes have come: the same, if it did not wait.
abbrev Follows : List ℕ → Round → Round → Type 0
Follows d waits r = Unit {0}
Follows d rejects r = r ≡ rejects
Follows d (goes s') r = r ≡ goes (extend s' d)

module _ (b d : List ℕ) (long : 11 ≤ length b) where
  size_field-append : size_field (b ++ d) ≡ size_field b
  size_field-append = rw (
    get_or-append b d 1 0 (omega arith),
    get_or-append b d 2 0 (omega arith),
    get_or-append b d 3 0 (omega arith),
  )

  timestamp_field-append : timestamp_field (b ++ d) ≡ timestamp_field b
  timestamp_field-append = rw (
    get_or-append b d 4 0 (omega arith),
    get_or-append b d 5 0 (omega arith),
    get_or-append b d 6 0 (omega arith),
    get_or-append b d 7 0 (omega arith),
  )

abbrev no_signature : List ℕ → Bool
no_signature b = not (byte_at b 0 == 0x46) || not (byte_at b 1 == 0x4c) || not (byte_at b 2 == 0x56)

ltb-append : (b d : List ℕ) (n : ℕ) → n ≤ length b → ltb (length (b ++ d)) n ≡ false
ltb-append b d n h = le→ltb _ _ (omega (arith, length-append b d))

module _ (clock : ℕ → ℕ) where
  parse_tag-Follows :
      (s : Pull) (d : List ℕ) → Follows d (parse_tag clock s) (parse_tag clock (extend s d))
  unfolding parse_tag emit extend
  parse_tag-Follows s d = elim (Bool-cases (ltb (length s.buffer) 11)) [
    | inl short ↦ rw short tt
    | inr long ↦
        let b : List ℕ = s.buffer in
        let h : 11 ≤ length b = ltb→le _ _ long in
        rw (long, ltb-append b d 11 h, get_or-append b d 0 0 (omega arith))
          (elim (Result-cases (tag_try_from (byte_at b 0))) [
            | inr (x, e) ↦ rw (e, drop-append_le 11 b d h)
            | inl (t, e) ↦
                rw (e, size_field-append b d h, timestamp_field-append b d h)
                  (let total : ℕ = 11 + size_field b + 4 in
                    elim (Bool-cases (ltb (length b) total)) [
                      | inl part ↦ rw part tt
                      | inr whole ↦
                          let fits : total ≤ length b = ltb→le _ _ whole in
                          rw
                            (
                              whole,
                              ltb-append b d total fits,
                              drop-append_le total b d fits,
                              drop-append_le 11 b d h,
                              take-append_le (size_field b) (drop 11 b) d
                                  (omega (arith, length-drop 11 b)),
                            )
                            refl
                    ])
          ])
  ]

  parse_header-Follows :
      (s : Pull) (d : List ℕ) → Follows d (parse_header s) (parse_header (extend s d))
  unfolding parse_header extend
  parse_header-Follows s d = elim (Bool-cases (ltb (length s.buffer) 9)) [
    | inl short ↦ rw short tt
    | inr long ↦
        let b : List ℕ = s.buffer in
        let h : 9 ≤ length b = ltb→le _ _ long in
        rw
          (
            long,
            ltb-append b d 9 h,
            get_or-append b d 0 0 (omega arith),
            get_or-append b d 1 0 (omega arith),
            get_or-append b d 2 0 (omega arith),
            get_or-append b d 5 0 (omega arith),
            get_or-append b d 6 0 (omega arith),
            get_or-append b d 7 0 (omega arith),
          )
          (let skip : ℕ = from_be32 0 (byte_at b 5) (byte_at b 6) (byte_at b 7) + 4 in
            elim (Bool-cases (no_signature b)) [
              | inl bad ↦ rw bad refl
              | inr good ↦ rw good (elim (Bool-cases (ltb (length b) skip)) [
                | inl part ↦ rw part tt
                | inr whole ↦
                    let fits : skip ≤ length b = ltb→le _ _ whole in
                    rw (whole, ltb-append b d skip fits, drop-append_le skip b d fits) refl
              ])
            ])
  ]

  round-Follows : (s : Pull) (d : List ℕ) → Follows d (round clock s) (round clock (extend s d))
  unfolding round extend parse_tag parse_header
  round-Follows s d = elim (Bool-cases s.flv_header_parsed) [
    | inl parsed ↦ simp parsed (parse_tag-Follows s d)
    | inr fresh ↦ simp fresh (parse_header-Follows s d)
  ]

  -- What the inner loop leaves, had more bytes been there.
  abbrev Continues : List ℕ → Pull → Parsed → Type 0
  Continues d s (waiting s') =
      (round clock s' ≡ waits) × (parse_all clock (extend s d) ≡ parse_all clock (extend s' d))
  Continues d s (rejected s') = parse_all clock (extend s d) ≡ rejected (extend s' d)
  Continues d s stuck = Unit {0}

  Continues-step :
      (d : List ℕ) (s s' : Pull) (r : Parsed)
      → parse_all clock (extend s d) ≡ parse_all clock (extend s' d)
      → Continues d s' r
      → Continues d s r
  Continues-step d s s' (waiting t) e h = (h.0, e ∙ h.1)
  Continues-step d s s' (rejected t) e h = e ∙ h
  Continues-step d s s' stuck e h = tt

  parse_all-Continues_below :
      (n : ℕ) (s : Pull) (d : List ℕ) → length s.buffer < n → Continues d s (parse_all clock s)
  parse_all-Continues_below zero s d h = elim h [ ]
  parse_all-Continues_below (suc n) s d h = elim (Round-cases (round clock s)) [
    | inl e ↦ rw (parse_all-waits clock s e) (e, refl)
    | inr (inl e) ↦
        rw (parse_all-rejects clock s e)
          (parse_all-rejects clock (extend s d) (rw e at (round-Follows s d)))
    | inr (inr (s', e)) ↦
        let next : round clock (extend s d) ≡ goes (extend s' d) = rw e at (round-Follows s d) in
        rw (parse_all-goes clock s s' e) (
          Continues-step d s s' (parse_all clock s') (parse_all-goes clock _ _ next)
            (parse_all-Continues_below n s' d (omega (arith, round_shorter clock s s' e))))
  ]

  parse_all-Continues : (s : Pull) (d : List ℕ) → Continues d s (parse_all clock s)
  parse_all-Continues s d = parse_all-Continues_below (suc (length s.buffer)) s d (omega arith)

-- What the viewers and the cache see of the loop, and how it ended.
pub record Seen : Type 0 where
  pub sent : List FlvTagPacket
  pub cache : GopCache
  pub ended : Ended

unfoldable pub seen : Pull × Ended → Seen
seen (s, e) = record { sent = s.sent; cache = s.cache; ended = e }

abbrev pub concat : List (List ℕ) → List ℕ
concat [] = []
concat (d ∷ ds) = d ++ concat ds

pub Parsed-cases :
    (r : Parsed) → ((s : Pull) × (r ≡ waiting s)) ⊎ (((s : Pull) × (r ≡ rejected s)) ⊎ (r ≡ stuck))
Parsed-cases (waiting s) = inl (s, refl)
Parsed-cases (rejected s) = inr (inl (s, refl))
Parsed-cases stuck = inr (inr refl)

module _ (clock : ℕ → ℕ) (s t : Pull) (d : List ℕ) (as' : List Arrival) where
  pub pull_loop-waiting :
      parse_all clock (extend s d) ≡ waiting t
      → pull_loop clock s (chunk true d ∷ as') ≡ pull_loop clock t as'
  unfolding pull_loop on_chunk extend
  pull_loop-waiting r = rw (r, pull_loop)

  pub pull_loop-rejected :
      parse_all clock (extend s d) ≡ rejected t
      → pull_loop clock s (chunk true d ∷ as') ≡ (t, invalid_stream)
  unfolding pull_loop on_chunk extend
  pull_loop-rejected r = rw (r, pull_loop)

extend-nil : (s : Pull) → extend s [] ≡ s
unfolding extend
extend-nil s = ap (λ b. record s { buffer = b }) (append-nil s.buffer)

extend-append : (s : Pull) (d e : List ℕ) → extend s (d ++ e) ≡ extend (extend s d) e
unfolding extend
extend-append s d e = ap (λ b. record s { buffer = b }) (sym (append_assoc s.buffer d e))

module _ (clock : ℕ → ℕ) where
  one_chunk_on :
      (s t : Pull) (d e : List ℕ)
      → parse_all clock (extend s d) ≡ parse_all clock (extend t e)
      → pull_loop clock s (chunk true d ∷ []) ≡ pull_loop clock t (chunk true e ∷ [])
  one_chunk_on s t d e h = elim (Parsed-cases (parse_all clock (extend s d))) [
    | inl (u, r) ↦
        rw (pull_loop-waiting clock s u d [] r, pull_loop-waiting clock t u e [] (sym h ∙ r)) refl
    | inr (inl (u, r)) ↦
        rw (pull_loop-rejected clock s u d [] r, pull_loop-rejected clock t u e [] (sym h ∙ r)) refl
    | inr (inr r) ↦ absurd (parse_all-ne-stuck clock (extend s d) r)
  ]

  seen_rejected :
      (t : Pull) (d : List ℕ) → seen (t, invalid_stream) ≡ seen (extend t d, invalid_stream)
  unfolding seen extend
  seen_rejected t d = refl

  -- From a state in which the inner loop waits for bytes, a response that comes in any number of
  -- chunks, with the puller running, is broadcast and cached as if it came in one, and ends alike.
  pub pull_loop-chunks :
      (s : Pull) (ds : List (List ℕ))
      → round clock s ≡ waits
      → seen (pull_loop clock s (map (chunk true) ds))
        ≡ seen (pull_loop clock s (chunk true (concat ds) ∷ []))
  pull_loop-chunks s [] h =
      ap seen
        (sym (pull_loop-waiting clock s s [] [] (rw (extend-nil s) (parse_all-waits clock s h))))
  pull_loop-chunks s (d ∷ ds) h =
      let e : List ℕ = concat ds in
      elim (Parsed-cases (parse_all clock (extend s d))) [
        | inl (t, r) ↦
            let c : Continues clock e (extend s d) (waiting t) =
              rw r at (parse_all-Continues clock (extend s d) e) in
            ap seen (pull_loop-waiting clock s t d (map (chunk true) ds) r)
            ∙ pull_loop-chunks t ds c.0
            ∙ ap seen (one_chunk_on t s e (d ++ e) (rw (extend-append s d e) (sym c.1)))
        | inr (inl (t, r)) ↦
            let c : Continues clock e (extend s d) (rejected t) =
              rw r at (parse_all-Continues clock (extend s d) e) in
            ap seen (pull_loop-rejected clock s t d (map (chunk true) ds) r)
            ∙ seen_rejected t e
            ∙ ap seen (
                sym (
                  pull_loop-rejected clock s (extend t e) (d ++ e) [] (rw (extend-append s d e) c)))
        | inr (inr r) ↦ absurd (parse_all-ne-stuck clock (extend s d) r)
      ]
