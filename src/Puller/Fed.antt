-- ===== src/Puller/Fed.antt =====
-- The cache of a puller against what the puller has broadcast, over one response.
use live_cdn.Common.{
  ℕ, zero, suc, ◌≡◌, sym, ap, ◌∙◌, inl, inr, true, false, List, [], ◌∷◌, ◌++◌, Bool-cases,
  Result-cases, arith, ltb, length, drop, ◌+◌, byte_at,
}
use live_cdn.Flv.{FlvTagPacket, tag_try_from}
use live_cdn.Gop.Startup.{add_all-snoc}
use live_cdn.Gop.{GopCache, add_tag, add_all}
use live_cdn.Puller.{
  Pull, Round, waits, rejects, goes, emit, parse_header, parse_tag, round, waiting, rejected, stuck,
  Parsed, parse_loop, parse_all, on_chunk, Arrival, chunk, broken, pull_loop, size_field,
}
use live_cdn.Puller.Loop.{Round-cases}
use live_cdn.Puller.Chunks.{Parsed-cases}

module _ (c : GopCache) where
  -- The cache has been fed with exactly what was broadcast.
  abbrev pub IsFed : List FlvTagPacket → GopCache → Type 0
  IsFed sent cache = cache ≡ add_all c sent

  abbrev pub FedPull : Pull → Type 0
  FedPull s = IsFed s.sent s.cache

  FedRound : Round → Type 0
  FedRound waits = Unit {0}
  FedRound rejects = Unit {0}
  FedRound (goes s) = FedPull s

  FedParsed : Parsed → Type 0
  FedParsed (waiting s) = FedPull s
  FedParsed (rejected s) = FedPull s
  FedParsed stuck = Unit {0}

  emit-FedPull : (s : Pull) (t : FlvTagPacket) (rest : List ℕ) → FedPull s → FedPull (emit s t rest)
  unfolding emit
  emit-FedPull s t rest h = ap (λ (d : GopCache). add_tag d t) h ∙ sym (add_all-snoc s.sent c t)

  parse_header-FedRound : (s : Pull) → FedPull s → FedRound (parse_header s)
  unfolding parse_header FedRound
  parse_header-FedRound s h = ground arith

  module _ (clock : ℕ → ℕ) where
    parse_tag-FedRound : (s : Pull) → FedPull s → FedRound (parse_tag clock s)
    unfolding parse_tag FedRound
    parse_tag-FedRound s h =
        let b : List ℕ = s.buffer in
        elim (Bool-cases (ltb (length b) 11)) [
          | inl short ↦ rw short tt
          | inr long ↦ rw long (elim (Result-cases (tag_try_from (byte_at b 0))) [
            | inr (x, e) ↦ rw e h
            | inl (t, e) ↦ rw e (elim (Bool-cases (ltb (length b) (11 + size_field b + 4))) [
              | inl part ↦ rw part tt
              | inr whole ↦ rw whole (emit-FedPull s _ (drop (11 + size_field b + 4) b) h)
            ])
          ])
        ]

    round-FedRound : (s : Pull) → FedPull s → FedRound (round clock s)
    unfolding round
    round-FedRound s h = elim (Bool-cases s.flv_header_parsed) [
      | inl parsed ↦ simp parsed (parse_tag-FedRound s h)
      | inr fresh ↦ simp fresh (parse_header-FedRound s h)
    ]

    parse_loop-FedParsed : (n : ℕ) (s : Pull) → FedPull s → FedParsed (parse_loop clock n s)
    unfolding parse_loop FedRound FedParsed
    parse_loop-FedParsed zero s h = tt
    parse_loop-FedParsed (suc n) s h =
        let k : FedRound (round clock s) = round-FedRound s h in
        elim (Round-cases (round clock s)) [
          | inl e ↦ rw (e, parse_loop) h
          | inr (inl e) ↦ rw (e, parse_loop) h
          | inr (inr (s', e)) ↦ rw (e, parse_loop) (parse_loop-FedParsed n s' (rw e at k))
        ]

    on_chunk-FedParsed : (s : Pull) (d : List ℕ) → FedPull s → FedParsed (on_chunk clock s d)
    unfolding on_chunk parse_all
    on_chunk-FedParsed s d h = parse_loop-FedParsed _ (record s { buffer = s.buffer ++ d }) h

    pub pull_loop-FedPull :
        (as' : List Arrival) (s : Pull) → FedPull s → FedPull (pull_loop clock s as').0
    unfolding pull_loop FedParsed
    pull_loop-FedPull [] s h = h
    pull_loop-FedPull (chunk false d ∷ as') s h = h
    pull_loop-FedPull (chunk true d ∷ as') s h =
        let k : FedParsed (on_chunk clock s d) = on_chunk-FedParsed s d h in
        elim (Parsed-cases (on_chunk clock s d)) [
          | inl (t, r) ↦ rw (r, pull_loop) (pull_loop-FedPull as' t (rw r at k))
          | inr (inl (t, r)) ↦ rw (r, pull_loop) (rw r at k)
          | inr (inr r) ↦ rw (r, pull_loop) h
        ]
    pull_loop-FedPull (broken true ∷ as') s h = h
    pull_loop-FedPull (broken false ∷ as') s h = h
