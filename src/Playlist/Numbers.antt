-- ===== src/Playlist/Numbers.antt =====
-- The URLs and the numbers of the segments that `parse_m3u8` returns.
use live_cdn.Common.{
  ℕ, zero, suc, ◌≡◌, ◌∙◌, refl, sym, ap, ◌+◌, ◌%◌, ◌^◌, Bool, true, false, some, List, [], ◌∷◌,
  ◌++◌, map, codes, starts_with, trim, lines, keep, length, Bool-cases, Option-cases,
  some_injective, inl, inr, is_nil, if◌then◌else◌, append-nil, append_assoc, map-append,
}
use live_cdn.Playlist.{
  Float, M3u8Segment, M3u8Info, Parser, resolve_url, parse_line, parse_lines, new_parser,
  parse_m3u8, is_uri,
}
use live_cdn.Playlist.Segments.{IsStep, parse_line-IsStep}

-- The lines that name segments.
abbrev pub uris : List (List ℕ) → List (List ℕ)
uris ls = keep is_uri (map trim ls)

abbrev pub segment_urls : {F : Type 0} → List (M3u8Segment F) → List (List ℕ)
segment_urls ss = map (λ s. s.url) ss

abbrev pub segment_seqs : {F : Type 0} → List (M3u8Segment F) → List ℕ
segment_seqs ss = map (λ s. s.seq) ss

uris_uri :
    (line : List ℕ) (ls : List (List ℕ))
    → is_uri (trim line) ≡ true
    → trim line ∷ uris ls ≡ uris (line ∷ ls)
uris_uri line ls u = rw u refl

uris_off :
    (line : List ℕ) (ls : List (List ℕ)) → is_uri (trim line) ≡ false → uris ls ≡ uris (line ∷ ls)
uris_off line ls u = rw u refl

-- `k` numbers of type u64, each the one after the one before it.
abbrev pub numbers_from : ℕ → ℕ → List ℕ
numbers_from n zero = []
numbers_from n (suc k) = n ∷ numbers_from ((n + 1) % 2 ^ 64) k

abbrev is_sequence : List ℕ → Bool
is_sequence line = starts_with line (codes "#EXT-X-MEDIA-SEQUENCE:")

-- The lines that set the number come before the first that names a segment.
abbrev pub is_numbered : List (List ℕ) → Bool
is_numbered [] = true
is_numbered (line ∷ ls) = if is_uri line then is_nil (keep is_sequence ls) else is_numbered ls

no_sequence :
    (line : List ℕ) (ls : List (List ℕ))
    → is_nil (keep is_sequence (line ∷ ls)) ≡ true
    → (is_sequence line ≡ false) × (is_nil (keep is_sequence ls) ≡ true)
no_sequence line ls = elim (Bool-cases (is_sequence line)) [
  | inl e ↦ rw e (λ h. absurd cc)
  | inr e ↦ rw e (λ h. (refl, h))
]

module _ {F : Type 0} (R : Float F) (base : List ℕ) where
  -- The state after a line, which did not panic.
  parse_lines-next :
      (p q : Parser F) (line : List ℕ) (ls : List (List ℕ))
      → parse_lines R base p (line ∷ ls) ≡ some q
      → (m : Parser F) × IsStep R base p (trim line) m × (parse_lines R base m ls ≡ some q)
  unfolding parse_lines
  parse_lines-next p q line ls = elim (Option-cases (parse_line R base p (trim line))) [
    | inl e ↦ rw (parse_lines, e) (λ h. absurd cc)
    | inr (m, e) ↦ rw (parse_lines, e) (λ h. (m, parse_line-IsStep R base p m (trim line) e, h))
  ]

  parse_lines-urls :
      (p q : Parser F) (ls : List (List ℕ))
      → parse_lines R base p ls ≡ some q
      → segment_urls (q.info).segments
        ≡ segment_urls (p.info).segments ++ map (resolve_url base) (uris ls)
  unfolding parse_lines
  parse_lines-urls p q [] h =
      ap (λ (r : Parser F). segment_urls (r.info).segments) (sym (some_injective h))
      ∙ sym (append-nil _)
  parse_lines-urls p q (line ∷ ls) h =
      let (m, step, rest) = parse_lines-next p q line ls h in
      let later = parse_lines-urls m q ls rest in
      elim (Bool-cases (is_uri (trim line))) [
        | inl u ↦
            later
            ∙ ap
                (λ (r : Parser F).
                  segment_urls (r.info).segments ++ map (resolve_url base) (uris ls))
                (step.adds u)
            ∙ ap (λ us. us ++ map (resolve_url base) (uris ls))
                (map-append (λ s. s.url) (p.info).segments _)
            ∙ append_assoc (segment_urls (p.info).segments) _ _
            ∙ ap (λ ts. segment_urls (p.info).segments ++ map (resolve_url base) ts)
                (uris_uri line ls u)
        | inr u ↦
            later
            ∙ ap (λ ss. segment_urls ss ++ map (resolve_url base) (uris ls)) (step.keeps u)
            ∙ ap (λ ts. segment_urls (p.info).segments ++ map (resolve_url base) ts)
                (uris_off line ls u)
      ]

  -- What holds when no line to come sets the number.
  parse_lines-count :
      (p q : Parser F) (ls : List (List ℕ))
      → is_nil (keep is_sequence (map trim ls)) ≡ true
      → parse_lines R base p ls ≡ some q
      → (segment_seqs (q.info).segments
          ≡ segment_seqs (p.info).segments ++ numbers_from p.seq_counter (length (uris ls)))
        × ((q.info).media_sequence ≡ (p.info).media_sequence)
  unfolding parse_lines
  parse_lines-count p q [] k h = (
    ap (λ (r : Parser F). segment_seqs (r.info).segments) (sym (some_injective h))
        ∙ sym (append-nil _),
    ap (λ (r : Parser F). (r.info).media_sequence) (sym (some_injective h)),
  )
  parse_lines-count p q (line ∷ ls) k h =
      let (m, step, rest) = parse_lines-next p q line ls h in
      let (now, left) = no_sequence (trim line) (map trim ls) k in
      let (seqs, media) = parse_lines-count m q ls left rest in
      elim (Bool-cases (is_uri (trim line))) [
        | inl u ↦ (
          seqs
              ∙ ap
                  (λ (r : Parser F).
                    segment_seqs (r.info).segments ++ numbers_from r.seq_counter (length (uris ls)))
                  (step.adds u)
              ∙ ap (λ ns. ns ++ numbers_from ((p.seq_counter + 1) % 2 ^ 64) (length (uris ls)))
                  (map-append (λ s. s.seq) (p.info).segments _)
              ∙ append_assoc (segment_seqs (p.info).segments) _ _
              ∙ ap (λ us. segment_seqs (p.info).segments ++ numbers_from p.seq_counter (length us))
                  (uris_uri line ls u),
          media ∙ ap (λ (r : Parser F). (r.info).media_sequence) (step.adds u),
        )
        | inr u ↦ (
          seqs
              ∙ ap (λ ss. segment_seqs ss ++ numbers_from m.seq_counter (length (uris ls)))
                  (step.keeps u)
              ∙ ap (λ n. segment_seqs (p.info).segments ++ numbers_from n (length (uris ls)))
                  (step.same_number u now).0
              ∙ ap (λ us. segment_seqs (p.info).segments ++ numbers_from p.seq_counter (length us))
                  (uris_off line ls u),
          media ∙ (step.same_number u now).1,
        )
      ]

  -- What holds while no segment has been seen.
  parse_lines-seqs :
      (p q : Parser F) (ls : List (List ℕ))
      → is_numbered (map trim ls) ≡ true
      → (p.info).segments ≡ []
      → p.seq_counter ≡ (p.info).media_sequence
      → parse_lines R base p ls ≡ some q
      → segment_seqs (q.info).segments ≡ numbers_from (q.info).media_sequence (length (uris ls))
  unfolding parse_lines
  parse_lines-seqs p q [] k e n h =
      ap (λ (r : Parser F). segment_seqs (r.info).segments) (sym (some_injective h))
      ∙ ap segment_seqs e
  parse_lines-seqs p q (line ∷ ls) k e n h =
      let (m, step, rest) = parse_lines-next p q line ls h in
      elim (Bool-cases (is_uri (trim line))) [
        | inl u ↦
            let (seqs, media) = parse_lines-count m q ls (rw u at k) rest in
            let start : (q.info).media_sequence ≡ p.seq_counter =
              media ∙ ap (λ (r : Parser F). (r.info).media_sequence) (step.adds u) ∙ sym n in
            seqs
            ∙ ap
                (λ (r : Parser F).
                  segment_seqs (r.info).segments ++ numbers_from r.seq_counter (length (uris ls)))
                (step.adds u)
            ∙ ap (λ ns. ns ++ numbers_from ((p.seq_counter + 1) % 2 ^ 64) (length (uris ls)))
                (map-append (λ s. s.seq) (p.info).segments _)
            ∙ ap
                (λ ss.
                  (segment_seqs ss ++ p.seq_counter ∷ [])
                  ++ numbers_from ((p.seq_counter + 1) % 2 ^ 64) (length (uris ls)))
                e
            ∙ ap (λ us. numbers_from p.seq_counter (length us)) (uris_uri line ls u)
            ∙ ap (λ i. numbers_from i (length (uris (line ∷ ls)))) (sym start)
        | inr u ↦
            parse_lines-seqs m q ls (rw u at k) (step.keeps u ∙ e) (step.starts_over u n) rest
            ∙ ap (λ us. numbers_from (q.info).media_sequence (length us)) (uris_off line ls u)
      ]

  parse_m3u8-parts :
      (content : List ℕ) (info : M3u8Info F)
      → parse_m3u8 R content base ≡ some info
      → (q : Parser F) × (parse_lines R base (new_parser R) (lines content) ≡ some q)
        × (q.info ≡ info)
  unfolding parse_m3u8
  parse_m3u8-parts content info =
      elim (Option-cases (parse_lines R base (new_parser R) (lines content))) [
        | inl e ↦ rw e (λ h. absurd cc)
        | inr (q, e) ↦ rw e (λ h. (q, refl, some_injective h))
      ]

parse_m3u8-urls :
    {F : Type 0} (R : Float F) (content base : List ℕ) (info : M3u8Info F)
    → parse_m3u8 R content base ≡ some info
    → segment_urls info.segments ≡ map (resolve_url base) (uris (lines content))
parse_m3u8-urls R content base info h =
    let (q, e, i) = parse_m3u8-parts R base content info h in
    ap (λ j. segment_urls j.segments) (sym i)
    ∙ parse_lines-urls R base (new_parser R) q (lines content) e

parse_m3u8-seqs :
    {F : Type 0} (R : Float F) (content base : List ℕ) (info : M3u8Info F)
    → is_numbered (map trim (lines content)) ≡ true
    → parse_m3u8 R content base ≡ some info
    → segment_seqs info.segments ≡ numbers_from info.media_sequence (length (uris (lines content)))
parse_m3u8-seqs R content base info k h =
    let (q, e, i) = parse_m3u8-parts R base content info h in
    ap (λ j. segment_seqs j.segments) (sym i)
    ∙ parse_lines-seqs R base (new_parser R) q (lines content) k refl refl e
    ∙ ap (λ j. numbers_from j.media_sequence (length (uris (lines content)))) i

-- Where the media sequence number, if the playlist gives it, stands before the first segment: the
-- segments' URLs are, in order, the lines that are neither empty nor start with a hash, resolved
-- against the base, and they are numbered one after the other from that number on.
pub parse_m3u8-segments :
    {F : Type 0} (R : Float F) (content base : List ℕ) (info : M3u8Info F)
    → is_numbered (map trim (lines content)) ≡ true
    → parse_m3u8 R content base ≡ some info
    → (segment_urls info.segments ≡ map (resolve_url base) (uris (lines content)))
      × (segment_seqs info.segments
          ≡ numbers_from info.media_sequence (length (uris (lines content))))
parse_m3u8-segments R content base info k h =
    (parse_m3u8-urls R content base info h, parse_m3u8-seqs R content base info k h)
