-- ===== src/Playlist/Segments.antt =====
-- The segments that a playlist lists.
use live_cdn.Common.{
  ℕ, ◌≡◌, ◌∙◌, refl, sym, subst, ◌^◌, Bool, true, false, Option, none, some, List, [], ◌∷◌, codes,
  starts_with, strip_prefix, is_some, drop, parse_below, Bool-cases, some_injective, inl, inr,
  if◌then◌else◌, ◌==◌,
}
use live_cdn.Playlist.{
  Float, Parser, parse_line, is_uri, with_segment, with_target, with_target_of, with_sequence,
  with_duration, after_byte,
}

is_some_map : (b : Bool) (o : Option (List ℕ)) → is_some (if b then o else none) ≡ true → b ≡ true
is_some_map true o h = refl
is_some_map false o h = h

-- A line that starts with a tag names no segment.
is_uri-tag : (line tag : List ℕ) → starts_with line (35 ∷ tag) ≡ true → is_uri line ≡ false
is_uri-tag [] tag h = refl
is_uri-tag (c ∷ s) tag h = let e = is_some_map (c == 35) (strip_prefix s tag) h in rw e refl

-- What one line does.
pub record IsStep {F : Type 0} (R : Float F) (base : List ℕ) (p : Parser F) (line : List ℕ)
    (q : Parser F) : Type 0 where
  pub adds : is_uri line ≡ true → q ≡ with_segment R base p line
  pub keeps : is_uri line ≡ false → (q.info).segments ≡ (p.info).segments
  pub same_number :
      is_uri line ≡ false
      → starts_with line (codes "#EXT-X-MEDIA-SEQUENCE:") ≡ false
      → (q.seq_counter ≡ p.seq_counter) × ((q.info).media_sequence ≡ (p.info).media_sequence)
  pub starts_over :
      is_uri line ≡ false
      → p.seq_counter ≡ (p.info).media_sequence
      → q.seq_counter ≡ (q.info).media_sequence

IsStep-off :
    {F : Type 0} (R : Float F) (base : List ℕ) (p q : Parser F) (line : List ℕ)
    → is_uri line ≡ false
    → (q.info).segments ≡ (p.info).segments
    → q.seq_counter ≡ p.seq_counter
    → (q.info).media_sequence ≡ (p.info).media_sequence
    → IsStep R base p line q
IsStep-off R base p q line u s n m = record {
  adds = λ h. absurd cc;
  keeps = λ h. s;
  same_number = λ h k. (n, m);
  starts_over = λ h e. n ∙ e ∙ sym m;
}

IsStep-target :
    {F : Type 0} (R : Float F) (base : List ℕ) (p q : Parser F) (line : List ℕ)
    (o : Option (List ℕ))
    → is_uri line ≡ false
    → with_target R p o ≡ some q
    → IsStep R base p line q
IsStep-target R base p q line none u e = absurd cc
IsStep-target R base p q line (some s) u e =
    subst (IsStep R base p line) (some_injective e)
      (IsStep-off R base p (with_target_of R p s) line u refl refl refl)

IsStep-sequence :
    {F : Type 0} (R : Float F) (base : List ℕ) (p : Parser F) (line : List ℕ) (o : Option ℕ)
    → is_uri line ≡ false
    → starts_with line (codes "#EXT-X-MEDIA-SEQUENCE:") ≡ true
    → IsStep R base p line (with_sequence R p o)
IsStep-sequence R base p line none u h = IsStep-off R base p p line u refl refl refl
IsStep-sequence R base p line (some n) u h = record {
  adds = λ k. absurd cc;
  keeps = λ k. refl;
  same_number = λ k l. absurd cc;
  starts_over = λ k e. refl;
}

IsStep-uri :
    {F : Type 0} (R : Float F) (base : List ℕ) (p : Parser F) (line : List ℕ)
    → is_uri line ≡ true
    → IsStep R base p line (with_segment R base p line)
IsStep-uri R base p line u = record {
  adds = λ h. refl;
  keeps = λ h. absurd cc;
  same_number = λ h k. absurd cc;
  starts_over = λ h k. absurd cc;
}

pub parse_line-IsStep :
    {F : Type 0} (R : Float F) (base : List ℕ) (p q : Parser F) (line : List ℕ)
    → parse_line R base p line ≡ some q
    → IsStep R base p line q
unfolding parse_line
parse_line-IsStep R base p q line =
    elim (Bool-cases (starts_with line (codes "#EXT-X-TARGETDURATION:"))) [
      | inl t ↦ rw t (
          IsStep-target R base p q line (after_byte (drop 22 line))
            (is_uri-tag line (codes "EXT-X-TARGETDURATION:") t))
      | inr t ↦ rw t (elim (Bool-cases (starts_with line (codes "#EXT-X-MEDIA-SEQUENCE:"))) [
        | inl m ↦ rw m (λ e. subst (IsStep R base p line) (some_injective e) (
            IsStep-sequence R base p line (parse_below (2 ^ 64) (drop 22 line))
              (is_uri-tag line (codes "EXT-X-MEDIA-SEQUENCE:") m) m))
        | inr m ↦ rw m (elim (Bool-cases (starts_with line (codes "#EXTINF:"))) [
          | inl i ↦ rw i (λ e. subst (IsStep R base p line) (some_injective e) (
              IsStep-off R base p (with_duration R p (drop 8 line)) line
                (is_uri-tag line (codes "EXTINF:") i) refl refl refl))
          | inr i ↦ rw i (elim (Bool-cases (is_uri line)) [
            | inl u ↦
                rw u (λ e.
                  subst (IsStep R base p line) (some_injective e) (IsStep-uri R base p line u))
            | inr u ↦ rw u (λ e.
                subst (IsStep R base p line) (some_injective e)
                  (IsStep-off R base p p line u refl refl refl))
          ])
        ])
      ])
    ]
