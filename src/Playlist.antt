-- ===== src/Playlist.antt =====
-- The playlist parser of agent-rust/src/relay/mod.rs: `parse_m3u8` and `resolve_url`. A text is the
-- list of its code points; the numbers of type f64 are a library's, with its parser.
pub mod Segments
pub mod Numbers
pub mod Panic
mod Tests
use live_cdn.Common.{
  ℕ, ◌+◌, ◌%◌, ◌^◌, Bool, true, false, ◌||◌, ◌&&◌, not, Option, none, some, List, [], ◌∷◌, ◌++◌,
  ltb, if◌then◌else◌, drop, codes, is_nil, starts_with, trim, drop_end, lines, before_last,
  parse_below, ◌==◌,
}

-- What is used of f64: the literals 0.0 and 2.0 and `parse::<f64>`.
pub record Float (F : Type 0) : Type 0 where
  pub f0 : F
  pub f2 : F
  pub parse_f64 : List ℕ → Option F

pub record M3u8Segment (F : Type 0) : Type 0 where
  pub url : List ℕ
  pub duration : F
  pub seq : ℕ

pub record M3u8Info (F : Type 0) : Type 0 where
  pub target_duration : F
  pub media_sequence : ℕ
  pub segments : List (M3u8Segment F)

abbrev cut_at : Option (List ℕ) → List ℕ → List ℕ
cut_at none relative = relative
cut_at (some front) relative = front ++ (codes "/" ++ relative)

unfoldable pub resolve_url : List ℕ → List ℕ → List ℕ
resolve_url base relative =
    if starts_with relative (codes "http://") || starts_with relative (codes "https://")
    then relative
    else cut_at (before_last 47 base) relative

-- The variables of the loop.
pub record Parser (F : Type 0) : Type 0 where
  pub info : M3u8Info F
  pub current_duration : F
  pub seq_counter : ℕ

abbrev pub or_else {ℓ} : {A : Type ℓ} → Option A → A → A
or_else none d = d
or_else (some a) d = a

-- A line that names a segment.
abbrev pub is_uri : List ℕ → Bool
is_uri line = not (is_nil line) && not (starts_with line (codes "#"))

-- `line[23..]`, where the line starts with the 22 characters of the tag: it leaves out one byte of
-- the value. Rust panics when there is none, or when the character there has more bytes.
abbrev pub after_byte : List ℕ → Option (List ℕ)
after_byte [] = none
after_byte (c ∷ s) = if ltb c 128 then some s else none

module _ {F : Type 0} (R : Float F) where
  abbrev pub with_target_of : Parser F → List ℕ → Parser F
  with_target_of p s = record p {
    info = record (p.info) { target_duration = or_else (R.parse_f64 s) (p.info).target_duration };
  }

  abbrev pub with_target : Parser F → Option (List ℕ) → Option (Parser F)
  with_target p none = none
  with_target p (some s) = some (with_target_of p s)

  abbrev pub with_sequence : Parser F → Option ℕ → Parser F
  with_sequence p none = p
  with_sequence p (some n) = record p {
    info = record (p.info) { media_sequence = n };
    seq_counter = n;
  }

  abbrev pub is_comma : ℕ → Bool
  is_comma c = c == 44

  abbrev pub with_duration : Parser F → List ℕ → Parser F
  with_duration p s = record p {
    current_duration = or_else (R.parse_f64 (drop_end is_comma s)) p.current_duration;
  }

  abbrev pub with_segment : List ℕ → Parser F → List ℕ → Parser F
  with_segment base p line =
      let segment : M3u8Segment F = record {
        url = resolve_url base line;
        duration = p.current_duration;
        seq = p.seq_counter;
      } in
      record {
        info = record (p.info) { segments = (p.info).segments ++ segment ∷ [] };
        current_duration = R.f0;
        seq_counter = (p.seq_counter + 1) % 2 ^ 64;
      }

  -- The loop's body for one trimmed line; `none` is a panic.
  unfoldable pub parse_line : List ℕ → Parser F → List ℕ → Option (Parser F)
  parse_line base p line =
      if starts_with line (codes "#EXT-X-TARGETDURATION:")
      then with_target p (after_byte (drop 22 line))
      else if starts_with line (codes "#EXT-X-MEDIA-SEQUENCE:")
      then some (with_sequence p (parse_below (2 ^ 64) (drop 22 line)))
      else if starts_with line (codes "#EXTINF:")
      then some (with_duration p (drop 8 line))
      else if is_uri line
      then some (with_segment base p line)
      else some p

  unfoldable pub parse_lines : List ℕ → Parser F → List (List ℕ) → Option (Parser F)
  parse_lines base p [] = some p
  parse_lines base p (line ∷ rest) = elim (parse_line base p (trim line)) [
    | none ↦ none
    | some q ↦ parse_lines base q rest
  ]

  abbrev pub new_parser : Parser F
  new_parser = record {
    info = record { target_duration = R.f2; media_sequence = 0; segments = [] };
    current_duration = R.f0;
    seq_counter = 0;
  }

  abbrev pub info_of : Option (Parser F) → Option (M3u8Info F)
  info_of none = none
  info_of (some p) = some p.info

  unfoldable pub parse_m3u8 : List ℕ → List ℕ → Option (M3u8Info F)
  parse_m3u8 content base = info_of (parse_lines base new_parser (lines content))
