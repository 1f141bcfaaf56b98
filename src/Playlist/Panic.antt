-- ===== src/Playlist/Panic.antt =====
-- When the parser panics, and that it does not otherwise.
use live_cdn.Common.{
  ℕ, ◌≡◌, ◌∙◌, refl, sym, ap, Bool, true, false, ◌&&◌, not, Option, none, some, List, [], ◌∷◌, map,
  codes, starts_with, trim, lines, drop, parse_below, ◌^◌, is_some, Bool-cases, Option-cases, inl,
  inr, if◌then◌else◌,
}
use live_cdn.Playlist.{
  Float, Parser, parse_line, parse_lines, new_parser, parse_m3u8, after_byte, with_target,
  with_sequence, with_duration, with_segment, is_uri, info_of,
}

-- A line whose tag of the target duration has no value, or a value that starts with a character of
-- more than one byte.
abbrev pub is_bad : List ℕ → Bool
is_bad line =
    starts_with line (codes "#EXT-X-TARGETDURATION:") && not (is_some (after_byte (drop 22 line)))

abbrev pub any_bad : List (List ℕ) → Bool
any_bad [] = false
any_bad (line ∷ ls) = let rest = any_bad ls in if is_bad line then true else rest

not-false : (b : Bool) → not b ≡ false → b ≡ true
not-false true h = refl
not-false false h = sym h

not-true : (b : Bool) → not b ≡ true → b ≡ false
not-true true h = sym h
not-true false h = refl

one_of_four :
    {F : Type 0} (b c d : Bool) (x y z w : F)
    → is_some (if b then some x else if c then some y else if d then some z else some w) ≡ true
one_of_four true c d x y z w = refl
one_of_four false true d x y z w = refl
one_of_four false false true x y z w = refl
one_of_four false false false x y z w = refl

module _ {F : Type 0} (R : Float F) (base : List ℕ) where
  with_target-is_some :
      (p : Parser F) (o : Option (List ℕ)) → is_some (with_target R p o) ≡ not (not (is_some o))
  with_target-is_some p none = refl
  with_target-is_some p (some s) = refl

  parse_line-is_bad :
      (p : Parser F) (line : List ℕ) → is_some (parse_line R base p line) ≡ not (is_bad line)
  unfolding parse_line
  parse_line-is_bad p line = elim (Bool-cases (starts_with line (codes "#EXT-X-TARGETDURATION:"))) [
    | inl t ↦ rw t (with_target-is_some p (after_byte (drop 22 line)))
    | inr t ↦ rw t (
        one_of_four (starts_with line (codes "#EXT-X-MEDIA-SEQUENCE:"))
          (starts_with line (codes "#EXTINF:")) (is_uri line)
          (with_sequence R p (parse_below (2 ^ 64) (drop 22 line)))
          (with_duration R p (drop 8 line)) (with_segment R base p line) p)
  ]

  parse_lines-any_bad :
      (p : Parser F) (ls : List (List ℕ))
      → is_some (parse_lines R base p ls) ≡ not (any_bad (map trim ls))
  unfolding parse_lines
  parse_lines-any_bad p [] = refl
  parse_lines-any_bad p (line ∷ ls) =
      let bad = parse_line-is_bad p (trim line) in
      elim (Option-cases (parse_line R base p (trim line))) [
        | inl e ↦
            rw (parse_lines, e) (rw (not-false (is_bad (trim line)) (sym bad ∙ ap is_some e)) refl)
        | inr (q, e) ↦
            rw (parse_lines, e)
              (rw (not-true (is_bad (trim line)) (sym bad ∙ ap is_some e))
                (parse_lines-any_bad q ls))
      ]

info_of-is_some :
    {F : Type 0} (R : Float F) (o : Option (Parser F)) → is_some (info_of R o) ≡ is_some o
info_of-is_some R none = refl
info_of-is_some R (some p) = refl

-- The parser panics for exactly the playlists in which a line starts with the tag of the target
-- duration and has no value behind it, or one that starts with a character of more than one byte.
pub parse_m3u8-panics :
    {F : Type 0} (R : Float F) (content base : List ℕ)
    → is_some (parse_m3u8 R content base) ≡ not (any_bad (map trim (lines content)))
unfolding parse_m3u8
parse_m3u8-panics R content base =
    info_of-is_some R (parse_lines R base (new_parser R) (lines content))
    ∙ parse_lines-any_bad R base (new_parser R) (lines content)
