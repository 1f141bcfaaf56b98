-- ===== src/StreamRelay/Plain.antt =====
-- What the m3u8 relay is for, without its encryption, its cache and its frames: each playlist that
-- differs from the one before it, followed by its segments that have not been taken yet.
use live_cdn.Common.{ℕ, suc, Option, none, some, List, [], ◌∷◌, ◌++◌, ◌==◌, if◌then◌else◌}
use live_cdn.Playlist.{Float, M3u8Info, M3u8Segment, parse_m3u8}
use live_cdn.StreamRelay.{Fetch, Round, Library, contains_key, remember}

-- The URLs taken and what has been passed on.
pub record Plain : Type 0 where
  pub seen_hash : ℕ
  pub seen : List (List ℕ × ℕ)
  pub log : List (List ℕ)

abbrev pub new_plain : Plain
new_plain = record { seen_hash = 0; seen = []; log = [] }

abbrev pub pass_on : Plain → List ℕ → Plain
pass_on p body = record p { log = p.log ++ body ∷ [] }

module _ {F : Type 0} (fl : Float F) (lib : Library) (url : List ℕ) where
  abbrev pub plain_fetched : Plain → M3u8Segment F → Option (List ℕ) → Plain
  plain_fetched p seg none = p
  plain_fetched p seg (some body) =
      pass_on (record p { seen = remember lib p.seen seg.url seg.seq }) body

  abbrev pub plain_segment : Plain → M3u8Segment F → Option (List ℕ) → Plain
  plain_segment p seg body = if contains_key p.seen seg.url then p else plain_fetched p seg body

  abbrev pub plain_segments : Plain → List (M3u8Segment F) → (ℕ → Fetch) → ℕ → Plain
  plain_segments p [] files i = p
  plain_segments p (seg ∷ segs) files i =
      plain_segments (plain_segment p seg (files i).body) segs files (suc i)

  abbrev pub plain_parsed : Plain → Option (M3u8Info F) → List ℕ → Round → Option Plain
  plain_parsed p none body r = none
  plain_parsed p (some info) body r = some (plain_segments (pass_on p body) info.segments r.files 0)

  abbrev pub plain_playlist : Plain → Option (List ℕ) → Round → Option Plain
  plain_playlist p none r = some p
  plain_playlist p (some body) r =
      if lib.hash body == p.seen_hash
      then some p
      else plain_parsed (record p { seen_hash = lib.hash body }) (parse_m3u8 fl (lib.utf8 body) url)
          body r

  unfoldable pub plain_all : Plain → List Round → Option Plain
  plain_all p [] = some p
  plain_all p (r ∷ rs) = elim (plain_playlist p (r.playlist).body r) [
    | none ↦ none
    | some q ↦ plain_all q rs
  ]
