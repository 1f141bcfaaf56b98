-- ===== src/Playlist/Tests.antt =====
-- The playlist of the source's test, and one that makes the parser panic.
use live_cdn.Common.{
  ℕ, ◌≡◌, refl, true, not, some, List, [], ◌∷◌, ◌++◌, map, codes, trim, lines, length, is_some,
  parse_below, is_space, split_by, ◌^◌,
}
use live_cdn.Playlist.{Float, M3u8Info, parse_m3u8, parse_lines, parse_line, resolve_url}
use live_cdn.Playlist.Numbers.{uris, segment_urls, segment_seqs, numbers_from, parse_m3u8-segments}
use live_cdn.Playlist.Panic.{any_bad, parse_m3u8-panics}

-- Whole seconds in place of f64.
abbrev seconds : Float ℕ
seconds = record { f0 = 0; f2 = 2; parse_f64 = parse_below (2 ^ 53) }

abbrev line_break : List ℕ
line_break = 13 ∷ 10 ∷ []

abbrev playlist : List ℕ
playlist =
    codes "#EXTM3U"
    ++ (line_break
        ++ (codes "#EXT-X-TARGETDURATION:12"
            ++ (line_break
                ++ (codes "#EXT-X-MEDIA-SEQUENCE:100"
                    ++ (line_break
                        ++ (codes "#EXTINF:3,"
                            ++ (line_break
                                ++ (codes "a.ts"
                                    ++ (line_break ++ (codes "http://x/b.ts" ++ line_break))))))))))

abbrev base_url : List ℕ
base_url = codes "http://origin/live/test/stream.m3u8"

abbrev parsed : M3u8Info ℕ
parsed = record {
  target_duration = 2;
  media_sequence = 100;
  segments =
      record { url = codes "http://origin/live/test/a.ts"; duration = 3; seq = 100 }
      ∷ record { url = codes "http://x/b.ts"; duration = 0; seq = 101 }
      ∷ [];
}

-- The first digit of the target duration is lost.
parsed_playlist : parse_m3u8 seconds playlist base_url ≡ some parsed
unfolding parse_m3u8 parse_lines parse_line parse_below resolve_url is_space split_by
parsed_playlist = refl

parse_m3u8-segments_example :
    (segment_urls parsed.segments ≡ map (resolve_url base_url) (uris (lines playlist)))
    × (segment_seqs parsed.segments ≡ numbers_from 100 (length (uris (lines playlist))))
unfolding is_space split_by
parse_m3u8-segments_example =
    parse_m3u8-segments seconds playlist base_url parsed refl parsed_playlist

abbrev no_value : List ℕ
no_value = codes "#EXTM3U" ++ (line_break ++ codes "#EXT-X-TARGETDURATION:")

parse_m3u8-panics_example :
    is_some (parse_m3u8 seconds no_value base_url) ≡ not (any_bad (map trim (lines no_value)))
parse_m3u8-panics_example = parse_m3u8-panics seconds no_value base_url

no_value-panics : any_bad (map trim (lines no_value)) ≡ true
unfolding is_space split_by
no_value-panics = refl
