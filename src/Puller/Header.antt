-- ===== src/Puller/Header.antt =====
-- The FLV header: what the puller makes of the thirteen bytes that an FLV stream opens with.
use live_cdn.Common.{ℕ, ◌≤◌, ◌≡◌, ◌∙◌, true, arith, List, ◌∷◌, ◌++◌, length, drop}
use live_cdn.Flv.{build_flv_header, tag_try_from}
use live_cdn.Puller.{goes, parse_header, parse_tag, round, parse_all, on_chunk, start_pull}
use live_cdn.Gop.{GopCache}
use live_cdn.Puller.Loop.{parse_all-goes}

module _ (clock : ℕ → ℕ) (cache : GopCache) (rest : List ℕ) where
  left : List ℕ
  left = 5 ∷ 0 ∷ 0 ∷ 0 ∷ 9 ∷ 0 ∷ 0 ∷ 0 ∷ 0 ∷ rest

  header_round :
      round clock (record (start_pull cache) { buffer = build_flv_header ++ rest })
      ≡ goes (record (start_pull cache) { buffer = left; flv_header_parsed = true })
  unfolding left round parse_header build_flv_header start_pull
  header_round = ground arith

  skipped_round :
      2 ≤ length rest
      → round clock (record (start_pull cache) { buffer = left; flv_header_parsed = true })
        ≡ goes (record (start_pull cache) { buffer = drop 2 rest; flv_header_parsed = true })
  unfolding left round parse_tag tag_try_from start_pull
  skipped_round h = ground arith

  -- On a response that starts with the FLV header (`build_flv_header`: nine bytes and the empty tag
  -- size), with two more bytes at least, the puller's state after the header has lost the first two
  -- bytes of the tags: the size is read from bytes 5 to 7, and is 0 where the header says 9.
  pub on_chunk-build_flv_header :
      2 ≤ length rest
      → on_chunk clock (start_pull cache) (build_flv_header ++ rest)
        ≡ parse_all clock
            (record (start_pull cache) { buffer = drop 2 rest; flv_header_parsed = true })
  unfolding on_chunk start_pull
  on_chunk-build_flv_header h =
      parse_all-goes clock _ _ header_round ∙ parse_all-goes clock _ _ (skipped_round h)
