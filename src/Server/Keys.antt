-- ===== src/Server/Keys.antt =====
-- The stream's key in the URL of an HTTP-FLV request.
use live_cdn.Common.{
  ℕ, ◌≡◌, ◌∙◌, refl, sym, ap, Bool, true, false, arith, List, [], ◌∷◌, ◌++◌, codes, is_space,
  none_of, starts_with, ends_with, strip_prefix, strip_starts, split_by, split_by-append,
  is_some-none, trim_end_matches, trim_end_matches-once, trim_start_matches, append_assoc,
  strip_starts-none, length,
}
use live_cdn.Server.{parse_stream_key_from_url}

-- The request line for a file of the stream.
abbrev pub request_for : List ℕ → List ℕ → List ℕ
request_for path rest = codes "GET " ++ (path ++ (codes ".flv" ++ 32 ∷ rest))

none_of-append :
    (p : ℕ → Bool) (s t : List ℕ)
    → none_of p s ≡ true
    → none_of p t ≡ true
    → none_of p (s ++ t) ≡ true
none_of-append p [] t h k = k
none_of-append p (c ∷ s) t h k = ground (arith, none_of-append p s t)

-- The URL is the second word.
split_url :
    (key rest : List ℕ)
    → none_of is_space key ≡ true
    → split_by is_space (key ++ (codes ".flv" ++ 32 ∷ rest))
      ≡ (key ++ codes ".flv") ∷ split_by is_space rest
unfolding is_space
split_url key rest s =
    ap (split_by is_space) (sym (append_assoc key (codes ".flv") (32 ∷ rest)))
    ∙ split_by-append is_space (key ++ codes ".flv") rest 32 refl
        (none_of-append is_space key (codes ".flv") s refl)

module _ (key : List ℕ) where
  off_live :
      starts_with key (codes "/live/") ≡ false
      → trim_start_matches (codes "/live/" ++ key) (codes "/live/") ≡ key
  unfolding strip_starts
  off_live l = rw (is_some-none (strip_prefix key (codes "/live/")) l) refl

  off_cascade :
      starts_with key (codes "/cascade/") ≡ false
      → trim_start_matches (codes "/cascade/" ++ key) (codes "/cascade/") ≡ key
  unfolding strip_starts
  off_cascade c = rw (is_some-none (strip_prefix key (codes "/cascade/")) c) refl

  live_key :
      ends_with (codes "/live/" ++ key) (codes ".flv") ≡ false
      → starts_with key (codes "/live/") ≡ false
      → starts_with key (codes "/cascade/") ≡ false
      → trim_start_matches
          (trim_start_matches
            (trim_end_matches (codes "/live/" ++ (key ++ codes ".flv")) (codes ".flv"))
            (codes "/live/"))
          (codes "/cascade/")
        ≡ key
  live_key e l c =
      ap (λ t. trim_start_matches (trim_start_matches t (codes "/live/")) (codes "/cascade/"))
        (trim_end_matches-once 47 (codes "live/" ++ key) (codes ".flv") e)
      ∙ ap (λ t. trim_start_matches t (codes "/cascade/")) (off_live l)
      ∙ strip_starts-none (length key) key (codes "/cascade/") c

  cascade_key :
      ends_with (codes "/cascade/" ++ key) (codes ".flv") ≡ false
      → starts_with key (codes "/cascade/") ≡ false
      → trim_start_matches
          (trim_start_matches
            (trim_end_matches (codes "/cascade/" ++ (key ++ codes ".flv")) (codes ".flv"))
            (codes "/live/"))
          (codes "/cascade/")
        ≡ key
  cascade_key e c =
      ap (λ t. trim_start_matches (trim_start_matches t (codes "/live/")) (codes "/cascade/"))
        (trim_end_matches-once 47 (codes "cascade/" ++ key) (codes ".flv") e)
      ∙ ap (λ t. trim_start_matches t (codes "/cascade/"))
          (strip_starts-none _ (codes "/cascade/" ++ key) (codes "/live/") refl)
      ∙ off_cascade c

-- The key of a stream is read back from the URL that names it, at either of the two places: for a
-- key without white space, whose path does not end in `.flv` before the ending is added, and which
-- starts with neither of the two prefixes.
pub parse_stream_key_from_url-request_for :
    (key rest : List ℕ)
    → none_of is_space key ≡ true
    → ends_with (codes "/live/" ++ key) (codes ".flv") ≡ false
    → ends_with (codes "/cascade/" ++ key) (codes ".flv") ≡ false
    → starts_with key (codes "/live/") ≡ false
    → starts_with key (codes "/cascade/") ≡ false
    → (parse_stream_key_from_url (request_for (codes "/live/" ++ key) rest) ≡ key)
      × (parse_stream_key_from_url (request_for (codes "/cascade/" ++ key) rest) ≡ key)
unfolding parse_stream_key_from_url split_by is_space
parse_stream_key_from_url-request_for key rest s e f l c = (
  rw (split_url key rest s) (live_key key e l c),
  rw (split_url key rest s) (cascade_key key f c),
)
