-- ===== src/Server/Headers.antt =====
-- The headers of an HTTP-FLV request, and the refusal that depends on them.
use live_cdn.Common.{
  ℕ, zero, suc, ◌≤◌, ◌≡◌, ◌≢◌, refl, Bool, true, false, ◌||◌, Option, none, some, List, [], ◌∷◌,
  if◌then◌else◌, codes, is_nil, has_text, length, arith, Bool-cases, inl, inr,
}
use live_cdn.Server.{AppState, parse_stream_key_from_url}
use live_cdn.Server.Request.{
  read_headers, has_blank, is_blank, is_agent, forbidden, not_found, Visit, visit_flv,
  after_headers, serve_visit,
}

-- A request whose headers no blank line ends keeps its handler in the loop: no number of rounds is
-- enough, although the connection has nothing more to give.
pub read_headers-endless :
    (ls : List (List ℕ)) (n : ℕ) (is_cascade_pull : Bool)
    → has_blank ls ≡ false
    → read_headers n ls is_cascade_pull ≡ none
unfolding read_headers
read_headers-endless ls zero b h = refl
read_headers-endless [] (suc n) b h = read_headers-endless [] n b h
read_headers-endless (line ∷ ls) (suc n) b h =
    ground (arith, read_headers-endless ls n (b || is_agent line))

read_headers-ends :
    (ls : List (List ℕ)) (n : ℕ) (is_cascade_pull : Bool)
    → has_blank ls ≡ true
    → length ls ≤ n
    → (b : Bool) × (read_headers n ls is_cascade_pull ≡ some b)
unfolding read_headers
read_headers-ends [] n b h k = absurd cc
read_headers-ends (line ∷ ls) zero b h k = absurd (omega arith)
read_headers-ends (line ∷ ls) (suc n) b h k = elim (Bool-cases (is_blank line)) [
  | inl e ↦ rw e (b, refl)
  | inr e ↦ rw e (read_headers-ends ls n (b || is_agent line) (rw e at h) (omega arith))
]

-- The loop only ever sets the flag.
read_headers-true :
    (ls : List (List ℕ)) (n : ℕ) (b : Bool) → read_headers n ls true ≡ some b → b ≡ true
unfolding read_headers
read_headers-true ls zero b h = absurd cc
read_headers-true [] (suc n) b h = read_headers-true [] n b h
read_headers-true (line ∷ ls) (suc n) b h = ground (arith, read_headers-true ls n b)

-- The answer 403 is never given: whatever a connection brings, no request is refused for want of the
-- agent's header.
pub visit_flv-not_forbidden :
    {F : Type 0} (n : ℕ) (s : AppState F) (v : Visit) → (visit_flv n s v).1 ≢ forbidden
unfolding visit_flv
visit_flv-not_forbidden n s v = elim (Bool-cases (has_text v.request_line (codes "/cascade/"))) [
  | inl e ↦ rw e (pulled (read_headers n v.header_lines true) (read_headers-true v.header_lines n))
  | inr e ↦ rw e (direct (read_headers n v.header_lines false))
]
  where
    keyed :
        (b : Bool)
        → (if is_nil (parse_stream_key_from_url v.request_line)
            then (s, not_found)
            else serve_visit s (parse_stream_key_from_url v.request_line) b v).1
          ≢ forbidden
    keyed b = elim (Bool-cases (is_nil (parse_stream_key_from_url v.request_line))) [
      | inl e ↦ rw e (λ h. cc)
      | inr e ↦ rw e (λ h. cc)
    ]

    pulled :
        (o : Option Bool)
        → ((b : Bool) → o ≡ some b → b ≡ true)
        → (after_headers s v true o).1 ≢ forbidden
    pulled none h = λ k. cc
    pulled (some b) h = rw (h b refl) (keyed true)

    direct : (o : Option Bool) → (after_headers s v false o).1 ≢ forbidden
    direct none = λ k. cc
    direct (some b) = keyed b
