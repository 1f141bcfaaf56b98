-- ===== src/Puller/Aligned.antt =====
-- The puller against the serializer: whole tags in the buffer come out as the packets they were
-- written from.
use live_cdn.Common.{
  ℕ, ◌+◌, ◌%◌, ◌^◌, ◌<◌, ◌≡◌, refl, sym, ap, ◌∙◌, true, false, arith, ltb, List, [], ◌∷◌, ◌++◌,
  append-nil, append_assoc, length, drop, take, byte_at, length-append, le→ltb, lt→ltb,
  if◌then◌else◌, All, take-append, drop-append, be32, ok,
}
use live_cdn.Flv.{FlvTagPacket, build_flv_tag_wire, IsPacket, tag_try_from}
use live_cdn.Flv.Wire.{tag_try_from-tag_code, length-build_flv_tag_wire, read_size, read_timestamp}
use live_cdn.Gop.{add_all}
use live_cdn.Viewer.{wires}
use live_cdn.Puller.{
  Pull, waits, goes, parse_tag, parse_header, emit, round, size_field, timestamp_field, waiting,
  parse_all,
}
use live_cdn.Puller.Loop.{parse_all-goes, parse_all-waits}

module _ (tag : FlvTagPacket) (rest : List ℕ) where
  abbrev wire : List ℕ
  wire = build_flv_tag_wire tag ++ rest

module _ (tag : FlvTagPacket) (rest : List ℕ) (good : IsPacket tag) where
  size_field-wire : size_field (wire tag rest) ≡ length tag.body
  unfolding build_flv_tag_wire
  size_field-wire =
      rw (read_size (length tag.body % 2 ^ 32) (omega (arith, good.size_u24)))
        (omega (arith, good.size_u24))

  timestamp_field-wire : timestamp_field (wire tag rest) ≡ tag.timestamp_ms
  unfolding build_flv_tag_wire
  timestamp_field-wire = read_timestamp tag.timestamp_ms good.ts_u32

  length-wire : length (wire tag rest) ≡ 15 + length tag.body + length rest
  length-wire =
      omega (arith, length-append (build_flv_tag_wire tag) rest, length-build_flv_tag_wire tag)

  drop-wire : drop (11 + length tag.body + 4) (wire tag rest) ≡ rest
  drop-wire =
      let total : 11 + length tag.body + 4 ≡ length (build_flv_tag_wire tag) =
        omega (arith, length-build_flv_tag_wire tag) in
      rw total (drop-append (build_flv_tag_wire tag) rest)

  body-wire : take (length tag.body) (drop 11 (wire tag rest)) ≡ tag.body
  unfolding build_flv_tag_wire
  body-wire =
      rw (append_assoc tag.body (be32 ((11 + length tag.body % 2 ^ 32) % 2 ^ 32)) rest)
        (take-append tag.body _)

  code-wire : tag_try_from (byte_at (wire tag rest) 0) ≡ ok tag.tag_type
  unfolding build_flv_tag_wire
  code-wire = tag_try_from-tag_code tag.tag_type

-- A packet stamped with the time it is read at.
abbrev pub stamp : ℕ → FlvTagPacket → FlvTagPacket
stamp now tag = record tag { origin_ts = now }

module _ (clock : ℕ → ℕ) where
  -- The packets stamped in turn, the count of the tags before them being given.
  abbrev pub stamped : ℕ → List FlvTagPacket → List FlvTagPacket
  stamped n [] = []
  stamped n (t ∷ ts) = stamp (clock n) t ∷ stamped ((n + 1) % 2 ^ 64) ts

  parse_tag-wire :
      (s : Pull) (tag : FlvTagPacket) (rest : List ℕ)
      → IsPacket tag
      → s.buffer ≡ wire tag rest
      → parse_tag clock s ≡ goes (emit s (stamp (clock s.tag_counter) tag) rest)
  unfolding parse_tag
  parse_tag-wire s tag rest good e =
      let n : ℕ = length tag.body in
      let b : List ℕ = s.buffer in
      let size : length b ≡ 15 + n + length rest = rw e (length-wire tag rest good) in
      let body : take n (drop 11 b) ≡ tag.body = rw e (body-wire tag rest good) in
      let short : ltb (length b) 11 ≡ false = le→ltb _ _ (omega arith) in
      let whole : ltb (length b) (11 + n + 4) ≡ false = le→ltb _ _ (omega arith) in
      let code : tag_try_from (byte_at b 0) ≡ ok tag.tag_type = rw e (code-wire tag rest good) in
      let field : size_field b ≡ n = rw e (size_field-wire tag rest good) in
      let time : timestamp_field b ≡ tag.timestamp_ms = rw e (timestamp_field-wire tag rest good) in
      let after : drop (11 + n + 4) b ≡ rest = rw e (drop-wire tag rest good) in
      rw (short, code, field, whole, time, body, after) refl

  -- The state after the packets: all are broadcast and cached, in order.
  pub after_tags : Pull → List FlvTagPacket → List ℕ → Pull
  after_tags s [] rest = record s { buffer = rest }
  after_tags s (t ∷ ts) rest =
      after_tags (emit s (stamp (clock s.tag_counter) t) (wires ts ++ rest)) ts rest

  after_tags-sent :
      (s : Pull) (ts : List FlvTagPacket) (rest : List ℕ)
      → (after_tags s ts rest).sent ≡ s.sent ++ stamped s.tag_counter ts
  unfolding after_tags emit
  after_tags-sent s [] rest = sym (append-nil s.sent)
  after_tags-sent s (t ∷ ts) rest =
      after_tags-sent (emit s (stamp (clock s.tag_counter) t) (wires ts ++ rest)) ts rest
      ∙ append_assoc s.sent (stamp (clock s.tag_counter) t ∷ []) _

  after_tags-cache :
      (s : Pull) (ts : List FlvTagPacket) (rest : List ℕ)
      → (after_tags s ts rest).cache ≡ add_all s.cache (stamped s.tag_counter ts)
  unfolding after_tags emit add_all
  after_tags-cache s [] rest = refl
  after_tags-cache s (t ∷ ts) rest =
      after_tags-cache (emit s (stamp (clock s.tag_counter) t) (wires ts ++ rest)) ts rest

  after_tags-buffer :
      (s : Pull) (ts : List FlvTagPacket) (rest : List ℕ) → (after_tags s ts rest).buffer ≡ rest
  unfolding after_tags
  after_tags-buffer s [] rest = refl
  after_tags-buffer s (t ∷ ts) rest =
      after_tags-buffer (emit s (stamp (clock s.tag_counter) t) (wires ts ++ rest)) ts rest

  round-parsed : (s : Pull) → s.flv_header_parsed ≡ true → round clock s ≡ parse_tag clock s
  unfolding round
  round-parsed s parsed = ap (λ p. if p then parse_tag clock s else parse_header s) parsed

  parse_tag_short : (s : Pull) → length s.buffer < 11 → parse_tag clock s ≡ waits
  unfolding parse_tag
  parse_tag_short s h = rw (lt→ltb _ _ h) refl

  parse_all-after_tags :
      (s : Pull) (ts : List FlvTagPacket) (rest : List ℕ)
      → All IsPacket ts
      → s.flv_header_parsed ≡ true
      → s.buffer ≡ wires ts ++ rest
      → length rest < 11
      → parse_all clock s ≡ waiting (after_tags s ts rest)
  unfolding after_tags emit
  parse_all-after_tags s [] rest good parsed e short =
      parse_all-waits clock s (round-parsed s parsed ∙ parse_tag_short s (rw e short))
      ∙ ap (λ b. waiting (record s { buffer = b })) e
  parse_all-after_tags s (t ∷ ts) rest good parsed e short =
      let from : s.buffer ≡ wire t (wires ts ++ rest) =
        e ∙ append_assoc (build_flv_tag_wire t) (wires ts) rest in
      let next : Pull = emit s (stamp (clock s.tag_counter) t) (wires ts ++ rest) in
      parse_all-goes clock s next
        (round-parsed s parsed ∙ parse_tag-wire s t (wires ts ++ rest) good.0 from)
      ∙ parse_all-after_tags next ts rest good.1 parsed refl short

  -- With the header behind it, a puller whose buffer holds whole packets that fit the format, in
  -- their wire form, and at
  -- most ten bytes more, broadcasts those packets, in order and with all their fields but the time
  -- they came from, which is stamped anew. It caches the same, and keeps the bytes that are left.
  pub parse_all-wires :
      (s : Pull) (ts : List FlvTagPacket) (rest : List ℕ)
      → All IsPacket ts
      → s.flv_header_parsed ≡ true
      → s.buffer ≡ wires ts ++ rest
      → length rest < 11
      → (s' : Pull) × (parse_all clock s ≡ waiting s')
        × (s'.buffer ≡ rest)
        × (s'.sent ≡ s.sent ++ stamped s.tag_counter ts)
        × (s'.cache ≡ add_all s.cache (stamped s.tag_counter ts))
  parse_all-wires s ts rest good parsed e short = (
    after_tags s ts rest,
    parse_all-after_tags s ts rest good parsed e short,
    after_tags-buffer s ts rest,
    after_tags-sent s ts rest,
    after_tags-cache s ts rest,
  )
