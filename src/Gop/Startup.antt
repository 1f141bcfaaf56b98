-- ===== src/Gop/Startup.antt =====
-- The cache implements its specification: what it holds after any stream, and what a viewer gets.
use live_cdn.Common.{
  ℕ, zero, suc, ◌≤◌, ◌≡◌, refl, sym, ap, ◌∙◌, Bool, true, false, Option, none, some, List, [], ◌∷◌,
  ◌++◌, map, arith, if◌then◌else◌, take,
}
use live_cdn.Flv.{FlvTagPacket}
use live_cdn.Gop.{
  Gop, GopCache, GopCacheConfig, all_tags, gop_tags, opt_list, new_cache, evict, add_to_current_gop,
  finalize_current_gop, add_tag, add_all, get_startup_tags,
}
use live_cdn.Gop.Shape.{
  Place, as_metadata, as_aac_header, as_video_header, starts_group, joins_group, place, put,
  counted, add_tag-put,
}
use live_cdn.Gop.Groups.{
  Groups, no_groups, close, closed_after, group_at, group_all, groups, cap, opt_map, last_n,
  evict-last_n, ring_after, joined, ring_after-closed_after, joined-extend,
}

-- The cache holds the last closed groups and the one that is being built, each cut at the limit.
pub record Holds (config : GopCacheConfig) (c : GopCache) (gs : Groups) : Type 0 where
  pub same_config : c.config ≡ config
  pub ring : map all_tags c.gop_ring ≡ map (take (cap config)) (evict config.gop_count gs.closed)
  pub current : opt_map all_tags c.current_gop ≡ opt_map (take (cap config)) gs.last

finalize-ring :
    (c : GopCache)
    → ((finalize_current_gop c).gop_ring ≡ ring_after c.config.gop_count c.gop_ring c.current_gop)
      × ((finalize_current_gop c).config ≡ c.config)
unfolding finalize_current_gop
finalize-ring c = (ground arith, ground arith)

add-current :
    (c : GopCache) (t : FlvTagPacket)
    → ((add_to_current_gop c t).current_gop ≡ joined c.config.max_frames_per_gop t c.current_gop)
      × ((add_to_current_gop c t).gop_ring ≡ c.gop_ring)
      × ((add_to_current_gop c t).config ≡ c.config)
unfolding add_to_current_gop
add-current c t = (ground arith, ground arith, ground arith)

close-closed_after : (gs : Groups) → close gs ≡ closed_after gs.closed gs.last
close-closed_after gs = ground arith

take-one : (m : ℕ) (t : FlvTagPacket) → 1 ≤ m → take m (t ∷ []) ≡ t ∷ []
take-one zero t h = elim h [ ]
take-one (suc zero) t h = refl
take-one (suc (suc m)) t h = refl

put-Holds :
    {config : GopCacheConfig} {c : GopCache} {gs : Groups} (t : FlvTagPacket) (p : Place)
    → Holds config c gs
    → Holds config (put c t p) (group_at gs t p)
unfolding put
put-Holds t as_metadata h = record {
  same_config = h.same_config;
  ring = h.ring;
  current = h.current;
}
put-Holds t as_aac_header h = record {
  same_config = h.same_config;
  ring = h.ring;
  current = h.current;
}
put-Holds t as_video_header h = record {
  same_config = h.same_config;
  ring = h.ring;
  current = h.current;
}
put-Holds {config} {c} {gs} t starts_group h = record {
  same_config = (finalize-ring c).1 ∙ h.same_config;
  ring =
      rw ((finalize-ring c).0, h.same_config, close-closed_after gs)
        (ring_after-closed_after config.gop_count (cap config) c.gop_ring c.current_gop gs.closed
          gs.last h.ring h.current);
  current = ap some (sym (take-one (cap config) t (omega arith)));
}
put-Holds {config} {c} {gs} t joins_group h = record {
  same_config = (add-current c t).2 ∙ h.same_config;
  ring = ap (map all_tags) (add-current c t).1 ∙ h.ring;
  current =
      rw ((add-current c t).0, h.same_config)
        (joined-extend config.max_frames_per_gop t c.current_gop gs.last h.current);
}

pub add_all-snoc :
    (ts : List FlvTagPacket) (c : GopCache) (t : FlvTagPacket)
    → add_all c (ts ++ t ∷ []) ≡ add_tag (add_all c ts) t
unfolding add_all
add_all-snoc [] c t = refl
add_all-snoc (u ∷ ts) c t = add_all-snoc ts (add_tag c u) t

pub add_all-Holds :
    {config : GopCacheConfig} (ts : List FlvTagPacket) {c : GopCache} {gs : Groups}
    → Holds config c gs
    → Holds config (add_all c ts) (group_all gs ts)
unfolding add_all group_all counted
add_all-Holds [] h = h
add_all-Holds (t ∷ ts) {c} {gs} h =
    add_all-Holds ts {c = add_tag c t} {gs = group_at gs t (place t)} (
      rw (add_tag-put c t) (
        put-Holds t (place t)
          (record { same_config = h.same_config; ring = h.ring; current = h.current })))

-- The newest entry that passes a test.
abbrev or_else : {A : Type 0} → Option A → Option A → Option A
or_else none b = b
or_else (some a) b = some a

abbrev pub last_such : {A : Type 0} → (A → Bool) → List A → Option A
last_such p [] = none
last_such p (x ∷ xs) = or_else (last_such p xs) (if p x then some x else none)

abbrev pub is_metadata : FlvTagPacket → Bool
is_metadata t = elim (place t) [ as_metadata ↦ true | _ ↦ false ]

abbrev pub is_aac_header : FlvTagPacket → Bool
is_aac_header t = elim (place t) [ as_aac_header ↦ true | _ ↦ false ]

abbrev pub is_video_header : FlvTagPacket → Bool
is_video_header t = elim (place t) [ as_video_header ↦ true | _ ↦ false ]

-- A slot that was set by one tag, then by the others.
join :
    (b : Bool) (t : FlvTagPacket) (old new : Option FlvTagPacket) (later : Option FlvTagPacket)
    → new ≡ (if b then some t else old)
    → or_else later new ≡ or_else (or_else later (if b then some t else none)) old
join true t old new none e = e
join false t old new none e = e
join b t old new (some a) e = refl

or_else-none : {A : Type 0} (o : Option A) → or_else o none ≡ o
or_else-none none = refl
or_else-none (some a) = refl

put_slots :
    (c : GopCache) (t : FlvTagPacket)
    → ((put c t (place t)).metadata ≡ (if is_metadata t then some t else c.metadata))
      × ((put c t (place t)).aac_seq_header
          ≡ (if is_aac_header t then some t else c.aac_seq_header))
      × ((put c t (place t)).video_seq_header
          ≡ (if is_video_header t then some t else c.video_seq_header))
unfolding put add_to_current_gop finalize_current_gop
put_slots c t = (ground arith, ground arith, ground arith)

add_all-slots :
    (ts : List FlvTagPacket) (c : GopCache)
    → ((add_all c ts).metadata ≡ or_else (last_such is_metadata ts) c.metadata)
      × ((add_all c ts).aac_seq_header ≡ or_else (last_such is_aac_header ts) c.aac_seq_header)
      × ((add_all c ts).video_seq_header
          ≡ or_else (last_such is_video_header ts) c.video_seq_header)
unfolding add_all counted
add_all-slots [] c = (refl, refl, refl)
add_all-slots (t ∷ ts) c =
    let (m, a, v) = put_slots (counted c) t in
    let (ms, as', vs) = add_all-slots ts (add_tag c t) in
    let e : add_tag c t ≡ put (counted c) t (place t) = add_tag-put c t in
    (
      ms ∙ join (is_metadata t) t _ _ (last_such is_metadata ts) (ap (λ d. d.metadata) e ∙ m),
      as'
          ∙ join (is_aac_header t) t _ _ (last_such is_aac_header ts)
              (ap (λ d. d.aac_seq_header) e ∙ a),
      vs
          ∙ join (is_video_header t) t _ _ (last_such is_video_header ts)
              (ap (λ d. d.video_seq_header) e ∙ v),
    )

abbrev pub flat : {A : Type 0} → List (List A) → List A
flat [] = []
flat (xs ∷ xss) = xs ++ flat xss

gop_tags-flat : (gs : List Gop) → gop_tags gs ≡ flat (map all_tags gs)
gop_tags-flat [] = refl
gop_tags-flat (g ∷ gs) = ap (◌++◌ (all_tags g)) (gop_tags-flat gs)

gop_tags-current :
    (cur : Option Gop) → gop_tags (opt_list cur) ≡ flat (opt_list (opt_map all_tags cur))
gop_tags-current none = refl
gop_tags-current (some g) = refl

pub new_cache-Holds : (config : GopCacheConfig) → Holds config (new_cache config) no_groups
unfolding new_cache evict
new_cache-Holds config = record { same_config = refl; ring = refl; current = refl }

-- What a viewer needs of the history `ts`, by the documentation: the newest metadata, AAC header
-- and video header, then the last `gop_count` closed groups and the one that is being built, each
-- cut at the limit, oldest first.
abbrev pub startup_spec : GopCacheConfig → List FlvTagPacket → List FlvTagPacket
startup_spec config ts =
    opt_list (last_such is_metadata ts)
    ++ (opt_list (last_such is_aac_header ts)
        ++ (opt_list (last_such is_video_header ts)
            ++ (flat (map (take (cap config)) (last_n config.gop_count (groups ts).closed))
                ++ flat (opt_list (opt_map (take (cap config)) (groups ts).last)))))

-- Whatever the configuration and the stream of tags, a cache fed with the stream hands out exactly
-- `startup_spec` of it: the newest metadata, AAC header and video header, then the last `gop_count`
-- closed groups and the one that is being built, each cut at the limit, oldest first.
pub get_startup_tags-add_all :
    (config : GopCacheConfig) (ts : List FlvTagPacket)
    → get_startup_tags (add_all (new_cache config) ts) ≡ startup_spec config ts
unfolding get_startup_tags groups new_cache
get_startup_tags-add_all config ts =
    let c : GopCache = add_all (new_cache config) ts in
    let h : Holds config c (groups ts) = add_all-Holds ts (new_cache-Holds config) in
    let (m, a, v) = add_all-slots ts (new_cache config) in
    rw
      (
        m ∙ or_else-none (last_such is_metadata ts),
        a ∙ or_else-none (last_such is_aac_header ts),
        v ∙ or_else-none (last_such is_video_header ts),
        gop_tags-flat c.gop_ring,
        h.ring,
        evict-last_n config.gop_count (groups ts).closed,
        gop_tags-current c.current_gop,
        h.current,
      )
      refl
