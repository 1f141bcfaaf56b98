-- ===== src/Gop/Served.antt =====
-- The shape and the size of what the cache keeps and serves.
use live_cdn.Common.{
  ℕ, zero, suc, ◌≤◌, ◌≡◌, refl, ap, Option, none, some, List, [], ◌∷◌, ◌++◌, map, arith, length,
  take, drop, All, All-append, length-map, length-take,
}
use live_cdn.Flv.{FlvTagPacket}
use live_cdn.Gop.{GopCacheConfig, GopCache, all_tags, opt_list, new_cache, add_all, evict}
use live_cdn.Gop.Shape.{
  Place, as_metadata, as_aac_header, as_video_header, starts_group, joins_group, place,
}
use live_cdn.Gop.Groups.{
  Groups, no_groups, close, extend, group_at, group_all, groups, cap, opt_map, last_n, evict-last_n,
  length-evict,
}
use live_cdn.Gop.Startup.{Holds, add_all-Holds, new_cache-Holds}

-- A group: a keyframe, then tags that are none and no headers either.
abbrev pub IsGroup : List FlvTagPacket → Type 0
IsGroup [] = ⊥
IsGroup (t ∷ ts) = (place t ≡ starts_group) × All (λ u. place u ≡ joins_group) ts

IsGroup-snoc :
    (g : List FlvTagPacket) (t : FlvTagPacket)
    → IsGroup g
    → place t ≡ joins_group
    → IsGroup (g ++ t ∷ [])
IsGroup-snoc [] t h e = absurd h
IsGroup-snoc (u ∷ us) t h e = (h.0, All-append (λ v. place v ≡ joins_group) us (t ∷ []) h.1 (e, tt))

All-take {ℓ κ} : {A : Type ℓ} (P : A → Type κ) (m : ℕ) (xs : List A) → All P xs → All P (take m xs)
All-take P zero xs h = tt
All-take P (suc m) [] h = tt
All-take P (suc m) (x ∷ xs) h = (h.0, All-take P m xs h.1)

All-drop {ℓ κ} : {A : Type ℓ} (P : A → Type κ) (m : ℕ) (xs : List A) → All P xs → All P (drop m xs)
All-drop P zero xs h = h
All-drop P (suc m) [] h = tt
All-drop P (suc m) (x ∷ xs) h = All-drop P m xs h.1

IsGroup-take : (m : ℕ) (g : List FlvTagPacket) → 1 ≤ m → IsGroup g → IsGroup (take m g)
IsGroup-take zero g p h = elim p [ ]
IsGroup-take (suc m) [] p h = h
IsGroup-take (suc m) (t ∷ ts) p h = (h.0, All-take (λ u. place u ≡ joins_group) m ts h.1)

abbrev AllGroups : Groups → Type 0
AllGroups gs = All IsGroup gs.closed × All IsGroup (opt_list gs.last)

extend-IsGroup :
    (last : Option (List FlvTagPacket)) (t : FlvTagPacket)
    → place t ≡ joins_group
    → All IsGroup (opt_list last)
    → All IsGroup (opt_list (extend t last))
extend-IsGroup none t e h = tt
extend-IsGroup (some g) t e h = (IsGroup-snoc g t h.0 e, tt)

close-IsGroup :
    (closed : List (List FlvTagPacket)) (last : Option (List FlvTagPacket))
    → All IsGroup closed
    → All IsGroup (opt_list last)
    → All IsGroup (close (record { closed = closed; last = last }))
close-IsGroup closed none h k = h
close-IsGroup closed (some g) h k = All-append IsGroup closed (g ∷ []) h k

group_at-AllGroups :
    (gs : Groups) (t : FlvTagPacket) (p : Place)
    → place t ≡ p
    → AllGroups gs
    → AllGroups (group_at gs t p)
group_at-AllGroups gs t as_metadata e h = h
group_at-AllGroups gs t as_aac_header e h = h
group_at-AllGroups gs t as_video_header e h = h
group_at-AllGroups gs t starts_group e h = (close-IsGroup gs.closed gs.last h.0 h.1, ((e, tt), tt))
group_at-AllGroups gs t joins_group e h = (h.0, extend-IsGroup gs.last t e h.1)

group_all-AllGroups :
    (ts : List FlvTagPacket) (gs : Groups) → AllGroups gs → AllGroups (group_all gs ts)
unfolding group_all
group_all-AllGroups [] gs h = h
group_all-AllGroups (t ∷ ts) gs h =
    group_all-AllGroups ts (group_at gs t (place t)) (group_at-AllGroups gs t (place t) refl h)

All-map-take :
    (m : ℕ) (gs : List (List FlvTagPacket)) → 1 ≤ m → All IsGroup gs → All IsGroup (map (take m) gs)
All-map-take m [] p h = tt
All-map-take m (g ∷ gs) p h = (IsGroup-take m g p h.0, All-map-take m gs p h.1)

opt_map-IsGroup :
    (m : ℕ) (last : Option (List FlvTagPacket))
    → 1 ≤ m
    → All IsGroup (opt_list last)
    → All IsGroup (opt_list (opt_map (take m) last))
opt_map-IsGroup m none p h = tt
opt_map-IsGroup m (some g) p h = (IsGroup-take m g p h.0, tt)

sizes : (m : ℕ) (gs : List (List FlvTagPacket)) → All (λ g. length g ≤ m) (map (take m) gs)
sizes m [] = tt
sizes m (g ∷ gs) = (omega (arith, length-take m g), sizes m gs)

opt_sizes :
    (m : ℕ) (last : Option (List FlvTagPacket))
    → All (λ g. length g ≤ m) (opt_list (opt_map (take m) last))
opt_sizes m none = tt
opt_sizes m (some g) = (omega (arith, length-take m g), tt)

-- What the cache keeps.
abbrev pub kept : GopCache → List (List FlvTagPacket)
kept c = map all_tags c.gop_ring ++ opt_list (opt_map all_tags c.current_gop)

-- After any stream every group in the cache starts with a keyframe, holds no other keyframe and no
-- header, and has at most `max_frames_per_gop` tags (or the keyframe alone, where that is 0); at
-- most `gop_count` groups are closed.
pub kept_shape :
    (config : GopCacheConfig) (ts : List FlvTagPacket)
    → let c = add_all (new_cache config) ts in
      All IsGroup (kept c)
      × All (λ g. length g ≤ cap config) (kept c)
      × (length c.gop_ring ≤ config.gop_count)
unfolding groups
kept_shape config ts =
    let c : GopCache = add_all (new_cache config) ts in
    let gs : Groups = group_all no_groups ts in
    let m : ℕ = cap config in
    let older : List (List FlvTagPacket) = last_n config.gop_count gs.closed in
    let h : Holds config c gs = add_all-Holds ts (new_cache-Holds config) in
    let g : AllGroups gs = group_all-AllGroups ts no_groups (tt, tt) in
    let e : kept c ≡ map (take m) older ++ opt_list (opt_map (take m) gs.last) =
      rw (h.ring, evict-last_n config.gop_count gs.closed, h.current) refl in
    (
      rw e (
          All-append IsGroup (map (take m) older) _
            (All-map-take m older (omega arith) (All-drop IsGroup _ gs.closed g.0))
            (opt_map-IsGroup m gs.last (omega arith) g.1)),
      rw e (
          All-append (λ x. length x ≤ m) (map (take m) older) _ (sizes m older)
            (opt_sizes m gs.last)),
      omega (
        arith,
        ap length h.ring,
        length-map c.gop_ring all_tags,
        length-map (evict config.gop_count gs.closed) (take m),
        length-evict config.gop_count gs.closed,
      ),
    )
