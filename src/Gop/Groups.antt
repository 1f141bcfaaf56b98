-- ===== src/Gop/Groups.antt =====
-- What the cache holds, against the whole history of the stream: the groups that the keyframes cut
-- it into, none of them bounded and none forgotten.
use live_cdn.Common.{
  ℕ, zero, suc, ◌-◌, ◌≤◌, ◌<◌, ◌≡◌, refl, sym, ap, ◌∙◌, max, Option, none, some, List, [], ◌∷◌,
  ◌++◌, map, map-append, arith, ltb, if◌then◌else◌, length, take, drop, inl, inr, length-append,
  length-map, Bool-cases, ltb→lt, ltb→le, lt→ltb,
}
use native.Mathlib.Nat.{zero-sub}
use live_cdn.Flv.{FlvTagPacket}
use live_cdn.Gop.{Gop, GopCacheConfig, all_tags, gop_len, evict}
use live_cdn.Gop.Shape.{
  Place, as_metadata, as_aac_header, as_video_header, starts_group, joins_group, place,
}

pub record Groups : Type 0 where
  pub closed : List (List FlvTagPacket)
  pub last : Option (List FlvTagPacket)

abbrev pub no_groups : Groups
no_groups = record { closed = []; last = none }

abbrev pub close : Groups → List (List FlvTagPacket)
close gs = elim gs.last [ none ↦ gs.closed | some g ↦ gs.closed ++ g ∷ [] ]

abbrev pub extend : FlvTagPacket → Option (List FlvTagPacket) → Option (List FlvTagPacket)
extend t none = none
extend t (some g) = some (g ++ t ∷ [])

abbrev pub group_at : Groups → FlvTagPacket → Place → Groups
group_at gs t as_metadata = gs
group_at gs t as_aac_header = gs
group_at gs t as_video_header = gs
group_at gs t starts_group = record { closed = close gs; last = some (t ∷ []) }
group_at gs t joins_group = record gs { last = extend t gs.last }

-- The history as groups: a keyframe closes the group before it; what comes before the first
-- keyframe belongs to none, and nor do the headers.
unfoldable pub group_all : Groups → List FlvTagPacket → Groups
group_all gs [] = gs
group_all gs (t ∷ ts) = group_all (group_at gs t (place t)) ts

unfoldable pub groups : List FlvTagPacket → Groups
groups = group_all no_groups

-- A group keeps its keyframe even where the limit is 0.
abbrev pub cap : GopCacheConfig → ℕ
cap config = max 1 config.max_frames_per_gop

abbrev pub opt_map {ℓ κ} : {A : Type ℓ} {B : Type κ} → (A → B) → Option A → Option B
opt_map f none = none
opt_map f (some a) = some (f a)

evict-map :
    {A B : Type 0} (n : ℕ) (f : A → B) (xs : List A) → map f (evict n xs) ≡ evict n (map f xs)
unfolding evict
evict-map n f [] = refl
evict-map n f (x ∷ xs) = elim (Bool-cases (ltb n (suc (length xs)))) [
  | inl full ↦ rw (length-map xs f, full) (evict-map n f xs)
  | inr room ↦ rw (length-map xs f, room) refl
]

evict-evict-append :
    {A : Type 0} (n : ℕ) (xs ys : List A) → evict n (evict n xs ++ ys) ≡ evict n (xs ++ ys)
unfolding evict
evict-evict-append n [] ys = refl
evict-evict-append n (x ∷ xs) ys = elim (Bool-cases (ltb n (suc (length xs)))) [
  | inl full ↦
      let more : n < suc (length (xs ++ ys)) =
        omega (arith, ltb→lt _ _ full, length-append xs ys) in
      rw (full, lt→ltb n (suc (length (xs ++ ys))) more) (evict-evict-append n xs ys)
  | inr room ↦ rw room refl
]

pub length-evict : {A : Type 0} (n : ℕ) (xs : List A) → length (evict n xs) ≤ n
unfolding evict
length-evict n [] = omega arith
length-evict n (x ∷ xs) = ground (arith, length-evict n xs)

-- The last `n` entries of a list; eviction keeps these.
abbrev pub last_n : {A : Type 0} → ℕ → List A → List A
last_n n xs = drop (length xs - n) xs

pub evict-last_n : {A : Type 0} (n : ℕ) (xs : List A) → evict n xs ≡ last_n n xs
unfolding evict
evict-last_n n [] = rw zero-sub
evict-last_n n (x ∷ xs) = elim (Bool-cases (ltb n (suc (length xs)))) [
  | inl full ↦
      let more : suc (length xs) - n ≡ suc (length xs - n) = omega (arith, ltb→lt _ _ full) in
      rw (full, more) (evict-last_n n xs)
  | inr room ↦
      let none_over : suc (length xs) - n ≡ 0 = omega (arith, ltb→le _ _ room) in
      rw (room, none_over) refl
]

take-snoc_lt :
    {A : Type 0} (m : ℕ) (xs : List A) (y : A)
    → length (take m xs) < m
    → take m (xs ++ y ∷ []) ≡ take m xs ++ y ∷ []
take-snoc_lt zero xs y h = elim h [ ]
take-snoc_lt (suc zero) [] y h = refl
take-snoc_lt (suc (suc m)) [] y h = refl
take-snoc_lt (suc m) (x ∷ xs) y h = ap (◌∷◌ x) (take-snoc_lt m xs y (omega arith))

take-snoc_full :
    {A : Type 0} (m : ℕ) (xs : List A) (y : A)
    → m ≤ length (take m xs)
    → take m (xs ++ y ∷ []) ≡ take m xs
take-snoc_full zero xs y h = refl
take-snoc_full (suc m) [] y h = elim h [ ]
take-snoc_full (suc m) (x ∷ xs) y h = ap (◌∷◌ x) (take-snoc_full m xs y (omega arith))

-- The two changes of a group: it joins the ring, and a tag joins it.
abbrev pub ring_after : ℕ → List Gop → Option Gop → List Gop
ring_after n ring none = ring
ring_after n ring (some g) = evict n (ring ++ g ∷ [])

abbrev pub closed_after :
    List (List FlvTagPacket) → Option (List FlvTagPacket) → List (List FlvTagPacket)
closed_after closed none = closed
closed_after closed (some g) = closed ++ g ∷ []

pub ring_after-closed_after :
    (n m : ℕ) (ring : List Gop) (cur : Option Gop) (closed : List (List FlvTagPacket))
    (last : Option (List FlvTagPacket))
    → map all_tags ring ≡ map (take m) (evict n closed)
    → opt_map all_tags cur ≡ opt_map (take m) last
    → map all_tags (ring_after n ring cur) ≡ map (take m) (evict n (closed_after closed last))
ring_after-closed_after n m ring none closed none r c = r
ring_after-closed_after n m ring none closed (some g) r c = cc
ring_after-closed_after n m ring (some g) closed none r c = cc
ring_after-closed_after n m ring (some g) closed (some h) r c =
    let same : all_tags g ≡ take m h = cc in
    evict-map n all_tags (ring ++ g ∷ [])
    ∙ ap (evict n) (map-append all_tags ring (g ∷ []))
    ∙ rw (r, same, evict-map n (take m) closed, evict-evict-append n (map (take m) closed))
        (ap (evict n) (sym (map-append (take m) closed (h ∷ [])))
          ∙ sym (evict-map n (take m) (closed ++ h ∷ [])))

abbrev pub joined : ℕ → FlvTagPacket → Option Gop → Option Gop
joined max_frames t none = none
joined max_frames t (some g) =
    if ltb (gop_len g) max_frames then some (record g { frames = g.frames ++ t ∷ [] }) else some g

pub joined-extend :
    (max_frames : ℕ) (t : FlvTagPacket) (cur : Option Gop) (last : Option (List FlvTagPacket))
    → opt_map all_tags cur ≡ opt_map (take (max 1 max_frames)) last
    → opt_map all_tags (joined max_frames t cur) ≡ opt_map (take (max 1 max_frames)) (extend t last)
joined-extend max_frames t none none c = refl
joined-extend max_frames t none (some h) c = cc
joined-extend max_frames t (some g) none c = cc
joined-extend max_frames t (some g) (some h) c =
    let m : ℕ = max 1 max_frames in
    let same : all_tags g ≡ take m h = cc in
    let size : gop_len g ≡ length (take m h) = omega (arith, ap length same) in
    elim (Bool-cases (ltb (gop_len g) max_frames)) [
      | inl room ↦ rw room (
          ap some (
            ap (λ l. l ++ t ∷ []) same ∙ sym (take-snoc_lt m h t (omega (arith, ltb→lt _ _ room)))))
      | inr full ↦
          rw full (ap some (same ∙ sym (take-snoc_full m h t (omega (arith, ltb→le _ _ full)))))
    ]
