-- ===== src/Config/Urls.antt =====
-- The URLs that the settings give.
use live_cdn.Common.{
  ℕ, zero, suc, ◌≡◌, ◌≤◌, ◌-◌, ◌+◌, refl, sym, ap, ◌∙◌, Bool, true, ◌&&◌, not, is_some, false,
  Option, none, some, List, [], ◌∷◌, ◌++◌, codes, strip_prefix, starts_with, replace, replace_in,
  length, drop, arith, length-append, append-nil,
}
use live_cdn.Config.{Config, controller_api_url, origin_flv_url, flv_url_from}

-- A path gives the same URL with and without its leading slash.
pub controller_api_url-slash :
    (c : Config) (path : List ℕ)
    → starts_with path (codes "/") ≡ false
    → controller_api_url c path ≡ controller_api_url c (codes "/" ++ path)
unfolding controller_api_url
controller_api_url-slash c path h = rw h refl

strip_prefix-append : (p s : List ℕ) → strip_prefix (p ++ s) p ≡ some s
strip_prefix-append [] [] = refl
strip_prefix-append [] (c ∷ s) = refl
strip_prefix-append (c ∷ p) s = ground (arith, strip_prefix-append p s)

-- A text in which a placeholder does not start at any place before its end.
abbrev pub IsClear : List ℕ → List ℕ → List ℕ → Type 0
IsClear p [] after = Unit {0}
IsClear p (c ∷ s) after = (strip_prefix ((c ∷ s) ++ after) p ≡ none) × IsClear p s after

abbrev pub is_clear : List ℕ → List ℕ → List ℕ → Bool
is_clear p [] after = true
is_clear p (c ∷ s) after =
    let rest = is_clear p s after in not (is_some (strip_prefix ((c ∷ s) ++ after) p)) && rest

pub is_clear-IsClear : (p s after : List ℕ) → is_clear p s after ≡ true → IsClear p s after
is_clear-IsClear p [] after h = tt
is_clear-IsClear p (c ∷ s) after h = ground (arith, is_clear-IsClear p s after)

replace_in-clear :
    (s after p v : List ℕ) (n : ℕ)
    → IsClear p s after
    → length s ≤ n
    → replace_in n (s ++ after) p v ≡ s ++ replace_in (n - length s) after p v
unfolding replace_in
replace_in-clear [] after p v n h k = let e : n - 0 ≡ n = omega arith in rw e refl
replace_in-clear (c ∷ s) after p v zero h k = absurd (omega arith)
replace_in-clear (c ∷ s) after p v (suc n) h k =
    let e : suc n - suc (length s) ≡ n - length s = omega arith in
    rw (replace_in, h.0, e) (ap (◌∷◌ c) (replace_in-clear s after p v n h.1 (omega arith)))

replace_in-nil : (n : ℕ) (p v : List ℕ) → replace_in n [] p v ≡ []
unfolding replace_in
replace_in-nil zero p v = refl
replace_in-nil (suc n) p v = refl

replace_in-at :
    (n : ℕ) (p s v : List ℕ) (q : ℕ)
    → replace_in (suc n) (q ∷ p ++ s) (q ∷ p) v ≡ v ++ replace_in n s (q ∷ p) v
unfolding replace_in
replace_in-at n p s v q = rw (replace_in, strip_prefix-append (q ∷ p) s) refl

replace_in-end : (s p v : List ℕ) (n : ℕ) → IsClear p s [] → length s ≤ n → replace_in n s p v ≡ s
replace_in-end s p v n h k =
    ap (λ t. replace_in n t p v) (sym (append-nil s))
    ∙ replace_in-clear s [] p v n h k
    ∙ ap (◌++◌ s) (replace_in-nil (n - length s) p v)
    ∙ append-nil s

replace_in-once :
    (before after p v : List ℕ) (q n : ℕ)
    → IsClear (q ∷ p) before (q ∷ p ++ after)
    → IsClear (q ∷ p) after []
    → length before + (1 + length after) ≤ n
    → replace_in n (before ++ (q ∷ p ++ after)) (q ∷ p) v ≡ before ++ (v ++ after)
replace_in-once before after p v q n h k l =
    let m = n - length before - 1 in
    let e : n - length before ≡ suc m = omega arith in
    replace_in-clear before (q ∷ p ++ after) (q ∷ p) v n h (omega arith)
    ∙ ap (◌++◌ before) (
        ap (λ i. replace_in i (q ∷ p ++ after) (q ∷ p) v) e
        ∙ replace_in-at m p after v q
        ∙ ap (◌++◌ v) (replace_in-end after (q ∷ p) v m k (omega arith)))

abbrev pub placeholder : List ℕ
placeholder = codes "{stream_key}"

-- The template that is in force: the upstream's before the origin's.
abbrev pub template_of : Option (List ℕ) → Option (List ℕ) → Option (List ℕ)
template_of (some upstream) template = some upstream
template_of none template = template

flv_url_from-template :
    (upstream template : Option (List ℕ)) (base url stream_key : List ℕ)
    → template_of upstream template ≡ some url
    → flv_url_from upstream template base stream_key ≡ replace url placeholder stream_key
flv_url_from-template (some u) t base url key e = cc
flv_url_from-template none (some u) base url key e = cc
flv_url_from-template none none base url key e = absurd cc

replace-once :
    (before after v : List ℕ)
    → IsClear placeholder before (placeholder ++ after)
    → IsClear placeholder after []
    → replace (before ++ (placeholder ++ after)) placeholder v ≡ before ++ (v ++ after)
replace-once before after v h k =
    let l = length-append before (placeholder ++ after) in
    let l' = length-append placeholder after in
    replace_in-once before after (drop 1 placeholder) v 123
      (length (before ++ (placeholder ++ after))) h k (omega arith)

-- A template that names the stream once, whether an upstream's or, where none is set, the origin's:
-- the URL has the stream's key at that place and the rest of the template around it.
pub origin_flv_url-template :
    (c : Config) (before after stream_key : List ℕ)
    → template_of c.cascade_upstream c.origin_flv_template ≡ some (before ++ (placeholder ++ after))
    → IsClear placeholder before (placeholder ++ after)
    → IsClear placeholder after []
    → origin_flv_url c stream_key ≡ before ++ (stream_key ++ after)
unfolding origin_flv_url
origin_flv_url-template c before after stream_key e h k =
    flv_url_from-template c.cascade_upstream c.origin_flv_template c.controller_url
      (before ++ (placeholder ++ after)) stream_key e
    ∙ replace-once before after stream_key h k
