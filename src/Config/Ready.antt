-- ===== src/Config/Ready.antt =====
-- What holds of the settings that an agent starts with.
use live_cdn.Common.{
  ℕ, ◌≡◌, ◌≢◌, refl, subst, Bool, false, ◌&&◌, Option, none, some, List, [], ◌∷◌, is_nil, drop_end,
  trim, Bool-cases, inl, inr, Result, ok, err,
}
use live_cdn.Config.{
  Config, default_config, is_slash, without_slashes, normalize_optional_template, normalize,
  override, named, load,
}

-- A text that no slash ends.
abbrev pub IsTrimmed : List ℕ → Type 0
IsTrimmed s = without_slashes s ≡ s

pub drop_end_idem : (p : ℕ → Bool) (s : List ℕ) → drop_end p (drop_end p s) ≡ drop_end p s
drop_end_idem p [] = refl
drop_end_idem p (c ∷ s) = elim (Bool-cases (is_nil (drop_end p s) && p c)) [
  | inl gone ↦ rw gone refl
  | inr kept ↦ rw kept (rw (drop_end_idem p s, kept) refl)
]

-- A template is missing, or it is a text that is not empty and that no slash ends.
abbrev pub IsTemplate : Option (List ℕ) → Type 0
IsTemplate none = Unit {0}
IsTemplate (some t) = (is_nil t ≡ false) × IsTrimmed t

pub record IsReady (c : Config) : Type 0 where
  pub has_name : c.node_id ≢ []
  pub base : IsTrimmed c.controller_url
  pub backup : IsTemplate c.backup_origin_url
  pub origin : IsTemplate c.origin_flv_template
  pub upstream : IsTemplate c.cascade_upstream

normalize_optional_template-IsTemplate :
    (v : Option (List ℕ)) → IsTemplate (normalize_optional_template v)
unfolding normalize_optional_template
normalize_optional_template-IsTemplate none = tt
normalize_optional_template-IsTemplate (some v) =
    elim (Bool-cases (is_nil (without_slashes (trim v)))) [
      | inl e ↦ rw e tt
      | inr e ↦ rw e (e, drop_end_idem is_slash (trim v))
    ]

not_nil : (s : List ℕ) → is_nil s ≡ false → s ≢ []
not_nil [] e = cc
not_nil (c ∷ s) e = cc

named-IsReady : (hostname : Option (List ℕ)) (c : Config) → IsReady (named hostname (normalize c))
unfolding named normalize
named-IsReady hostname c =
    let backup = normalize_optional_template-IsTemplate c.backup_origin_url in
    let origin = normalize_optional_template-IsTemplate c.origin_flv_template in
    let upstream = normalize_optional_template-IsTemplate c.cascade_upstream in
    let base = drop_end_idem is_slash c.controller_url in
    elim (Bool-cases (is_nil c.node_id)) [
      | inl e ↦ rw e (record {
        has_name = cc;
        base = base;
        backup = backup;
        origin = origin;
        upstream = upstream;
      })
      | inr e ↦ rw e (record {
        has_name = not_nil c.node_id e;
        base = base;
        backup = backup;
        origin = origin;
        upstream = upstream;
      })
    ]

loaded : {E : Type 0} {c d : Config} → ◌≡◌ {A = Result E Config} (ok c) (ok d) → c ≡ d
loaded e = cc

-- Whatever the file holds, if it can be read, and whatever the environment holds: the settings have
-- a node id, no slash ends the controller's URL, and each of the three templates is missing or is a
-- text that is not empty and that no slash ends.
pub load-IsReady :
    {E : Type 0} (file : Option (Result E Config)) (env : List ℕ → Option (List ℕ))
    (hostname : Option (List ℕ)) (c : Config)
    → load file env hostname ≡ ok c
    → IsReady c
unfolding load
load-IsReady none env hostname c e =
    subst IsReady (loaded e) (named-IsReady hostname (override env default_config))
load-IsReady (some (err x)) env hostname c e = absurd cc
load-IsReady (some (ok d)) env hostname c e =
    subst IsReady (loaded e) (named-IsReady hostname (override env d))
