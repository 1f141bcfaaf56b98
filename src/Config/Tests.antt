-- ===== src/Config/Tests.antt =====
-- The theorems on the settings at concrete inputs.
use live_cdn.Common.{
  ℕ, ◌≡◌, refl, Option, none, some, List, ok, codes, same, is_space, if◌then◌else◌,
}
use live_cdn.Config.{
  Config, default_config, override, normalize, normalize_optional_template, named, load,
  origin_flv_url, origin_hls_url, listen_text,
}
use live_cdn.Config.Ready.{IsReady, load-IsReady}

-- An environment that sets the controller's URL and an upstream.
abbrev test_env : List ℕ → Option (List ℕ)
test_env name =
    if same name (codes "CONTROLLER_URL")
    then some (codes "http://controller:8080///")
    else if same name (codes "CASCADE_UPSTREAM")
    then some (codes " http://edge/live/{stream_key}.flv/ ")
    else none

abbrev test_config : Config
test_config = named (some (codes "host")) (normalize (override test_env default_config))

loaded_test_config : load {E = ℕ} none test_env (some (codes "host")) ≡ ok test_config
unfolding load
loaded_test_config = refl

load-IsReady_example : IsReady test_config
load-IsReady_example =
    load-IsReady {E = ℕ} none test_env (some (codes "host")) test_config loaded_test_config

test_upstream : test_config.cascade_upstream ≡ some (codes "http://edge/live/{stream_key}.flv")
unfolding override normalize named default_config normalize_optional_template is_space
test_upstream = refl

derived_urls :
    (origin_hls_url default_config (codes "s") ≡ codes "http://controller:8080/live/s/stream.m3u8")
    × (origin_flv_url default_config (codes "s") ≡ codes "http://controller:8080/live/s.flv")
unfolding default_config origin_hls_url origin_flv_url
derived_urls = (refl, refl)

listen_default : listen_text default_config ≡ codes "0.0.0.0:9090"
unfolding default_config listen_text
listen_default = refl
