-- ===== src/Config.antt =====
-- agent-rust/src/config/mod.rs: the settings of an agent, and the URLs that it derives from them.
-- What the file system and the environment hold are inputs; TOML is a library's.
pub mod Ready
pub mod Urls
mod Tests
use live_cdn.Common.{
  ℕ, ◌*◌, ◌^◌, Bool, true, false, ◌||◌, Option, none, some, List, [], ◌∷◌, ◌++◌, ◌==◌,
  if◌then◌else◌, take, codes, is_nil, same, starts_with, trim, drop_end, replace, parse_below,
  Result, ok, err, is_some,
}

pub record Config : Type 0 where
  pub node_id : List ℕ
  pub public_ip : List ℕ
  pub public_ipv6 : List ℕ
  pub port : ℕ
  pub region : List ℕ
  pub isp : List ℕ
  pub bw_limit : ℕ
  pub domain : List ℕ
  pub protocol : List ℕ
  pub ws_path : List ℕ
  pub tls_enabled : Bool
  pub controller_url : List ℕ
  pub reg_token : List ℕ
  pub listen_addr : List ℕ
  pub listen_ipv6 : Option (List ℕ)
  pub disguise_dir : Option (List ℕ)
  pub hb_interval_secs : ℕ
  pub max_clients : ℕ
  pub buffer_segments : ℕ
  pub auto_update : Bool
  pub latency_mode : List ℕ
  pub backup_origin_url : Option (List ℕ)
  pub origin_flv_template : Option (List ℕ)
  pub cascade_enabled : Bool
  pub cascade_upstream : Option (List ℕ)

unfoldable pub default_config : Config
default_config = record {
  node_id = [];
  public_ip = codes "127.0.0.1";
  public_ipv6 = [];
  port = 9090;
  region = codes "默认";
  isp = codes "默认";
  bw_limit = 10 * 1024 * 1024;
  domain = codes "localhost";
  protocol = codes "ws";
  ws_path = codes "/ws/live";
  tls_enabled = false;
  controller_url = codes "http://controller:8080";
  reg_token = codes "change-me";
  listen_addr = codes ":9090";
  listen_ipv6 = none;
  disguise_dir = none;
  hb_interval_secs = 5;
  max_clients = 500;
  buffer_segments = 30;
  auto_update = true;
  latency_mode = codes "ultra";
  backup_origin_url = none;
  origin_flv_template = none;
  cascade_enabled = false;
  cascade_upstream = none;
}

abbrev pub is_slash : ℕ → Bool
is_slash c = c == 47

-- `trim_end_matches('/')`
abbrev pub without_slashes : List ℕ → List ℕ
without_slashes s = drop_end is_slash s

unfoldable pub normalize_optional_template : Option (List ℕ) → Option (List ℕ)
normalize_optional_template none = none
normalize_optional_template (some v) =
    let t = without_slashes (trim v) in if is_nil t then none else some t

unfoldable pub normalize : Config → Config
normalize c = record c {
  controller_url = without_slashes c.controller_url;
  backup_origin_url = normalize_optional_template c.backup_origin_url;
  origin_flv_template = normalize_optional_template c.origin_flv_template;
  cascade_upstream = normalize_optional_template c.cascade_upstream;
}

-- A variable of the environment takes the place of a setting.
abbrev or_env : Option (List ℕ) → List ℕ → List ℕ
or_env none s = s
or_env (some v) s = v

abbrev or_port : ℕ → Option ℕ → ℕ
or_port p none = p
or_port p (some n) = n

abbrev port_env : Option (List ℕ) → ℕ → ℕ
port_env none p = p
port_env (some v) p = or_port 9090 (parse_below (2 ^ 16) v)

abbrev flag_env : Option (List ℕ) → Bool → Bool
flag_env none b = b
flag_env (some v) b = same v (codes "true") || same v (codes "1")

abbrev some_env : Option (List ℕ) → Option (List ℕ) → Option (List ℕ)
some_env none s = s
some_env (some v) s = some v

-- The overrides of `Config::load`.
unfoldable pub override : (List ℕ → Option (List ℕ)) → Config → Config
override env c = record c {
  node_id = or_env (env (codes "NODE_ID")) c.node_id;
  public_ip = or_env (env (codes "PUBLIC_IP")) c.public_ip;
  public_ipv6 = or_env (env (codes "PUBLIC_IPV6")) c.public_ipv6;
  port = port_env (env (codes "PORT")) c.port;
  region = or_env (env (codes "REGION")) c.region;
  isp = or_env (env (codes "ISP")) c.isp;
  controller_url = or_env (env (codes "CONTROLLER_URL")) c.controller_url;
  reg_token = or_env (env (codes "REG_TOKEN")) c.reg_token;
  domain = or_env (env (codes "DOMAIN")) c.domain;
  cascade_enabled = flag_env (env (codes "CASCADE_ENABLED")) c.cascade_enabled;
  cascade_upstream = some_env (env (codes "CASCADE_UPSTREAM")) c.cascade_upstream;
}

abbrev host_or_unknown : Option (List ℕ) → List ℕ
host_or_unknown none = codes "unknown"
host_or_unknown (some h) = h

unfoldable pub named : Option (List ℕ) → Config → Config
named hostname c =
    if is_nil c.node_id
    then record c { node_id = codes "edge-" ++ take 16 (host_or_unknown hostname) }
    else c

-- `Config::load`: the file, if there is one, may fail to be read or to be parsed. The host's name is
-- ASCII, so its bytes are its characters.
unfoldable pub load :
    {E : Type 0}
    → Option (Result E Config)
    → (List ℕ → Option (List ℕ))
    → Option (List ℕ)
    → Result E Config
load none env hostname = ok (named hostname (normalize (override env default_config)))
load (some (err e)) env hostname = err e
load (some (ok c)) env hostname = ok (named hostname (normalize (override env c)))

unfoldable pub origin_hls_url : Config → List ℕ → List ℕ
origin_hls_url c stream_key =
    without_slashes c.controller_url ++ (codes "/live/" ++ (stream_key ++ codes "/stream.m3u8"))

unfoldable pub controller_api_url : Config → List ℕ → List ℕ
controller_api_url c path =
    without_slashes c.controller_url
    ++ (if starts_with path (codes "/") then path else codes "/" ++ path)

abbrev from_template : List ℕ → List ℕ → List ℕ
from_template url stream_key = replace url (codes "{stream_key}") stream_key

abbrev flv_url_from : Option (List ℕ) → Option (List ℕ) → List ℕ → List ℕ → List ℕ
flv_url_from (some upstream) template base stream_key = from_template upstream stream_key
flv_url_from none (some url) base stream_key = from_template url stream_key
flv_url_from none none base stream_key =
    without_slashes base ++ (codes "/live/" ++ (stream_key ++ codes ".flv"))

-- The method `origin_flv_url`; the setting of that name is `origin_flv_template` here.
unfoldable pub origin_flv_url : Config → List ℕ → List ℕ
origin_flv_url c stream_key =
    flv_url_from c.cascade_upstream c.origin_flv_template c.controller_url stream_key

pub is_cascade_node : Config → Bool
is_cascade_node c = is_some c.cascade_upstream

pub is_cascade_relay : Config → Bool
is_cascade_relay c = c.cascade_enabled

-- The texts that `listen_socket_addr` and `listen_ipv6_socket_addr` hand to the parser of addresses.
pub listen_text : Config → List ℕ
listen_text c =
    if starts_with c.listen_addr (codes ":")
    then codes "0.0.0.0" ++ c.listen_addr
    else c.listen_addr

abbrev v6_text : Option (List ℕ) → Option (List ℕ)
v6_text none = none
v6_text (some v6) = some (if starts_with v6 (codes ":") then codes "[::0]" ++ v6 else v6)

pub listen_ipv6_text : Config → Option (List ℕ)
listen_ipv6_text c = v6_text c.listen_ipv6
