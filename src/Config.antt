-- ===== src/Config.antt =====
-- pkg/config/config.go, and the memory limit that internal/manager/manager.go computes from it.
pub mod Limits
pub mod Enabling
mod Examples
use dragonfly_wasm.Prelude.{
  ℕ, ◌%◌, ◌^◌, ◌*◌, String, Bool, true, false, Option, none, some, List, [], ◌∷◌, ltb, ◌==◌,
  if◌then◌else◌, contains,
}
use dragonfly_wasm.Prelude.Int.{ℤ, pos, ◌*ℤ◌, is_zero, min_ℤ, wrap_int, to_word}
use dragonfly_wasm.Plugin.Manifest.{ResourceLimits, default_resource_limits}

pub record SecurityConfig : Type 0 where
  pub require_signed_plugins : Bool
  pub sandbox_mode : Bool
  pub trusted_public_keys : List String

pub record LoggingConfig : Type 0 where
  pub level : String
  pub log_plugin_output : Bool
  pub log_events : Bool
  pub log_performance : Bool

pub record PerformanceConfig : Type 0 where
  pub pool_size : ℤ
  pub enable_caching : Bool
  pub cache_dir : String
  pub parallel_event_dispatch : Bool
  pub event_queue_size : ℤ
  pub worker_count : ℤ

pub record Config : Type 0 where
  pub plugin_dir : String
  pub data_dir : String
  pub enabled_plugins : List String
  pub disabled_plugins : List String
  pub default_limits : ResourceLimits
  pub global_limits : ResourceLimits
  pub security : SecurityConfig
  pub logging : LoggingConfig
  pub performance : PerformanceConfig

-- Durations are nanoseconds.
pub record RuntimeConfig : Type 0 where
  pub max_memory_bytes : ℤ
  pub event_timeout : ℤ
  pub enable_fuel : Bool
  pub max_fuel : ℕ

abbrev pub default_runtime_config : RuntimeConfig
default_runtime_config = record {
  max_memory_bytes = pos (64 * 2 ^ 20);
  event_timeout = pos 100_000_000;
  enable_fuel = false;
  max_fuel = 1_000_000;
}

abbrev pub default_config : Config
default_config = record {
  plugin_dir = "plugins";
  data_dir = "plugin_data";
  enabled_plugins = [];
  disabled_plugins = [];
  default_limits = default_resource_limits;
  global_limits = record {
    max_memory_mb = pos 256;
    max_execution_ms = pos 1000;
    max_fuel = 10_000_000;
  };
  security = record {
    require_signed_plugins = false;
    sandbox_mode = true;
    trusted_public_keys = [];
  };
  logging = record {
    level = "info";
    log_plugin_output = true;
    log_events = false;
    log_performance = false;
  };
  performance = record {
    pool_size = pos 4;
    enable_caching = true;
    cache_dir = "plugin_cache";
    parallel_event_dispatch = true;
    event_queue_size = pos 1000;
    worker_count = pos 4;
  };
}

-- What reading and parsing the file at a path may give: the TOML library fills in the defaults'
-- fields. `load_or_default` keeps the defaults on any failure.
unfoldable pub load_or_default : Option Config → Config
load_or_default (some cfg) = cfg
load_or_default none = default_config

-- len(xs) == 0
abbrev is_nil : List String → Bool
is_nil [] = true
is_nil (x ∷ xs) = false

unfoldable pub is_plugin_enabled : Config → String → Bool
is_plugin_enabled c id =
    if contains c.disabled_plugins id
    then false
    else if is_nil c.enabled_plugins
    then true
    else contains c.enabled_plugins id

abbrev min_ℕ : ℕ → ℕ → ℕ
min_ℕ a b = if ltb b a then b else a

unfoldable pub get_effective_limits : Config → ResourceLimits → ResourceLimits
get_effective_limits c limits =
    let memory =
      if is_zero limits.max_memory_mb then defaults.max_memory_mb else limits.max_memory_mb in
    let time =
      if is_zero limits.max_execution_ms
      then defaults.max_execution_ms
      else limits.max_execution_ms in
    let fuel = if limits.max_fuel == 0 then defaults.max_fuel else limits.max_fuel in
    record {
      max_memory_mb = min_ℤ memory c.global_limits.max_memory_mb;
      max_execution_ms = min_ℤ time c.global_limits.max_execution_ms;
      max_fuel = min_ℕ fuel c.global_limits.max_fuel;
    }
  where
    open c use {default_limits as defaults}

-- uint32(limits.MaxMemoryMB * 16): the pages of 64 KiB that an instance of the manager may have.
unfoldable pub max_pages : ResourceLimits → ℕ
max_pages limits = to_word (wrap_int (limits.max_memory_mb *ℤ pos 16)) % 2 ^ 32
