-- ===== src/Config/Examples.antt =====
-- Runs of pkg/config's functions, and the theorems at concrete inputs.
use dragonfly_wasm.Prelude.{
  ℕ, ◌+◌, ◌*◌, ◌^◌, ◌≤◌, ◌<◌, String, ◌≡◌, ◌↔◌, refl, Bool, true, false, Option, none, some, List,
  [], ◌∷◌, arith,
}
use dragonfly_wasm.Prelude.Int.{pos, negsuc}
use dragonfly_wasm.Plugin.Manifest.{ResourceLimits}
use dragonfly_wasm.Config.{
  Config, default_config, load_or_default, is_plugin_enabled, get_effective_limits, max_pages,
}
use dragonfly_wasm.Config.Limits.{Below, IsPositive, get_effective_limits-Below}

abbrev greedy : ResourceLimits
greedy = record { max_memory_mb = pos 512; max_execution_ms = pos 0; max_fuel = 5 }

abbrev modest : ResourceLimits
modest = record { max_memory_mb = pos 32; max_execution_ms = pos 50; max_fuel = 1000 }

abbrev negative : ResourceLimits
negative = record modest { max_memory_mb = negsuc 0 }

greedy-limits :
    get_effective_limits default_config greedy
    ≡ record { max_memory_mb = pos 256; max_execution_ms = pos 100; max_fuel = 5 }
unfolding get_effective_limits
greedy-limits = refl

modest-pages : max_pages (get_effective_limits default_config modest) ≡ 512
unfolding get_effective_limits max_pages
modest-pages = refl

negative-pages : max_pages (get_effective_limits default_config negative) ≡ 4294967280
unfolding get_effective_limits max_pages
negative-pages = refl

modest-IsPositive : IsPositive modest
modest-IsPositive = record { memory = omega arith; time = omega arith; fuel = omega arith }

default-IsPositive : IsPositive default_config.default_limits
default-IsPositive = record { memory = omega arith; time = omega arith; fuel = omega arith }

global-IsPositive : IsPositive default_config.global_limits
global-IsPositive = record { memory = omega arith; time = omega arith; fuel = omega arith }

modest-Below : Below modest default_config.global_limits
modest-Below = ground arith

get_effective_limits-Below_example :
    Below (get_effective_limits default_config greedy) default_config.global_limits
get_effective_limits-Below_example = get_effective_limits-Below default_config greedy

abbrev listed : Config
listed = record default_config {
  enabled_plugins = "com.a" ∷ "com.b" ∷ [];
  disabled_plugins = "com.b" ∷ [];
}

both-disabled : is_plugin_enabled listed "com.b" ≡ false
unfolding is_plugin_enabled dragonfly_wasm.Prelude.contains
both-disabled = refl

failed-load : load_or_default none ≡ default_config
unfolding load_or_default
failed-load = refl
