-- ===== src/Config/Limits.antt =====
-- The limits that a plugin gets, against the server's global limits.
use dragonfly_wasm.Prelude.{ℕ, ◌+◌, ◌*◌, ◌^◌, ◌≤◌, ◌<◌, ◌≡◌, arith}
use dragonfly_wasm.Prelude.Int.{pos, negsuc, ◌≤ℤ◌, ◌<ℤ◌, ◌*ℤ◌}
use dragonfly_wasm.Plugin.Manifest.{ResourceLimits}
use dragonfly_wasm.Config.{Config, get_effective_limits, max_pages}

-- Every limit of `l` is at most that of `g`.
pub record Below (l g : ResourceLimits) : Type 0 where
  pub memory : l.max_memory_mb ≤ℤ g.max_memory_mb
  pub time : l.max_execution_ms ≤ℤ g.max_execution_ms
  pub fuel : l.max_fuel ≤ g.max_fuel

-- All limits are set: positive.
pub record IsPositive (l : ResourceLimits) : Type 0 where
  pub memory : pos 0 <ℤ l.max_memory_mb
  pub time : pos 0 <ℤ l.max_execution_ms
  pub fuel : 0 < l.max_fuel

-- No effective limit exceeds the server's global one, whatever the plugin asks for.
pub get_effective_limits-Below :
    (c : Config) (l : ResourceLimits) → Below (get_effective_limits c l) c.global_limits
unfolding get_effective_limits
get_effective_limits-Below c l = ground arith

-- A request that is positive and within the global limits is granted as it is.
pub get_effective_limits-granted :
    (c : Config) (l : ResourceLimits)
    → IsPositive l
    → Below l c.global_limits
    → get_effective_limits c l ≡ l
unfolding get_effective_limits
get_effective_limits-granted c l p b = ground arith

-- Where the defaults and the global limits are positive and the request has no negative entry, the
-- effective limits are positive.
pub get_effective_limits-IsPositive :
    (c : Config) (l : ResourceLimits)
    → IsPositive c.default_limits
    → IsPositive c.global_limits
    → pos 0 ≤ℤ l.max_memory_mb
    → pos 0 ≤ℤ l.max_execution_ms
    → IsPositive (get_effective_limits c l)
unfolding get_effective_limits
get_effective_limits-IsPositive c l d g m t = ground arith

-- The page limit of an instance is 16 pages for each effective megabyte, for a plugin that asks for
-- no negative memory, where the global and default limits are not negative and the global one is
-- below 2^28 megabytes; so it is within the global limit.
pub max_pages-within :
    (c : Config) (l : ResourceLimits) (g : ℕ)
    → c.global_limits.max_memory_mb ≡ pos g
    → g < 2 ^ 28
    → pos 0 ≤ℤ c.default_limits.max_memory_mb
    → pos 0 ≤ℤ l.max_memory_mb
    → (pos (max_pages (get_effective_limits c l))
        ≡ (get_effective_limits c l).max_memory_mb *ℤ pos 16)
      × (max_pages (get_effective_limits c l) ≤ g * 16)
unfolding get_effective_limits max_pages
max_pages-within c l g e small d m = ground arith

-- A plugin that asks for a negative amount of memory is not held to the global limit: a request of
-- -(n + 1) megabytes gets 2^32 - 16 (n + 1) pages.
pub max_pages-negative :
    (c : Config) (l : ResourceLimits) (n : ℕ)
    → l.max_memory_mb ≡ negsuc n
    → n < 2 ^ 27
    → pos 0 ≤ℤ c.global_limits.max_memory_mb
    → max_pages (get_effective_limits c l) + 16 * (n + 1) ≡ 2 ^ 32
unfolding get_effective_limits max_pages
max_pages-negative c l n e small g = ground arith
