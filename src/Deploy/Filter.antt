-- ===== src/Deploy/Filter.antt =====
-- Which changes `filterChangesForConsumer` keeps.
use cvt.Base.{List, ◌≡◌, ◌⊎◌, Memᴰ}
use cvt.Compat.Change.{BreakingChange}
use cvt.Registry.{EndpointUsage}

-- A change is on an endpoint: on its path and its method, where a change without a path or without a
-- method is on all of them.
abbrev pub IsOn : BreakingChange → EndpointUsage → Type 0
IsOn c ep = ((c.path ≡ ep.path) ⊎ (c.path ≡ "")) × ((c.method ≡ "") ⊎ (c.method ≡ ep.method))
