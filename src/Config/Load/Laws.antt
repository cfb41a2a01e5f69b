-- ===== src/Config/Load/Laws.antt =====
-- What Discover returns obeys the rules of Validate; and which file it is from.
use routeup.Base.{ok, ◌≡◌, []}
use routeup.Strings.{Unicode}
use routeup.Config.File.{Config, validate}

-- What the loaders promise of a configuration.
abbrev pub Usable : Unicode → Config → Type 0
Usable u c = (validate u c ≡ ok tt) × (c.script ≡ [])
