-- ===== src/Tests/Decision.antt =====
-- config.go: a configuration that is judged, and then loaded.
use uploadfun.Base.{◌≡◌, ◌↔◌, refl, ap, true}
use uploadfun.Config.Load.{load_config}
use uploadfun.Config.Reference.{succeeds}
use uploadfun.Config.Decision.{IsAcceptable, load_config-IsAcceptable}
use uploadfun.Tests.Configuration.{durations, around, raw_config, source, load_config-source}

load_config-IsAcceptable_example :
    (succeeds (load_config durations around source "c.yml") ≡ true)
    ↔ IsAcceptable durations around raw_config
load_config-IsAcceptable_example =
    load_config-IsAcceptable durations around source "c.yml" "yaml" raw_config refl refl

raw_config-IsAcceptable : IsAcceptable durations around raw_config
raw_config-IsAcceptable =
    (load_config-IsAcceptable durations around source "c.yml" "yaml" raw_config refl refl).0
      (ap (λ r. succeeds r) load_config-source)
