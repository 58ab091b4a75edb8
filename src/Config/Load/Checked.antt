-- ===== src/Config/Load/Checked.antt =====
-- What `loadFromFile` of src/config/yaml_loader.cpp returns has been validated.
use shine.Prelude.{◌≡◌, subst, Option, none, some, Bytes, ok}
use shine.Absl.{Absl}
use shine.Config.Schema.{Config}
use shine.Config.Values.{Doubles}
use shine.Config.Yaml.{Yaml, caught}
use shine.Config.Validate.{validate}
use shine.Config.Validate.Laws.{IsValid, validate-IsValid, bind_ok, then_ok}
use shine.Config.Load.{parse_root, checked, load_from_string, load_from_file}

checked-IsValid :
    (yaml : Yaml) (absl : Absl) (doubles : Doubles) (c d : Config)
    → checked yaml absl doubles c ≡ ok d
    → IsValid d
unfolding checked
checked-IsValid yaml absl doubles c d h =
    let (passed, e) = then_ok (validate c) (ok c) d h in
    let same : c ≡ d = cc in subst IsValid same (validate-IsValid c passed)

-- A configuration that was loaded from a file is valid.
pub load_from_file-IsValid :
    (yaml : Yaml) (absl : Absl) (doubles : Doubles) (path : Bytes) (content : Option Bytes)
    (c : Config)
    → load_from_file yaml absl doubles path content ≡ ok c
    → IsValid c
unfolding load_from_file load_from_string
load_from_file-IsValid yaml absl doubles path none c h = absurd cc
load_from_file-IsValid yaml absl doubles path (some content) c h =
    let (root, loaded, h1) = bind_ok (caught (yaml.load content)) _ c h in
    let (parsed, read, h2) = bind_ok (parse_root yaml absl doubles root) _ c h1 in
    checked-IsValid yaml absl doubles parsed c h2
