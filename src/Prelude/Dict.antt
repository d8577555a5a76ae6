-- ===== src/Prelude/Dict.antt =====
-- Python's dicts with texts as keys, in the order of insertion.
use edgewatch_telemetry.Prelude.Tests.{str_eq, if◌then◌else◌}
use Prim.Native.String.{String}
use mathlib.Core.Option.{Option, none, some}
use mathlib.Core.List.{List, [], ◌∷◌}

abbrev pub Dict : Type 0 → Type 0
Dict V = List (String × V)

module _ {V : Type 0} where
  -- `d[key] = value`
  unfoldable pub set_item : String → V → Dict V → Dict V
  set_item key value [] = (key, value) ∷ []
  set_item key value ((k, v) ∷ rest) =
      let after = set_item key value rest in
      if str_eq k key then (k, value) ∷ rest else (k, v) ∷ after

  -- `d.get(key)`
  unfoldable pub get_item : String → Dict V → Option V
  get_item key [] = none
  get_item key ((k, v) ∷ rest) =
      let later = get_item key rest in if str_eq k key then some v else later
