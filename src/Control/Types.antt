-- ===== src/Control/Types.antt =====
-- The declarations of api/control/execute.ts that the controllers share: the writable registers of
-- a device profile and the map of them.
-- A power or a setpoint is an integer count of millionths of its unit (kW, %), so that the
-- roundings of the source act on it; the rounding error of a double is not modelled.
use gateway_monitoring_platf.Prelude.{
  ℕ, String, Option, none, some, List, [], ◌∷◌, ℤ, if◌then◌else◌, str_eq,
}

-- `min`, `max` and `scale` in millionths; `unit` and `description` are texts that only messages show.
pub record ControllableDef : Type 0 where
  pub address : ℕ
  pub fc : Option ℕ
  pub min : ℤ
  pub max : ℤ
  pub scale : Option ℕ

-- Record<string, ControllableDef> by its own keys, in the order of Object.entries.
abbrev pub ControllableMap : Type 0
ControllableMap = List (String × ControllableDef)

-- map[k]
abbrev pub get {ℓ} : {V : Type ℓ} → String → List (String × V) → Option V
get k [] = none
get k ((j, v) ∷ m) = if str_eq j k then some v else get k m

-- A JavaScript number that Number.isFinite tells apart; no code below it looks at the others.
pub data Num : Type 0 where
  finite : ℤ → Num
  not_finite : Num
