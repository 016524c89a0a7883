-- ===== src/Base/Sets.antt =====
-- Sets of any type with a test of equality, as lists.
use mathlib.Core.Path.{◌≡◌}
use mathlib.Core.Logic.{◌↔◌}
use mathlib.Core.Bool.{Bool, true, false, ◌&&◌}
use mathlib.Core.List.{List, [], ◌∷◌}
use native.Mathlib.Omega.{arith}
use urizo_final_orchestrator.Base.Tests.{if◌then◌else◌}
use urizo_final_orchestrator.Base.Text.{Str, eq, eq_iff}

module _ {ℓ} {A : Type ℓ} (same : A → A → Bool) where
  unfoldable pub mem_by : A → List A → Bool
  mem_by a [] = false
  mem_by a (x ∷ xs) = if same a x then true else mem_by a xs

  unfoldable pub add_by : A → List A → List A
  add_by a xs = if mem_by a xs then xs else a ∷ xs

  unfoldable pub nodup_by : List A → Bool
  nodup_by [] = true
  nodup_by (x ∷ xs) = if mem_by x xs then false else nodup_by xs

  unfoldable pub subset_by : List A → List A → Bool
  subset_by [] ys = true
  subset_by (x ∷ xs) ys = if mem_by x ys then subset_by xs ys else false

-- (source, result_port)
abbrev pub Pair : Type 0
Pair = Str × Str

-- (source, result_port, target)
abbrev pub Route : Type 0
Route = Str × Str × Str

unfoldable pub eq_pair : Pair → Pair → Bool
eq_pair (a, b) (c, d) = eq a c && eq b d

unfoldable pub eq_route : Route → Route → Bool
eq_route (a, b, c) (d, e, f) = eq a d && (eq b e && eq c f)

pub eq_route_iff : (r q : Route) → (eq_route r q ≡ true) ↔ (r ≡ q)
unfolding eq_route
eq_route_iff (a, b, c) (d, e, f) = (
  λ h. ground (arith, eq_iff a d, eq_iff b e, eq_iff c f),
  λ h. ground (arith, eq_iff a d, eq_iff b e, eq_iff c f),
)
