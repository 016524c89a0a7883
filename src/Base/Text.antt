-- ===== src/Base/Text.antt =====
-- Texts as lists of code points, so that a lone surrogate of a Python str can be told, and
-- dictionaries and sets of texts as lists.
use Prim.Native.Nat.{ℕ}
use Prim.Native.Char.{code}
use Prim.Native.String.{String}
use mathlib.Core.Path.{◌≡◌, refl}
use mathlib.Core.Logic.{◌↔◌}
use mathlib.Core.Bool.{Bool, true, false, ◌&&◌}
use mathlib.Core.Option.{Option, none, some}
use mathlib.Core.List.{List, [], ◌∷◌, ◌++◌}
use native.Mathlib.Omega.{arith}
use urizo_final_orchestrator.Base.Tests.{◌==◌, if◌then◌else◌}

-- A Python str: its code points.
abbrev pub Str : Type 0
Str = List ℕ

abbrev pub codes : String → Str
codes String.[] = []
codes (String.◌∷◌ c s) = code c ∷ codes s

unfoldable pub eq : Str → Str → Bool
eq [] [] = true
eq [] (y ∷ ys) = false
eq (x ∷ xs) [] = false
eq (x ∷ xs) (y ∷ ys) = x == y && eq xs ys

pub eq→≡ : (a b : Str) → eq a b ≡ true → a ≡ b
unfolding eq
eq→≡ [] [] h = refl
eq→≡ [] (y ∷ ys) h = cc
eq→≡ (x ∷ xs) [] h = cc
eq→≡ (x ∷ xs) (y ∷ ys) h = ground (arith, eq→≡ xs ys)

pub eq_refl : (a : Str) → eq a a ≡ true
unfolding eq
eq_refl [] = refl
eq_refl (x ∷ xs) = ground (arith, eq_refl xs)

pub eq_iff : (a b : Str) → (eq a b ≡ true) ↔ (a ≡ b)
eq_iff a b = (eq→≡ a b, λ p. subst_eq p)
  where
    subst_eq : a ≡ b → eq a b ≡ true
    subst_eq p = ground (arith, eq_refl a)

-- Membership in a set of texts, kept as a list.
unfoldable pub mem : Str → List Str → Bool
mem a [] = false
mem a (x ∷ xs) = if eq a x then true else mem a xs

pub mem-append :
    (a : Str) (xs ys : List Str) → mem a (xs ++ ys) ≡ (if mem a xs then true else mem a ys)
unfolding mem
mem-append a [] ys = refl
mem-append a (x ∷ xs) ys = ground (arith, mem-append a xs ys)

-- `set.add`
unfoldable pub add : Str → List Str → List Str
add a xs = if mem a xs then xs else a ∷ xs

pub mem-add : (a b : Str) (xs : List Str) → mem b (add a xs) ≡ (if eq b a then true else mem b xs)
unfolding add mem
mem-add a b xs = ground (arith, eq_iff b a)

-- No text twice: `len(xs) == len(set(xs))`.
unfoldable pub nodup : List Str → Bool
nodup [] = true
nodup (x ∷ xs) = if mem x xs then false else nodup xs

pub nodup-add : (a : Str) (xs : List Str) → nodup xs ≡ true → nodup (add a xs) ≡ true
unfolding add nodup
nodup-add a xs h = ground arith

-- `xs <= ys` on sets.
unfoldable pub subset : List Str → List Str → Bool
subset [] ys = true
subset (x ∷ xs) ys = if mem x ys then subset xs ys else false

pub mem-subset :
    (xs ys : List Str) (a : Str) → subset xs ys ≡ true → mem a xs ≡ true → mem a ys ≡ true
unfolding subset mem
mem-subset [] ys a h m = cc
mem-subset (x ∷ xs) ys a h m = ground (arith, eq_iff a x, mem-subset xs ys a)

-- Equality of sets.
unfoldable pub same_set : List Str → List Str → Bool
same_set xs ys = subset xs ys && subset ys xs

-- A dictionary keeps at each key the entry in front; the program's writes keep keys unique.
abbrev pub Dict {ℓ} : Type ℓ → Type ℓ
Dict V = List (Str × V)

abbrev pub keys {ℓ} : {V : Type ℓ} → Dict V → List Str
keys [] = []
keys ((k, v) ∷ d) = k ∷ keys d

module _ {ℓ} {V : Type ℓ} where
  unfoldable pub get : Str → Dict V → Option V
  get k [] = none
  get k ((j, v) ∷ d) = if eq j k then some v else get k d

  unfoldable pub put : Str → V → Dict V → Dict V
  put k v [] = (k, v) ∷ []
  put k v ((j, w) ∷ d) = if eq j k then (k, v) ∷ d else (j, w) ∷ put k v d

  unfoldable pub remove : Str → Dict V → Dict V
  remove k [] = []
  remove k ((j, v) ∷ d) = let rest = remove k d in if eq j k then rest else (j, v) ∷ rest

  pub get-put :
      (k j : Str) (v : V) (d : Dict V) → get j (put k v d) ≡ (if eq k j then some v else get j d)
  unfolding get put
  get-put k j v [] = refl
  get-put k j v ((i, w) ∷ d) = ground (arith, eq_iff k j, eq_iff i k, eq_iff i j, get-put k j v d)

  pub get-remove :
      (k j : Str) (d : Dict V) → get j (remove k d) ≡ (if eq k j then none else get j d)
  unfolding get remove
  get-remove k j [] = ground arith
  get-remove k j ((i, w) ∷ d) = ground (arith, eq_iff k j, eq_iff i k, eq_iff i j, get-remove k j d)
