-- ===== src/Builder/Keys.antt =====
-- The keys of loop counters: no two routes share one, where their names are identifiers.
use urizo_final_orchestrator.Base.{
  Bool, true, not, ◌&&◌, ◌==◌, Str, [], ◌∷◌, ◌++◌, Route, ◌≡◌, refl, arith, &&_true,
}
use urizo_final_orchestrator.Snapshot.Checks.{is_name_character, all_of, starts, is_identifier}
use urizo_final_orchestrator.Builder.Compile.{route_key}

unfoldable pub is_colon_free : Str → Bool
is_colon_free [] = true
is_colon_free (c ∷ cs) = not (c == b':') && is_colon_free cs

colon_free-all_of : (cs : Str) → all_of is_name_character cs ≡ true → is_colon_free cs ≡ true
unfolding is_colon_free all_of is_name_character
colon_free-all_of [] h = refl
colon_free-all_of (c ∷ cs) h = ground (arith, colon_free-all_of cs)

pub colon_free-is_identifier : (t : Str) → is_identifier t ≡ true → is_colon_free t ≡ true
unfolding is_colon_free is_identifier starts
colon_free-is_identifier [] h = cc
colon_free-is_identifier (c ∷ cs) h = ground (arith, colon_free-all_of cs)

-- A colon parts two texts in one way if the first of them has none.
split_at_colon :
    (a b x y : Str)
    → is_colon_free a ≡ true
    → is_colon_free b ≡ true
    → a ++ (b':' ∷ x) ≡ b ++ (b':' ∷ y)
    → (a ≡ b) × (x ≡ y)
unfolding is_colon_free
split_at_colon [] [] x y h k e = (refl, cc)
split_at_colon [] (d ∷ b) x y h k e = let head : b':' ≡ d = cc in absurd (ground (arith, head))
split_at_colon (c ∷ a) [] x y h k e = let head : c ≡ b':' = cc in absurd (ground (arith, head))
split_at_colon (c ∷ a) (d ∷ b) x y h k e =
    let head : c ≡ d = cc in
    let tail : a ++ (b':' ∷ x) ≡ b ++ (b':' ∷ y) = cc in
    let (same, rest) = split_at_colon a b x y (&&_true _ _ h).1 (&&_true _ _ k).1 tail in
    let whole : c ∷ a ≡ d ∷ b = rw (head, same) refl in (whole, rest)

abbrev pub key_of_route : Route → Str
key_of_route r = route_key r.0 r.1 r.2

-- The source and the port of a route are free of colons.
abbrev pub IsNamed : Route → Type 0
IsNamed r = (is_colon_free r.0 ≡ true) × (is_colon_free r.1 ≡ true)

-- Two routes whose sources and ports have no colon have one loop counter only if they are one route.
pub route_key_inj : (r q : Route) → IsNamed r → IsNamed q → key_of_route r ≡ key_of_route q → r ≡ q
unfolding route_key
route_key_inj (a, p, t) (b, q, u) (ha, hp) (hb, hq) e =
    let (first, rest) = split_at_colon a b _ _ ha hb e in
    let (second, third) = split_at_colon p q t u hp hq rest in rw (first, second, third) refl
