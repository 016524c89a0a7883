-- ===== src/Snapshot/Shape.antt =====
-- What a configuration of JSON is, and how deep it nests: the names that mappings may have, the values of
-- JSON, and their height, said without the tests that snapshot.py makes.
use urizo_final_orchestrator.Base.{
  ℕ, ◌+◌, ◌/◌, ◌%◌, ◌^◌, ◌≤◌, ◌<◌, true, false, Str, codes, leb, List, [], ◌∷◌, eq, eq_iff, mem,
  if◌then◌else◌, ◌≡◌, ◌≢◌, ◌⊎◌, ◌↔◌, refl, inl, inr, arith, Bool-cases,
}
use urizo_final_orchestrator.Json.{
  Value, null, bool, int, negative, float, text, list, tuple, dict, proxy, object, Items, nil, cons,
  Fields, end, field,
}
use urizo_final_orchestrator.Snapshot.Freeze.{
  execution_context_fields, contains_surrogate, any_surrogate, intersects,
}
use urizo_final_orchestrator.Snapshot.Safe.{clean_names}

-- Characters outside the surrogates' range.
unfoldable pub IsUnicode : Str → Type 0
IsUnicode [] = Unit
IsUnicode (c ∷ cs) = ((c < 55296) ⊎ (57343 < c)) × IsUnicode cs

-- Another text than each of the list.
unfoldable pub IsOther : Str → List Str → Type 0
IsOther k [] = Unit
IsOther k (x ∷ xs) = (k ≢ x) × IsOther k xs

-- A name of a mapping, none of those that carry the context of an execution.
abbrev pub IsName : Str → Type 0
IsName k =
    IsUnicode k
    × IsOther k (
        codes "jobId"
        ∷ codes "pipelineAttempt"
        ∷ codes "executionAttempt"
        ∷ codes "stateVersion"
        ∷ codes "workspaceId"
        ∷ codes "toolCallId"
        ∷ codes "traceId"
        ∷ [])

-- What JSON has: no tuple, no other object, and no float that is infinite or not a number, whose exponent
-- is 2047.
unfoldable mutual
  pub IsJson : Value → Type 0
  IsJson null = Unit
  IsJson (bool b) = Unit
  IsJson (int n) = Unit
  IsJson (negative n) = Unit
  IsJson (float bits) = bits / 2 ^ 52 % 2048 ≢ 2047
  IsJson (text t) = IsUnicode t
  IsJson (list vs) = AreJson vs
  IsJson (tuple vs) = ⊥
  IsJson (dict fs) = HaveJson fs
  IsJson (proxy fs) = HaveJson fs
  IsJson object = ⊥

  pub AreJson : Items → Type 0
  AreJson nil = Unit
  AreJson (cons v vs) = IsJson v × AreJson vs

  pub HaveJson : Fields → Type 0
  HaveJson end = Unit
  HaveJson (field k v fs) = IsName k × IsJson v × HaveJson fs

unfoldable pub max : ℕ → ℕ → ℕ
max a b = if leb a b then b else a

-- How deep lists and mappings are nested: a list or a mapping with items is one higher than its highest.
unfoldable mutual
  pub height : Value → ℕ
  height (list vs) = items_height vs
  height (dict fs) = fields_height fs
  height (proxy fs) = fields_height fs
  height _ = 0

  pub items_height : Items → ℕ
  items_height nil = 0
  items_height (cons v vs) = max (1 + height v) (items_height vs)

  pub fields_height : Fields → ℕ
  fields_height end = 0
  fields_height (field k v fs) = max (1 + height v) (fields_height fs)

pub max_above : (n a b c : ℕ) → n + a ≤ c → n + b ≤ c → n + max a b ≤ c
unfolding max
max_above n a b c first second = ground (arith, first, second)

pub max_below : (n a b c : ℕ) → n + max a b ≤ c → (n + a ≤ c) × (n + b ≤ c)
unfolding max
max_below n a b c h = (ground (arith, h), ground (arith, h))

pub IsUnicode-iff : (t : Str) → (contains_surrogate t ≡ false) ↔ IsUnicode t
unfolding contains_surrogate IsUnicode
IsUnicode-iff [] = (λ _. tt, λ _. refl)
IsUnicode-iff (c ∷ cs) = elim (Bool-cases (leb 55296 c)) [
  | inr low ↦ (
    λ h. (inl (ground (arith, low)), (IsUnicode-iff cs).0 (ground (arith, low, h))),
    λ u. ground (arith, low, (IsUnicode-iff cs).1 u.1),
  )
  | inl high ↦ elim (Bool-cases (leb c 57343)) [
    | inr above ↦ (
      λ h. (inr (ground (arith, above)), (IsUnicode-iff cs).0 (ground (arith, above, h))),
      λ u. ground (arith, above, (IsUnicode-iff cs).1 u.1),
    )
    | inl inside ↦
        (λ h. absurd (ground (arith, high, inside, h)), λ u. absurd (outside c u.0 high inside))
  ]
]
  where
    outside : (c : ℕ) → (c < 55296) ⊎ (57343 < c) → leb 55296 c ≡ true → leb c 57343 ≡ true → ⊥
    outside c (inl low) high inside = ground (arith, low, high)
    outside c (inr up) high inside = ground (arith, up, inside)

IsOther-iff : (k : Str) (xs : List Str) → (mem k xs ≡ false) ↔ IsOther k xs
unfolding mem IsOther
IsOther-iff k [] = (λ _. tt, λ _. refl)
IsOther-iff k (x ∷ xs) = elim (Bool-cases (eq k x)) [
  | inl same ↦ (λ h. absurd (ground (arith, same, h)), λ u. absurd (u.0 ((eq_iff k x).0 same)))
  | inr other ↦ (
    λ h. (
      λ e. absurd (ground (arith, other, (eq_iff k x).1 e)),
      (IsOther-iff k xs).0 (ground (arith, other, h)),
    ),
    λ u. ground (arith, other, (IsOther-iff k xs).1 u.1),
  )
]

clean_names_head :
    (k : Str) (ks : List Str)
    → clean_names (k ∷ ks) ≡ true
    → (contains_surrogate k ≡ false)
      × (mem k execution_context_fields ≡ false)
      × (clean_names ks ≡ true)
unfolding any_surrogate intersects
clean_names_head k ks h = (ground (arith, h), ground (arith, h), ground (arith, h))

pub clean_names_none : clean_names [] ≡ true
unfolding any_surrogate intersects
clean_names_none = refl

clean_names_more :
    (k : Str) (ks : List Str)
    → contains_surrogate k ≡ false
    → mem k execution_context_fields ≡ false
    → clean_names ks ≡ true
    → clean_names (k ∷ ks) ≡ true
unfolding any_surrogate intersects
clean_names_more k ks unicode other h = ground (arith, unicode, other, h)

pub IsName-head :
    (k : Str) (ks : List Str) → clean_names (k ∷ ks) ≡ true → IsName k × (clean_names ks ≡ true)
IsName-head k ks h =
    let (unicode, other, rest) = clean_names_head k ks h in
    (((IsUnicode-iff k).0 unicode, (IsOther-iff k execution_context_fields).0 other), rest)

pub IsName-more :
    (k : Str) (ks : List Str) → IsName k → clean_names ks ≡ true → clean_names (k ∷ ks) ≡ true
IsName-more k ks (unicode, other) rest =
    clean_names_more k ks ((IsUnicode-iff k).1 unicode)
      ((IsOther-iff k execution_context_fields).1 other) rest
