-- ===== src/Node/Given.antt =====
-- node_runtime.py: what `register` takes of its arguments, the sets of names among them.
use urizo_final_orchestrator.Base.{
  ℕ, Bool, true, Str, Option, none, some, List, [], ◌∷◌, nodup, ok, guard, >>=-eq-ok, guard-eq-ok,
  ok_inj, ◌≡◌, refl, sym, ap, ◌∙◌, arith,
}
use urizo_final_orchestrator.Json.{Value, null, text, Fields}
use urizo_final_orchestrator.Snapshot.Checks.{is_identifier}
use urizo_final_orchestrator.Node.{NodeConfigValidator, verdict}
use urizo_final_orchestrator.Node.Create.{matched}
use urizo_final_orchestrator.Node.Registry.{
  RegistryViolation, invalid_item, unsupported_item, duplicate_items, reraised, iterated,
  is_allowed, checked_items, check_some, texts_of, ValidatorArgument, omitted, callable,
  not_callable, string_set, legacy_set, validator_of,
}

abbrev pub AreIdentifiers : List Str → Type 0
AreIdentifiers [] = Unit
AreIdentifiers (t ∷ ts) = (is_identifier t ≡ true) × AreIdentifiers ts

abbrev pub AreAllowed : Option (List Str) → List Str → Type 0
AreAllowed allowed [] = Unit
AreAllowed allowed (t ∷ ts) = (is_allowed allowed t ≡ true) × AreAllowed allowed ts

-- A set of names: distinct, each an identifier, each allowed.
pub record IsNameSet (allowed : Option (List Str)) (ts : List Str) : Type 0 where
  pub distinct : nodup ts ≡ true
  pub identifiers : AreIdentifiers ts
  pub members : AreAllowed allowed ts

pub matched_ok :
    (pattern : Str → Bool) (maximum : ℕ) (v : Value) (e : RegistryViolation) (t : Str)
    → reraised e (matched pattern maximum v) ≡ ok t
    → pattern t ≡ true
unfolding reraised matched
matched_ok pattern maximum (Value.text u) e t h = ground arith
matched_ok pattern maximum v e t h = cc

checked_items_ok :
    (allowed : Option (List Str)) (vs : List Value) (ts : List Str)
    → checked_items allowed vs ≡ ok ts
    → AreIdentifiers ts × AreAllowed allowed ts
unfolding checked_items
checked_items_ok allowed [] [] h = (tt, tt)
checked_items_ok allowed [] (t ∷ ts) h = cc
checked_items_ok allowed (v ∷ vs) ts h =
    let (t, e, h1) = >>=-eq-ok (reraised invalid_item (matched is_identifier 64 v)) _ h in
    let (_, g, h2) = >>=-eq-ok (guard (is_allowed allowed t) unsupported_item) _ h1 in
    let (us, k, last) = >>=-eq-ok (checked_items allowed vs) _ h2 in
    let (ids, members) = checked_items_ok allowed vs us k in
    rw (← ok_inj last) (
      (matched_ok is_identifier 64 v invalid_item t e, ids),
      (guard-eq-ok (is_allowed allowed t) unsupported_item g, members),
    )

pub string_set_ok :
    (empty : Bool) (allowed : Option (List Str)) (v : Value) (ts : List Str)
    → string_set empty allowed v ≡ ok ts
    → IsNameSet allowed ts
unfolding string_set
string_set_ok empty allowed v ts h =
    let (vs, _, h1) = >>=-eq-ok (iterated v) _ h in
    let (_, _, h2) = >>=-eq-ok (check_some empty vs) _ h1 in
    let (us, e, h3) = >>=-eq-ok (checked_items allowed vs) _ h2 in
    let (_, g, last) = >>=-eq-ok (guard (nodup us) duplicate_items) _ h3 in
    let (ids, members) = checked_items_ok allowed vs us e in
    rw (← ok_inj last) (record {
      distinct = guard-eq-ok (nodup us) duplicate_items g;
      identifiers = ids;
      members = members;
    })

-- What a pattern matched is the text given.
matched_text :
    (pattern : Str → Bool) (maximum : ℕ) (v : Value) (e : RegistryViolation) (t : Str)
    → reraised e (matched pattern maximum v) ≡ ok t
    → v ≡ text t
unfolding reraised matched
matched_text pattern maximum (text u) e t h = ground arith
matched_text pattern maximum v e t h = absurd (cc)

checked_items_texts :
    (allowed : Option (List Str)) (vs : List Value) (ts : List Str)
    → checked_items allowed vs ≡ ok ts
    → vs ≡ texts_of ts
unfolding checked_items texts_of
checked_items_texts allowed [] [] h = refl
checked_items_texts allowed [] (t ∷ ts) h = absurd (cc)
checked_items_texts allowed (v ∷ vs) ts h =
    let (t, e, h1) = >>=-eq-ok (reraised invalid_item (matched is_identifier 64 v)) _ h in
    let (_, _, h2) = >>=-eq-ok (guard (is_allowed allowed t) unsupported_item) _ h1 in
    let (us, k, last) = >>=-eq-ok (checked_items allowed vs) _ h2 in
    rw (matched_text is_identifier 64 v invalid_item t e, checked_items_texts allowed vs us k)
      (ap (λ x. texts_of x) (ok_inj last))

pub string_set_texts :
    (empty : Bool) (allowed : Option (List Str)) (v : Value) (ts : List Str)
    → string_set empty allowed v ≡ ok ts
    → iterated v ≡ ok (texts_of ts)
unfolding string_set
string_set_texts empty allowed v ts h =
    let (vs, items, h1) = >>=-eq-ok (iterated v) _ h in
    let (_, _, h2) = >>=-eq-ok (check_some empty vs) _ h1 in
    let (us, e, h3) = >>=-eq-ok (checked_items allowed vs) _ h2 in
    let (_, _, last) = >>=-eq-ok (guard (nodup us) duplicate_items) _ h3 in
    items
    ∙ ap (λ x. ok x) (checked_items_texts allowed vs us e ∙ ap (λ x. texts_of x) (ok_inj last))

-- The stored validator is the callable given, or accepts any config where none was given.
abbrev pub IsValidator : ValidatorArgument → NodeConfigValidator → Type 0
IsValidator omitted stored = (config : Fields) → stored config ≡ verdict null
IsValidator (callable v) stored = stored ≡ v
IsValidator not_callable stored = ⊥

-- The stored legacy ports are the texts given, or none where none were given.
abbrev pub AreLegacy : Option Value → Option (List Str) → Type 0
AreLegacy none stored = stored ≡ none
AreLegacy (some v) stored = (ts : List Str) × (stored ≡ some ts) × (iterated v ≡ ok (texts_of ts))

pub validator_of-IsValidator :
    (a : ValidatorArgument) (v : NodeConfigValidator) → validator_of a ≡ ok v → IsValidator a v
unfolding validator_of
validator_of-IsValidator omitted v h =
    λ config. ap (λ (f : NodeConfigValidator). f config) (sym (ok_inj h))
validator_of-IsValidator (callable f) v h = sym (ok_inj h)
validator_of-IsValidator not_callable v h = absurd (cc)

pub legacy_set-AreLegacy :
    (o : Option Value) (ts : Option (List Str)) → legacy_set o ≡ ok ts → AreLegacy o ts
unfolding legacy_set
legacy_set-AreLegacy none ts h = sym (ok_inj h)
legacy_set-AreLegacy (some v) ts h =
    let (us, e, last) = >>=-eq-ok (string_set true none v) _ h in
    (us, sym (ok_inj last), string_set_texts true none v us e)
