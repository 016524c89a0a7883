-- ===== src/Contracts/Scoped.antt =====
-- What it means that the snapshot of a claim agrees with the payload of its event.
use urizo_final_orchestrator.Base.{
  ℕ, Bool, true, ◌&&◌, Str, codes, eq_iff, ◌≡◌, ap, ◌∙◌, Option, none, some, ok, ◌>>=◌, leb, length,
  guard, >>=-eq-ok, &&_true, ok_inj, mem,
}
use urizo_final_orchestrator.Json.{Value, text, Fields, lookup}
use urizo_final_orchestrator.Contracts.{as_object, is_uuid}
use urizo_final_orchestrator.Contracts.Checks.{
  invalid, object_in, object_of, present, entry, exact_names, is_text, uuid_of, uuid_entry,
  bounded_string, matched, matched_entry, text_of, is_git_object_id, is_graph_step,
  is_sha256_digest,
}
use urizo_final_orchestrator.Contracts.Claim.{
  Scope, only_uuid, actor_of, roles, is_some_text, same_entry, in_scope, snapshot_scope,
}

-- The two objects have the same text under the name.
abbrev pub Agree : Str → (source snapshot : Fields) → Type 0
Agree name source snapshot =
    (t : Str) × (lookup name source ≡ some (text t)) × (lookup name snapshot ≡ some (text t))

-- The second object has that text in an object that it holds under the outer name.
abbrev pub AgreeIn : (outer name : Str) → (source snapshot : Fields) → Type 0
AgreeIn outer name source snapshot =
    (t : Str) × (v : Value) × (inner : Fields) × (lookup name source ≡ some (text t))
    × (lookup outer snapshot ≡ some v)
    × (as_object v ≡ some inner)
    × (lookup name inner ≡ some (text t))

pub record IsInScope (source snapshot : Fields) : Type 0 where
  pub actor : AgreeIn (codes "actor") (codes "actorId") source snapshot
  pub project : AgreeIn (codes "project") (codes "projectId") source snapshot
  pub repository : AgreeIn (codes "repository") (codes "repositoryId") source snapshot
  pub graph_step : Agree (codes "graphStep") source snapshot
  pub base_sha : Agree (codes "baseSha") source snapshot
  pub context_digest : Agree (codes "contextDigest") source snapshot
  pub policy_hash : Agree (codes "policyHash") source snapshot

pub present-some : (o : Option Value) (v : Value) → present o ≡ ok v → o ≡ some v
unfolding present
present-some none v h = cc
present-some (some x) v h = ap (λ y. some y) (ok_inj h)

object_in-some : (o : Option Fields) (fs : Fields) → object_in o ≡ ok fs → o ≡ some fs
unfolding object_in
object_in-some none fs h = absurd (cc)
object_in-some (some gs) fs h = ap (λ y. some y) (ok_inj h)

object_of-some : (v : Value) (fs : Fields) → object_of v ≡ ok fs → as_object v ≡ some fs
unfolding object_of
object_of-some v fs h = object_in-some (as_object v) fs h

uuid_of-text : (v : Value) (t : Str) → uuid_of v ≡ ok t → v ≡ text t
unfolding uuid_of
uuid_of-text (text u) t h =
    let (_, _, last) = >>=-eq-ok (guard (is_uuid u) invalid) _ h in ap (λ y. text y) (ok_inj last)
uuid_of-text v t h = absurd (cc)

pub bounded_string-text :
    (minimum maximum : ℕ) (v : Value) (t : Str)
    → bounded_string minimum maximum v ≡ ok t
    → v ≡ text t
unfolding bounded_string
bounded_string-text minimum maximum (text u) t h =
    let (_, _, last) =
      >>=-eq-ok (guard (leb minimum (length u) && leb (length u) maximum) invalid) _ h in
    ap (λ y. text y) (ok_inj last)
bounded_string-text minimum maximum v t h = absurd (cc)

uuid_entry_found :
    (name : Str) (fs : Fields) (t : Str)
    → uuid_entry name fs ≡ ok t
    → lookup name fs ≡ some (text t)
uuid_entry_found name fs t h =
    let (v, found, read) = >>=-eq-ok (entry name fs) _ h in
    present-some (lookup name fs) v found ∙ ap (λ y. some y) (uuid_of-text v t read)

matched_entry_found :
    (pattern : Str → Bool) (maximum : ℕ) (name : Str) (fs : Fields) (t : Str)
    → matched_entry pattern maximum name fs ≡ ok t
    → lookup name fs ≡ some (text t)
unfolding matched
matched_entry_found pattern maximum name fs t h =
    let (v, found, read) = >>=-eq-ok (entry name fs) _ h in
    let (u, bounded, h1) = >>=-eq-ok (bounded_string 1 maximum v) _ read in
    let (_, _, last) = >>=-eq-ok (guard (pattern u) invalid) _ h1 in
    present-some (lookup name fs) v found
    ∙ ap (λ y. some y) (bounded_string-text 1 maximum v u bounded)
    ∙ ap (λ y. some (text y)) (ok_inj last)

some_text : (t : Str) (o : Option Value) → is_some_text t o ≡ true → o ≡ some (text t)
unfolding is_some_text is_text
some_text t none h = cc
some_text t (some (text u)) h = ap (λ y. some (text y)) ((eq_iff u t).0 h)
some_text t (some v) h = absurd (cc)

-- A text in an object under the outer name.
abbrev Held : (outer name t : Str) → Fields → Type 0
Held outer name t snapshot =
    (v : Value) × (inner : Fields) × (lookup outer snapshot ≡ some v)
    × (as_object v ≡ some inner)
    × (lookup name inner ≡ some (text t))

only_uuid-Held :
    (outer name : Str) (snapshot : Fields) (t : Str)
    → (entry outer snapshot >>= only_uuid name) ≡ ok t
    → Held outer name t snapshot
unfolding only_uuid
only_uuid-Held outer name snapshot t h =
    let (v, found, read) = >>=-eq-ok (entry outer snapshot) _ h in
    let (fs, is_object, h1) = >>=-eq-ok (object_of v) _ read in
    let (_, _, last) = >>=-eq-ok (exact_names fs _) _ h1 in
    (
      v,
      fs,
      present-some (lookup outer snapshot) v found,
      object_of-some v fs is_object,
      uuid_entry_found name fs t last,
    )

actor-Held :
    (snapshot : Fields) (t : Str)
    → (entry (codes "actor") snapshot >>= actor_of) ≡ ok t
    → Held (codes "actor") (codes "actorId") t snapshot
unfolding actor_of
actor-Held snapshot t h =
    let (v, found, read) = >>=-eq-ok (entry (codes "actor") snapshot) _ h in
    let (fs, is_object, h1) = >>=-eq-ok (object_of v) _ read in
    let (_, _, h2) = >>=-eq-ok (exact_names fs _) _ h1 in
    let (id, read_id, h3) = >>=-eq-ok (uuid_entry (codes "actorId") fs) _ h2 in
    let (role, _, h4) = >>=-eq-ok (entry (codes "role") fs >>= text_of) _ h3 in
    let (_, _, last) = >>=-eq-ok (guard (mem role roles) invalid) _ h4 in
    (
      v,
      fs,
      present-some (lookup (codes "actor") snapshot) v found,
      object_of-some v fs is_object,
      uuid_entry_found (codes "actorId") fs id read_id ∙ ap (λ y. some (text y)) (ok_inj last),
    )

agrees :
    (name t : Str) (source snapshot : Fields)
    → same_entry name t source ≡ true
    → lookup name snapshot ≡ some (text t)
    → Agree name source snapshot
agrees name t source snapshot same found = (t, some_text t (lookup name source) same, found)

agrees_in :
    (outer name t : Str) (source snapshot : Fields)
    → same_entry name t source ≡ true
    → Held outer name t snapshot
    → AgreeIn outer name source snapshot
agrees_in outer name t source snapshot same (v, inner, found, is_object, inside) =
    (t, v, inner, some_text t (lookup name source) same, found, is_object, inside)

pub snapshot_scope-IsInScope :
    (source snapshot : Fields) (c : Scope)
    → snapshot_scope snapshot ≡ ok c
    → in_scope source c ≡ true
    → IsInScope source snapshot
unfolding snapshot_scope in_scope
snapshot_scope-IsInScope source snapshot c h same =
    let (a, actor, h1) = >>=-eq-ok (entry (codes "actor") snapshot >>= actor_of) _ h in
    let (p, project, h2) =
      >>=-eq-ok (entry (codes "project") snapshot >>= only_uuid (codes "projectId")) _ h1 in
    let (r, repository, h3) =
      >>=-eq-ok (entry (codes "repository") snapshot >>= only_uuid (codes "repositoryId")) _ h2 in
    let (g, step, h4) =
      >>=-eq-ok (matched_entry is_graph_step 120 (codes "graphStep") snapshot) _ h3 in
    let (b, base, h5) =
      >>=-eq-ok (matched_entry is_git_object_id 71 (codes "baseSha") snapshot) _ h4 in
    let (d, context, h6) =
      >>=-eq-ok (matched_entry is_sha256_digest 71 (codes "contextDigest") snapshot) _ h5 in
    let (y, policy, last) =
      >>=-eq-ok (matched_entry is_sha256_digest 71 (codes "policyHash") snapshot) _ h6 in
    let (s1, t1) = &&_true _ _ (rw (← ok_inj last) at same) in
    let (s2, t2) = &&_true _ _ t1 in
    let (s3, t3) = &&_true _ _ t2 in
    let (s4, t4) = &&_true _ _ t3 in
    let (s5, t5) = &&_true _ _ t4 in
    let (s6, s7) = &&_true _ _ t5 in
    record {
      actor =
          agrees_in (codes "actor") (codes "actorId") a source snapshot s1
            (actor-Held snapshot a actor);
      project =
          agrees_in (codes "project") (codes "projectId") p source snapshot s2
            (only_uuid-Held (codes "project") (codes "projectId") snapshot p project);
      repository =
          agrees_in (codes "repository") (codes "repositoryId") r source snapshot s3
            (only_uuid-Held (codes "repository") (codes "repositoryId") snapshot r repository);
      graph_step =
          agrees (codes "graphStep") g source snapshot s4
            (matched_entry_found is_graph_step 120 (codes "graphStep") snapshot g step);
      base_sha =
          agrees (codes "baseSha") b source snapshot s5
            (matched_entry_found is_git_object_id 71 (codes "baseSha") snapshot b base);
      context_digest =
          agrees (codes "contextDigest") d source snapshot s6
            (matched_entry_found is_sha256_digest 71 (codes "contextDigest") snapshot d context);
      policy_hash =
          agrees (codes "policyHash") y source snapshot s7
            (matched_entry_found is_sha256_digest 71 (codes "policyHash") snapshot y policy);
    }
