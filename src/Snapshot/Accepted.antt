-- ===== src/Snapshot/Accepted.antt =====
-- What holds of every snapshot that `VersionedSnapshot.from_dict` returns.
use urizo_final_orchestrator.Base.{
  ℕ, ◌≤◌, true, ◌==◌, codes, ◌≡◌, refl, List, [], ◌∷◌, map, mem, nodup, nodup_by, eq_route, Result,
  ok, err, ◌>>=◌, guard, >>=-eq-ok, guard-eq-ok, ok_inj, arith, Str, Bool,
}
use urizo_final_orchestrator.Json.{Value, int, Items, nil, cons, Fields, lookup}
use urizo_final_orchestrator.Snapshot.{
  SnapshotNode, SnapshotEdge, SnapshotLoopLimit, SnapshotConfig, VersionedSnapshot, Violation,
}
use urizo_final_orchestrator.Snapshot.Validate.{route, validate_snapshot}
use urizo_final_orchestrator.Snapshot.Checks.{
  unsupported, duplicates, not_three_attempts, Parsed, is_identifier, is_profile_key,
  is_guardrail_profile_key, is_handler_key, object_of, exact_names, matched, positive_integer,
  uuid_of, items_of, nonempty_items_of, parse_all, freeze_object,
}
use urizo_final_orchestrator.Snapshot.Parse.{
  allowed_node_types, profile_keys, entry, matched_entry, parse_node, parse_edge, parse_loop_limit,
  parse_config, freeze_bindings, freeze_tool_bindings, expected_fields, is_contract_version,
  validated, parse_parts, parse_snapshot,
}

abbrev pub All : {A : Type 0} → (A → Type 0) → List A → Type 0
All P [] = Unit
All P (a ∷ xs) = P a × All P xs

pub All-map :
    {A : Type 0} {P Q : A → Type 0} → ((a : A) → P a → Q a) → (xs : List A) → All P xs → All Q xs
All-map f [] h = tt
All-map f (a ∷ xs) h = (f a h.0, All-map f xs h.1)

parse_all-All :
    {A : Type 0} (P : A → Type 0) (parse : Value → Parsed A)
    → ((v : Value) (a : A) → parse v ≡ ok a → P a)
    → (vs : Items) (xs : List A) → parse_all parse vs ≡ ok xs
    → All P xs
unfolding parse_all
parse_all-All P parse each nil [] h = tt
parse_all-All P parse each nil (a ∷ xs) h = cc
parse_all-All P parse each (cons v vs) xs h =
    let (a, e, rest) = >>=-eq-ok (parse v) _ h in
    let (bs, k, last) = >>=-eq-ok (parse_all parse vs) _ rest in
    let same : a ∷ bs ≡ xs = ground (arith, last) in
    rw (← same) (each v a e, parse_all-All P parse each vs bs k)

-- A node's type is one of the allowed ones.
abbrev pub IsTyped : SnapshotNode → Type 0
IsTyped n = mem n.node_type allowed_node_types ≡ true

-- A loop may be gone round at least once.
abbrev pub IsPositive : SnapshotLoopLimit → Type 0
IsPositive l = 1 ≤ l.max_iterations

-- An edge's source and port are identifiers, as a loop limit's are.
abbrev pub IsIdentified : SnapshotEdge → Type 0
IsIdentified e = (is_identifier e.source ≡ true) × (is_identifier e.result_port ≡ true)

abbrev pub IsIdentifiedLimit : SnapshotLoopLimit → Type 0
IsIdentifiedLimit l = (is_identifier l.source ≡ true) × (is_identifier l.result_port ≡ true)

pub record IsAccepted (s : VersionedSnapshot) : Type 0 where
  pub valid : validate_snapshot s ≡ ok tt
  pub keyed : mem s.profile_key profile_keys ≡ true
  pub typed : All IsTyped s.nodes
  pub three_attempts : s.config.max_attempts ≡ 3
  pub positive : All IsPositive s.config.loop_limits
  pub distinct_limits : nodup_by eq_route (map route s.config.loop_limits) ≡ true
  pub identified : All IsIdentified s.edges
  pub identified_limits : All IsIdentifiedLimit s.config.loop_limits

parse_node-IsTyped : (v : Value) (n : SnapshotNode) → parse_node v ≡ ok n → IsTyped n
unfolding parse_node
parse_node-IsTyped v n h =
    let (payload, _, h1) = >>=-eq-ok (object_of v) _ h in
    let (_, _, h2) =
      >>=-eq-ok
        (exact_names payload (
          codes "id"
          ∷ codes "type"
          ∷ codes "handlerKey"
          ∷ codes "resultPorts"
          ∷ codes "config"
          ∷ []))
        _ h1 in
    let (node_id, _, h3) = >>=-eq-ok (matched_entry is_identifier 64 (codes "id") payload) _ h2 in
    let (node_type, _, h4) =
      >>=-eq-ok (matched_entry is_identifier 64 (codes "type") payload) _ h3 in
    let (_, allowed, h5) = >>=-eq-ok (guard (mem node_type allowed_node_types) unsupported) _ h4 in
    let (_, _, h6) =
      >>=-eq-ok (matched_entry is_handler_key 128 (codes "handlerKey") payload) _ h5 in
    let (items, _, h7) = >>=-eq-ok (entry (codes "resultPorts") payload >>= items_of) _ h6 in
    let (ports, _, h8) = >>=-eq-ok (parse_all (matched is_identifier 64) items) _ h7 in
    let (_, _, h9) = >>=-eq-ok (guard (nodup ports) duplicates) _ h8 in
    let (_, _, last) = >>=-eq-ok (entry (codes "config") payload >>= freeze_object) _ h9 in
    let same : node_type ≡ n.node_type = ground (arith, last) in
    rw (← same) (guard-eq-ok (mem node_type allowed_node_types) unsupported allowed)

matched-matches : (q : Str → Bool) (m : ℕ) (v : Value) (u : Str) → matched q m v ≡ ok u → q u ≡ true
unfolding matched
matched-matches q m (Value.text x) u e = ground arith
matched-matches q m v u e = cc

matched_entry-matches :
    (pattern : Str → Bool) (maximum : ℕ) (name : Str) (fs : Fields) (t : Str)
    → matched_entry pattern maximum name fs ≡ ok t
    → pattern t ≡ true
unfolding matched_entry
matched_entry-matches pattern maximum name fs t h =
    let (v, _, e) = >>=-eq-ok (entry name fs) (matched pattern maximum) h in
    matched-matches pattern maximum v t e

parse_edge-IsIdentified : (v : Value) (e : SnapshotEdge) → parse_edge v ≡ ok e → IsIdentified e
unfolding parse_edge
parse_edge-IsIdentified v e h =
    let (payload, _, h1) = >>=-eq-ok (object_of v) _ h in
    let (_, _, h2) =
      >>=-eq-ok (exact_names payload (codes "from" ∷ codes "resultPort" ∷ codes "to" ∷ [])) _ h1 in
    let (source, es, h3) = >>=-eq-ok (matched_entry is_identifier 64 (codes "from") payload) _ h2 in
    let (port, ep, h4) =
      >>=-eq-ok (matched_entry is_identifier 64 (codes "resultPort") payload) _ h3 in
    let (_, _, last) = >>=-eq-ok (matched_entry is_identifier 64 (codes "to") payload) _ h4 in
    rw (← ok_inj last) (
      matched_entry-matches is_identifier 64 (codes "from") payload source es,
      matched_entry-matches is_identifier 64 (codes "resultPort") payload port ep,
    )

positive_integer-positive : (v : Value) (n : ℕ) → positive_integer v ≡ ok n → 1 ≤ n
unfolding positive_integer
positive_integer-positive (int k) n h = ground arith
positive_integer-positive v n h = cc

parse_loop_limit-IsPositive :
    (v : Value) (l : SnapshotLoopLimit)
    → parse_loop_limit v ≡ ok l
    → IsPositive l × IsIdentifiedLimit l
unfolding parse_loop_limit
parse_loop_limit-IsPositive v l h =
    let (payload, _, h1) = >>=-eq-ok (object_of v) _ h in
    let (_, _, h2) =
      >>=-eq-ok
        (exact_names payload
          (codes "from" ∷ codes "resultPort" ∷ codes "to" ∷ codes "maxIterations" ∷ []))
        _ h1 in
    let (source, es, h3) = >>=-eq-ok (matched_entry is_identifier 64 (codes "from") payload) _ h2 in
    let (port, ep, h4) =
      >>=-eq-ok (matched_entry is_identifier 64 (codes "resultPort") payload) _ h3 in
    let (_, _, h5) = >>=-eq-ok (matched_entry is_identifier 64 (codes "to") payload) _ h4 in
    let (n, whole, last) =
      >>=-eq-ok (entry (codes "maxIterations") payload >>= positive_integer) _ h5 in
    let (value, _, read) =
      >>=-eq-ok (entry (codes "maxIterations") payload) positive_integer whole in
    rw (← ok_inj last) (
      positive_integer-positive value n read,
      (
        matched_entry-matches is_identifier 64 (codes "from") payload source es,
        matched_entry-matches is_identifier 64 (codes "resultPort") payload port ep,
      ),
    )

record IsSound (c : SnapshotConfig) : Type 0 where
  three_attempts : c.max_attempts ≡ 3
  limits : All (λ l. IsPositive l × IsIdentifiedLimit l) c.loop_limits
  distinct_limits : nodup_by eq_route (map route c.loop_limits) ≡ true

parse_config-IsSound : (v : Value) (c : SnapshotConfig) → parse_config v ≡ ok c → IsSound c
unfolding parse_config
parse_config-IsSound v c h =
    let (payload, _, h1) = >>=-eq-ok (object_of v) _ h in
    let (_, _, h2) =
      >>=-eq-ok
        (exact_names payload (codes "maxNodes" ∷ codes "maxAttempts" ∷ codes "loopLimits" ∷ [])) _
        h1 in
    let (items, _, h3) = >>=-eq-ok (entry (codes "loopLimits") payload >>= items_of) _ h2 in
    let (limits, parsed, h4) = >>=-eq-ok (parse_all parse_loop_limit items) _ h3 in
    let (_, distinct, h5) =
      >>=-eq-ok (guard (nodup_by eq_route (map route limits)) duplicates) _ h4 in
    let (max_nodes, _, h6) =
      >>=-eq-ok (entry (codes "maxNodes") payload >>= positive_integer) _ h5 in
    let (n, _, h7) = >>=-eq-ok (entry (codes "maxAttempts") payload >>= positive_integer) _ h6 in
    let (_, three, last) = >>=-eq-ok (guard (n == 3) not_three_attempts) _ h7 in
    let same : record { max_nodes = max_nodes; max_attempts = n; loop_limits = limits } ≡ c =
      ground (arith, last) in
    rw (← same) (record {
      three_attempts = ground (arith, guard-eq-ok (n == 3) not_three_attempts three);
      limits =
          parse_all-All (λ l. IsPositive l × IsIdentifiedLimit l) parse_loop_limit
            parse_loop_limit-IsPositive items limits parsed;
      distinct_limits = guard-eq-ok (nodup_by eq_route (map route limits)) duplicates distinct;
    })

validated_ok :
    (s t : VersionedSnapshot) (r : Result Violation (Unit {0}))
    → validated s r ≡ ok t
    → (s ≡ t) × (r ≡ ok tt)
unfolding validated
validated_ok s t (ok _) h = (ground (arith, h), refl)
validated_ok s t (err e) h = cc

validated-IsAccepted :
    (s t : VersionedSnapshot)
    → validated s (validate_snapshot s) ≡ ok t
    → mem s.profile_key profile_keys ≡ true
    → All IsTyped s.nodes
    → All IsIdentified s.edges
    → IsSound s.config
    → IsAccepted t
validated-IsAccepted s t h keyed typed identified c =
    let (same, valid) = validated_ok s t (validate_snapshot s) h in
    rw (← same) (record {
      valid = valid;
      keyed = keyed;
      typed = typed;
      three_attempts = c.three_attempts;
      positive = All-map (λ l q. q.0) s.config.loop_limits c.limits;
      distinct_limits = c.distinct_limits;
      identified = identified;
      identified_limits = All-map (λ l q. q.1) s.config.loop_limits c.limits;
    })

parse_parts-IsAccepted :
    (payload : Fields) (profile_id key : Str) (s : VersionedSnapshot)
    → parse_parts payload profile_id key ≡ ok s
    → mem key profile_keys ≡ true
    → IsAccepted s
unfolding parse_parts
parse_parts-IsAccepted payload profile_id key s h keyed =
    let tools = lookup (codes "toolBindings") payload in
    let (node_items, _, h8) = >>=-eq-ok (entry (codes "nodes") payload >>= nonempty_items_of) _ h in
    let (nodes, typed, h9) = >>=-eq-ok (parse_all parse_node node_items) _ h8 in
    let (edge_items, _, h10) = >>=-eq-ok (entry (codes "edges") payload >>= items_of) _ h9 in
    let (edges, identified, h11) = >>=-eq-ok (parse_all parse_edge edge_items) _ h10 in
    let (_, _, h12) = >>=-eq-ok (entry (codes "modelBindings") payload >>= freeze_bindings) _ h11 in
    let (_, _, h13) = >>=-eq-ok (freeze_tool_bindings tools) _ h12 in
    let (_, _, h14) = >>=-eq-ok (entry (codes "toolPolicy") payload >>= freeze_object) _ h13 in
    let (_, _, h15) =
      >>=-eq-ok (entry (codes "profileVersion") payload >>= positive_integer) _ h14 in
    let (config, whole, h16) = >>=-eq-ok (entry (codes "config") payload >>= parse_config) _ h15 in
    let (config_value, _, parsed) = >>=-eq-ok (entry (codes "config") payload) parse_config whole in
    let (_, _, last) =
      >>=-eq-ok (matched_entry is_guardrail_profile_key 128 (codes "guardrailProfileKey") payload) _
        h16 in
    let c = parse_config-IsSound config_value config parsed in
    validated-IsAccepted _ s last keyed
      (parse_all-All IsTyped parse_node parse_node-IsTyped node_items nodes typed)
      (parse_all-All IsIdentified parse_edge parse_edge-IsIdentified edge_items edges identified) c

-- `from_dict` returns only snapshots that `validate_snapshot` accepts, of one of the two profiles, whose
-- nodes are of the allowed types, with three attempts, with loop limits that are distinct and at least
-- one, and with edges and limits whose sources and ports are identifiers.
pub parse_snapshot-IsAccepted :
    (v : Value) (s : VersionedSnapshot) → parse_snapshot v ≡ ok s → IsAccepted s
unfolding parse_snapshot
parse_snapshot-IsAccepted v s h =
    let (payload, _, h1) = >>=-eq-ok (object_of v) _ h in
    let tools = lookup (codes "toolBindings") payload in
    let (_, _, h2) = >>=-eq-ok (exact_names payload (expected_fields tools)) _ h1 in
    let (version, _, h3) = >>=-eq-ok (entry (codes "contractVersion") payload) _ h2 in
    let (_, _, h4) = >>=-eq-ok (guard (is_contract_version version) unsupported) _ h3 in
    let (profile_id, _, h5) =
      >>=-eq-ok (entry (codes "profileVersionId") payload >>= uuid_of) _ h4 in
    let (key, _, h6) =
      >>=-eq-ok (matched_entry is_profile_key 64 (codes "profileKey") payload) _ h5 in
    let (_, keyed, last) = >>=-eq-ok (guard (mem key profile_keys) unsupported) _ h6 in
    parse_parts-IsAccepted payload profile_id key s last
      (guard-eq-ok (mem key profile_keys) unsupported keyed)
