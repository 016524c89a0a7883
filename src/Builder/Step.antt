-- ===== src/Builder/Step.antt =====
-- What one node's turn has done, in the graph that `compile` made of an accepted snapshot.
use urizo_final_orchestrator.Base.{
  ℕ, true, false, Str, Option, none, some, List, [], ◌∷◌, Dict, get, get-put, keys, eq, eq_iff, mem,
  Result, ok, err, >>=-eq-ok, ok_inj, ◌≡◌, refl, sym, ap, ◌∙◌, inl, inr, arith, Bool-cases,
  Result-cases,
}
use urizo_final_orchestrator.Json.{text, Fields, lookup}
use urizo_final_orchestrator.Snapshot.{SnapshotNode, SnapshotEdge, VersionedSnapshot}
use urizo_final_orchestrator.Snapshot.Validate.{end_type}
use urizo_final_orchestrator.Node.{
  NodeInvocation, NodeResult, NodeHandler, Handled, returned, other_object, interrupts, cancels,
  raises,
}
use urizo_final_orchestrator.Builder.{Stop, Report}
use urizo_final_orchestrator.Builder.Compile.{target_of, found_key, port_targets, exit_by}
use urizo_final_orchestrator.Builder.Action.{
  Acting, next_node_sequence, loop_counts, route_target, count_route, check_result_port, Validated,
  validate_result, failing, handle_and_validate, updates_of, opening_report, closing_report,
  updating, act, prepare, act_prepared, node_action, invocation_of, text_in, is_source, declared,
  port_router, loop_counts_key, last_node_key, last_port_key, sequence_key,
}
use urizo_final_orchestrator.Builder.Run.{next_node}

-- An action that returned: what it validated.
pub record Acts {W : Type 0} (s : VersionedSnapshot) (n : SnapshotNode) (handler : NodeHandler W)
    (w : W) (state updates : Fields) (reports : List Report) : Type 0 where
  pub invocation : NodeInvocation
  pub result : NodeResult
  pub invoked : invocation_of s n state ≡ ok invocation
  pub handled : (handler w invocation).0 ≡ returned result
  pub sequence : ℕ
  pub validated : Validated
  pub same_port : result.port ≡ validated.port
  pub counts : Dict ℕ
  pub numbered : next_node_sequence (lookup sequence_key state) ≡ ok sequence
  pub port_checked :
      check_result_port (eq n.node_type end_type) n.result_ports validated.port ≡ ok tt
  pub read : loop_counts s.config.loop_limits (lookup loop_counts_key state) ≡ ok counts
  pub counted : count_route s n validated.port counts ≡ ok validated.counts
  pub returns : updates ≡ updates_of n sequence validated
  pub reported : reports ≡ opening_report n sequence ∷ closing_report n sequence (ok validated)

handle_ok :
    (s : VersionedSnapshot) (n : SnapshotNode) (state : Fields) (i : NodeInvocation) (h : Handled)
    (v : Validated)
    → handle_and_validate s n state i h ≡ ok v
    → (r : NodeResult) × (validate_result s n state i r ≡ ok v) × (h ≡ returned r)
unfolding handle_and_validate failing
handle_ok s n state i (returned r) v h = elim (Result-cases (validate_result s n state i r)) [
  | inl (u, e) ↦ (r, e ∙ ap ok (ok_inj (rw e at h)), refl)
  | inr (x, e) ↦ absurd (cc (rw e at h))
]
handle_ok s n state i other_object v h = absurd (cc)
handle_ok s n state i interrupts v h = absurd (cc)
handle_ok s n state i cancels v h = absurd (cc)
handle_ok s n state i raises v h = absurd (cc)

updating_ok :
    (n : SnapshotNode) (q : ℕ) (r : Result Stop Validated) (updates : Fields)
    → updating n q r ≡ ok updates
    → (v : Validated) × (r ≡ ok v) × (updates ≡ updates_of n q v)
unfolding updating
updating_ok n q (err x) updates h = absurd (cc)
updating_ok n q (ok v) updates h = (v, refl, sym (ok_inj h))

module _ {W : Type 0} (s : VersionedSnapshot) (n : SnapshotNode) where
  prepared_ok :
      (handler : NodeHandler W) (state : Fields) (w : W) (p : Acting (NodeInvocation × ℕ))
      (updates : Fields)
      → (act_prepared s n handler state w p).outcome ≡ ok updates
      → (i : NodeInvocation) × (q : ℕ) × (p ≡ ok (i, q))
        × (updating n q (handle_and_validate s n state i (handler w i).0) ≡ ok updates)
        × ((act_prepared s n handler state w p).reports
            ≡ opening_report n q
              ∷ closing_report n q (handle_and_validate s n state i (handler w i).0))
  unfolding act_prepared act
  prepared_ok handler state w (err e) updates h = absurd (cc)
  prepared_ok handler state w (ok (i, q)) updates h = (i, q, refl, h, refl)

  pub action-Acts :
      (handler : NodeHandler W) (state : Fields) (w : W) (updates : Fields)
      → (node_action s n handler state w).outcome ≡ ok updates
      → Acts s n handler w state updates (node_action s n handler state w).reports
  unfolding node_action prepare validate_result
  action-Acts handler state w updates h =
      let (i, q, prepared, h1, reported) =
        prepared_ok handler state w (prepare s n state) updates h in
      let (j, invoked, h2) = >>=-eq-ok (invocation_of s n state) _ prepared in
      let (k, numbered, last) = >>=-eq-ok (next_node_sequence (lookup sequence_key state)) _ h2 in
      let same : k ≡ q = cc (ok_inj last) in
      let own : j ≡ i = cc (ok_inj last) in
      let (v, handled, updated) = updating_ok n q _ updates h1 in
      let (r, valid, answered) = handle_ok s n state i (handler w i).0 v handled in
      let (_, checked, h3) =
        >>=-eq-ok (check_result_port (eq n.node_type end_type) n.result_ports r.port) _ valid in
      let (counts, read, h4) =
        >>=-eq-ok (loop_counts s.config.loop_limits (lookup loop_counts_key state)) _ h3 in
      let (after, counted, done) = >>=-eq-ok (count_route s n r.port counts) _ h4 in
      let port : r.port ≡ v.port = ap (λ (x : Validated). x.port) (ok_inj done) in
      let kept : after ≡ v.counts = ap (λ (x : Validated). x.counts) (ok_inj done) in
      record {
        invocation = i;
        result = r;
        invoked = invoked ∙ ap ok own;
        handled = answered;
        same_port = port;
        sequence = q;
        validated = v;
        counts = counts;
        numbered = numbered ∙ ap ok same;
        port_checked = rw port at checked;
        read = read;
        counted = rw (port, kept) at counted;
        returns = updated;
        reported = rw handled at reported;
      }

-- The targets by port.
pub get-port_targets :
    (edges : List SnapshotEdge) (a : Str) (ps : List Str) (ts : Dict Str) (p t : Str)
    → port_targets edges a ps ≡ ok ts
    → mem p ps ≡ true
    → target_of (a, p) edges ≡ some t
    → get p ts ≡ some t
unfolding port_targets mem found_key
get-port_targets edges a [] ts p t h m f = absurd (cc)
get-port_targets edges a (q ∷ ps) ts p t h m f =
    let (u, e, h1) = >>=-eq-ok (found_key (target_of (a, q) edges)) _ h in
    let (rest, r, last) = >>=-eq-ok (port_targets edges a ps) _ h1 in
    let known : target_of (a, q) edges ≡ some u = found_key_ok (target_of (a, q) edges) u e in
    elim (Bool-cases (eq p q)) [
      | inl this ↦
          let same = (eq_iff p q).0 this in
          let hit : eq q p ≡ true = (eq_iff q p).1 (sym same) in
          let value : some u ≡ some t =
            sym known ∙ ap (λ (x : Str). target_of (a, x) edges) (sym same) ∙ f in
          rw (← ok_inj last) (get-put q p u rest ∙ (rw hit value))
      | inr other ↦
          let miss : eq q p ≡ false = ground (arith, eq_iff p q, eq_iff q p, other) in
          rw (← ok_inj last) (
            get-put q p u rest
            ∙ (rw miss (get-port_targets edges a ps rest p t r (rw other at m) f)))
    ]
  where
    found_key_ok : (o : Option Str) (u : Str) → found_key o ≡ ok u → o ≡ some u
    found_key_ok none u h = absurd (cc)
    found_key_ok (some x) u h = ap some (ok_inj h)

mem-keys : (p t : Str) (ts : Dict Str) → get p ts ≡ some t → mem p (keys ts) ≡ true
unfolding get mem
mem-keys p t [] h = absurd (cc)
mem-keys p t ((q, u) ∷ ts) h = ground (arith, mem-keys p t ts, eq_iff p q, eq_iff q p)

-- The exit leads to the target of the port.
pub next_node-exit_by :
    (a : Str) (ts : Dict Str) (state : Fields) (p t : Str)
    → get p ts ≡ some t
    → lookup last_node_key state ≡ some (text a)
    → lookup last_port_key state ≡ some (text p)
    → next_node (exit_by a ts) state ≡ ok (some t)
unfolding exit_by next_node port_router text_in is_source declared route_target get
next_node-exit_by a [] state p t g ln lp = absurd (cc)
next_node-exit_by a ((q, u) ∷ []) state p t g ln lp = ground arith
next_node-exit_by a ((q, u) ∷ (q', u') ∷ ts) state p t g ln lp =
    let here = (eq_iff a a).1 refl in
    let listed = mem-keys p t ((q, u) ∷ (q', u') ∷ ts) g in rw (ln, here, lp, listed, g) refl
