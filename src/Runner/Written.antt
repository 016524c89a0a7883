-- ===== src/Runner/Written.antt =====
-- What `invoke` of snapshot_runner.py writes into a checkpoint, the next reader of it accepts.
use urizo_final_orchestrator.Base.{
  ℕ, ◌-◌, ◌≤◌, true, ◌&&◌, ◌==◌, ltb, leb, Str, codes, eq, eq_iff, Option, none, some, List, [],
  ◌∷◌, ◌++◌, mem, mem-append, length, length-append, ok, guard, >>=-eq-ok, guard-eq-ok, ok_inj, ◌≡◌,
  refl, ap, ◌∙◌, inl, inr, arith, Bool-cases,
}
use urizo_final_orchestrator.Json.{Value, int, text, dict, Fields, lookup}
use urizo_final_orchestrator.Builder.Update.{lookup-put_field}
use urizo_final_orchestrator.Runner.{
  Event, Claim, SnapshotExecution, Checkpoint, Phase, waiting_approval, completed, running, Ledger,
  state_conflict,
}
use urizo_final_orchestrator.Runner.Stored.{
  ledger_key, mapping_in, texts_in, ids_in, positive_in, ledger_of, ledger_in, checkpoint_ledger,
  checkpoint_phase, validate_recovered_delivery, list_of, ledger_fields, execution_updates,
}
use urizo_final_orchestrator.Runner.Plan.{
  Plan, answers, goes_on, resumes, recovers, starts, drop, last_hundred, updated_ledger,
  is_same_delivery, is_boundary, plan_by_phase, plan_same, first_ledger, initial_state,
}

length-drop : (n : ℕ) (xs : List Str) → length (drop n xs) ≡ length xs - n
unfolding drop
length-drop n [] = omega arith
length-drop n (x ∷ xs) = elim (Bool-cases (n == 0)) [
  | inl zero ↦ rw zero (ground (arith, zero))
  | inr more ↦ rw more (ground (arith, more, length-drop (n - 1) xs))
]

-- The last entry is kept.
mem-drop :
    (n : ℕ) (xs : List Str) (x : Str) → n ≤ length xs → mem x (drop n (xs ++ (x ∷ []))) ≡ true
unfolding drop mem
mem-drop n [] x h = ground (arith, (eq_iff x x).1 refl)
mem-drop n (y ∷ xs) x h = elim (Bool-cases (n == 0)) [
  | inl zero ↦ rw zero (ground (arith, mem-append x xs (x ∷ []), (eq_iff x x).1 refl))
  | inr more ↦ rw more (mem-drop (n - 1) xs x (ground (arith, more)))
]

-- A ledger that `_checkpoint_ledger` accepts.
pub record IsLedger (l : Ledger) : Type 0 where
  pub some_ids : 1 ≤ length l.event_ids
  pub few_ids : length l.event_ids ≤ 100
  pub positive : 1 ≤ l.max_state_version

texts_in-list_of : (ts : List Str) → texts_in (list_of ts) ≡ some ts
unfolding texts_in list_of
texts_in-list_of [] = refl
texts_in-list_of (t ∷ ts) = rw (texts_in-list_of ts) refl

ledger_in-ledger_fields : (l : Ledger) → IsLedger l → ledger_in (some (ledger_fields l)) ≡ ok l
unfolding ledger_in ledger_fields ids_in positive_in ledger_of lookup eq
ledger_in-ledger_fields l i =
    rw (texts_in-list_of l.event_ids) (ground (arith, i.some_ids, i.few_ids, i.positive))

ledger_of-IsLedger :
    (ids : Option (List Str)) (v : Option Value) (l : Ledger)
    → ledger_of ids (positive_in v) ≡ ok l
    → IsLedger l
unfolding ledger_of positive_in
ledger_of-IsLedger none v l h = absurd (cc)
ledger_of-IsLedger (some ids) (some (int n)) l h = elim (Bool-cases (leb 1 n)) [
  | inr low ↦ absurd (cc (rw low at h))
  | inl high ↦
      let (_, g, last) =
        >>=-eq-ok (guard (leb 1 (length ids) && leb (length ids) 100) state_conflict) _
          (rw high at h) in
      let size = guard-eq-ok (leb 1 (length ids) && leb (length ids) 100) state_conflict g in
      rw (← ok_inj last) (record {
        some_ids = ground (arith, size);
        few_ids = ground (arith, size);
        positive = ground (arith, high);
      })
]
ledger_of-IsLedger (some ids) v l h = absurd (cc)

ledger_in-IsLedger : (o : Option Fields) (l : Ledger) → ledger_in o ≡ ok l → IsLedger l
unfolding ledger_in
ledger_in-IsLedger none l h = absurd (cc)
ledger_in-IsLedger (some fs) l h =
    ledger_of-IsLedger (ids_in (lookup (codes "eventIds") fs)) (lookup (codes "maxStateVersion") fs)
      l h

pub checkpoint_ledger-IsLedger :
    (values : Fields) (l : Ledger) → checkpoint_ledger values ≡ ok l → IsLedger l
unfolding checkpoint_ledger
checkpoint_ledger-IsLedger values l h =
    ledger_in-IsLedger (mapping_in (lookup ledger_key values)) l h

-- Updates whose ledger is read back: it names the event, at the event's state version.
pub record IsRecord (event : Event) (updates : Fields) : Type 0 where
  pub ledger : Ledger
  pub read : checkpoint_ledger updates ≡ ok ledger
  pub at_version : ledger.max_state_version ≡ event.requested.expected_state_version
  pub named : mem event.requested.event_id ledger.event_ids ≡ true

-- What a plan writes.
abbrev pub Writes : (Fields → Type 0) → Plan → Type 0
Writes P (answers r) = Unit
Writes P (goes_on u) = P u
Writes P (resumes u) = P u
Writes P (recovers u l) = P u × (checkpoint_ledger u ≡ ok l)
Writes P (starts u) = P u

module _ (instant_of : Str → Option ℕ) (event : Event) (claim : Claim)
    (execution : SnapshotExecution) (digest : Str)
    (positive : 1 ≤ event.requested.expected_state_version) where
  updates_read :
      (l : Ledger)
      → IsLedger l
      → checkpoint_ledger (execution_updates event claim execution l) ≡ ok l
  unfolding checkpoint_ledger execution_updates lookup eq
  updates_read l i = ledger_in-ledger_fields l i

  pub first-IsRecord : IsRecord event (initial_state instant_of event claim execution digest)
  unfolding initial_state mem eq checkpoint_ledger
  first-IsRecord =
      let l = first_ledger instant_of event claim execution digest in
      let i : IsLedger l = record {
        some_ids = omega arith;
        few_ids = omega arith;
        positive = positive;
      } in
      let updates = execution_updates event claim execution l in
      let inner = lookup-put_field (codes "context") ledger_key (dict execution.context) updates in
      let outer = lookup-put_field (codes "_snapshotProfileDigest") ledger_key (text digest) _ in
      record {
        ledger = l;
        read =
            ap (λ (o : Option Value). ledger_in (mapping_in o)) (outer ∙ inner) ∙ updates_read l i;
        at_version = refl;
        named = ground (arith, (eq_iff event.requested.event_id event.requested.event_id).1 refl);
      }

  same-IsRecord :
      (l : Ledger)
      → IsLedger l
      → is_same_delivery event l ≡ true
      → IsRecord event (execution_updates event claim execution l)
  unfolding is_same_delivery
  same-IsRecord l i same = record {
    ledger = l;
    read = updates_read l i;
    at_version = ground (arith, same);
    named = ground (arith, same);
  }

  newer-IsRecord :
      (ids : List Str)
      → IsRecord event (execution_updates event claim execution (updated_ledger event ids))
  unfolding updated_ledger last_hundred
  newer-IsRecord ids =
      let all = ids ++ (event.requested.event_id ∷ []) in
      let size = length-append ids (event.requested.event_id ∷ []) in
      let kept = length-drop (length all - 100) all in
      record {
        ledger = updated_ledger event ids;
        read = updates_read (updated_ledger event ids) (record {
          some_ids = omega (arith, size, kept);
          few_ids = omega (arith, kept);
          positive = positive;
        });
        at_version = refl;
        named = mem-drop (length all - 100) ids event.requested.event_id (omega (arith, size));
      }

  pub plan_same-Writes :
      (values : Fields) (checkpoint : Checkpoint) (l : Ledger) (p : Plan)
      → IsLedger l
      → is_same_delivery event l ≡ true
      → plan_same instant_of event claim execution digest values checkpoint l ≡ ok p
      → Writes (IsRecord event) p
  unfolding plan_same
  plan_same-Writes values checkpoint l p i same h =
      let (_, _, last) =
        >>=-eq-ok (validate_recovered_delivery instant_of values event claim execution) _ h in
      elim (Bool-cases (is_boundary (checkpoint_phase checkpoint))) [
        | inl at ↦ rw (← ok_inj last, at) tt
        | inr on ↦ rw (← ok_inj last, on) (same-IsRecord l i same)
      ]

  pub plan_by_phase-Writes :
      (phase : Phase) (attempt : ℕ) (ids : List Str)
      → Writes (IsRecord event) (
          plan_by_phase phase attempt execution
            (execution_updates event claim execution (updated_ledger event ids))
            (updated_ledger event ids))
  unfolding plan_by_phase updated_ledger newer-IsRecord
  plan_by_phase-Writes completed attempt ids = let r = newer-IsRecord ids in (r, r.read)
  plan_by_phase-Writes running attempt ids = newer-IsRecord ids
  plan_by_phase-Writes waiting_approval attempt ids =
      elim (Bool-cases (ltb attempt execution.execution_attempt)) [
        | inl more ↦ rw more (newer-IsRecord ids)
        | inr same ↦ rw same (newer-IsRecord ids)
      ]
