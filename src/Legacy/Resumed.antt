-- ===== src/Legacy/Resumed.antt =====
-- A resumed delivery of graph.py moves the ledger of its job forward, or is the last delivery once more.
use urizo_final_orchestrator.Base.{
  ℕ, true, false, ◌&&◌, Str, codes, eq, Option, none, some, if◌then◌else◌, ok, err, guard,
  >>=-eq-ok, guard-eq-ok, ok_inj, ◌≡◌, refl, sym, ap, ◌∙◌, subst, ◌⊎◌, inl, inr, arith, Bool-cases,
  same_set,
}
use urizo_final_orchestrator.Json.{
  Value, bool, dict, Fields, end, field, lookup, is_true, field_names,
}
use urizo_final_orchestrator.Contracts.{CodingJobRequested, WorkerClaim}
use urizo_final_orchestrator.Contracts.Checks.{Checked}
use urizo_final_orchestrator.Contracts.Event.{parse_event}
use urizo_final_orchestrator.Contracts.Claim.{is_some_text, parse_claim}
use urizo_final_orchestrator.Worker.Failure.{other}
use urizo_final_orchestrator.Runner.{Event, Claim, contract_failure, state_conflict}
use urizo_final_orchestrator.Runner.Stored.{mapping_in}
use urizo_final_orchestrator.Legacy.Delivery.{
  is_int, at_most, found, checked, is_same_legacy_delivery, Course, begins_with, delivery_fields,
  approval_of, resume_from, ledger_mapping, course_from, course,
}
use urizo_final_orchestrator.Legacy.Approved.{
  resume_names, resume_mapping, indexed, approval_denied, delivery_in, is_later, resumed_with,
  approval_node, written, delivered,
}
use urizo_final_orchestrator.Legacy.Moved.{MovesOn, retry-MovesOn, with_ledger-MovesOn}

found-eq-ok : (o : Option Value) (v : Value) → found o ≡ ok v → o ≡ some v
unfolding found
found-eq-ok none v h = absurd (cc)
found-eq-ok (some w) v h = ap (λ x. some x) (ok_inj h)

checked-eq-ok : {A : Type 0} (r : Checked A) (a : A) → checked r ≡ ok a → r ≡ ok a
unfolding checked
checked-eq-ok (err e) a h = absurd (cc)
checked-eq-ok (ok b) a h = ap (λ x. ok x) (ok_inj h)

resume_mapping-same : (fs kept : Fields) → resume_mapping (some fs) ≡ ok kept → kept ≡ fs
unfolding resume_mapping
resume_mapping-same fs kept h =
    let (_, _, last) =
      >>=-eq-ok (guard (same_set (field_names fs) resume_names) contract_failure) _ h in
    sym (ok_inj last)

some_inj : {v w : Value} → ◌≡◌ {A = Option Value} (some v) (some w) → v ≡ w
some_inj h = cc

stored_event :
    (event : Event) (claim : Claim)
    → lookup
        (codes "event")
        (field (codes "approved") (bool true) (delivery_fields event claim end))
      ≡ some (dict event.dict)
unfolding lookup eq delivery_fields
stored_event event claim = refl

module _ (instant_of : Str → Option ℕ) where
  -- The event that is read is the one stored.
  delivery_in-event :
      (fs : Fields) (v : Value) (e event : CodingJobRequested) (claim : WorkerClaim)
      → lookup (codes "event") fs ≡ some v
      → parse_event instant_of v ≡ ok e
      → delivery_in instant_of fs ≡ ok (event, claim)
      → event ≡ e
  unfolding delivery_in found checked
  delivery_in-event fs v e event claim there read h =
      let (w, at, h1) = >>=-eq-ok (found (lookup (codes "event") fs)) _ h in
      let (x, parsed, h2) = >>=-eq-ok (checked (parse_event instant_of w)) _ h1 in
      let (cv, _, h3) = >>=-eq-ok (found (lookup (codes "claim") fs)) _ h2 in
      let (cl, _, last) = >>=-eq-ok (checked (parse_claim instant_of cv x none)) _ h3 in
      let stored = found-eq-ok (lookup (codes "event") fs) w at in
      let same : w ≡ v = some_inj (sym stored ∙ there) in
      let again : parse_event instant_of w ≡ ok e = rw same read in
      sym (ap (λ (d : CodingJobRequested × WorkerClaim). d.0) (ok_inj last))
      ∙ ok_inj (sym (checked-eq-ok (parse_event instant_of w) x parsed) ∙ again)

  resumed_with-MovesOn :
      (state resume ledger updates : Fields) (old_event e : CodingJobRequested)
      (old_claim : WorkerClaim) (v : Value)
      → lookup (codes "ledger") state ≡ some (dict ledger)
      → lookup (codes "event") resume ≡ some v
      → parse_event instant_of v ≡ ok e
      → resumed_with instant_of state old_event old_claim resume ≡ ok updates
      → MovesOn e ledger updates
  unfolding resumed_with indexed is_later
  resumed_with-MovesOn state resume ledger updates old_event e old_claim v held there read h =
      let ((event, claim), delivered_ok, h1) = >>=-eq-ok (delivery_in instant_of resume) _ h in
      let (_, _, h2) =
        >>=-eq-ok (guard (claim.resume && eq event.job_id old_event.job_id) state_conflict) _ h1 in
      let (kept, got, h3) = >>=-eq-ok (indexed (mapping_in (lookup (codes "ledger") state))) _ h2 in
      let (_, _, h4) =
        >>=-eq-ok (guard (is_int (lookup (codes "maxStateVersion") kept)) other) _ h3 in
      let (_, checks, h5) =
        >>=-eq-ok (guard (is_later instant_of event old_claim claim kept) state_conflict) _ h4 in
      let (event_value, _, h6) = >>=-eq-ok (found (lookup (codes "event") resume)) _ h5 in
      let (claim_value, _, last) = >>=-eq-ok (found (lookup (codes "claim") resume)) _ h6 in
      let same : kept ≡ ledger = ok_inj (sym got ∙ rw held refl) in
      let passes =
        guard-eq-ok (is_later instant_of event old_claim claim kept) state_conflict checks in
      let later : at_most event.expected_state_version (lookup (codes "maxStateVersion") kept)
          ≡ false =
        ground (arith, passes) in
      subst (λ l. MovesOn e l updates) same
        (subst (λ x. MovesOn x kept updates)
          (delivery_in-event resume v e event claim there read delivered_ok)
          (with_ledger-MovesOn instant_of event event_value claim_value kept updates later last))

  approval_node-MovesOn :
      (state ledger updates : Fields) (event : Event) (claim : Claim)
      → lookup (codes "ledger") state ≡ some (dict ledger)
      → parse_event instant_of (dict event.dict) ≡ ok event.requested
      → written instant_of state (approval_of event claim) ≡ ok updates
      → MovesOn event.requested ledger updates
  unfolding written approval_of approval_node resume_mapping delivery_fields
  approval_node-MovesOn state ledger updates event claim held read h =
      let resume = field (codes "approved") (bool true) (delivery_fields event claim end) in
      let ((old_event, old_claim), _, h1) = >>=-eq-ok (delivery_in instant_of state) _ h in
      let (kept, got, h2) = >>=-eq-ok (resume_mapping (some resume)) _ h1 in
      let (_, _, last) =
        >>=-eq-ok (guard (is_true (lookup (codes "approved") kept)) approval_denied) _ h2 in
      let same : kept ≡ resume = resume_mapping-same resume kept got in
      resumed_with-MovesOn state kept ledger updates old_event event.requested old_claim
        (dict event.dict) held (rw same (stored_event event claim)) read last

  resume_from-MovesOn :
      (state ledger updates : Fields) (event : Event) (claim : Claim) (p : Course)
      → lookup (codes "ledger") state ≡ some (dict ledger)
      → parse_event instant_of (dict event.dict) ≡ ok event.requested
      → resume_from event claim state ledger ≡ ok p
      → written instant_of state p ≡ ok updates
      → MovesOn event.requested ledger updates
  unfolding resume_from
  resume_from-MovesOn state ledger updates event claim p held read h w =
      let status = lookup (codes "status") state in
      elim (Bool-cases (is_some_text (codes "WAITING_APPROVAL") status)) [
        | inl waits ↦
            let chosen : ok (approval_of event claim) ≡ ok p = rw waits at h in
            approval_node-MovesOn state ledger updates event claim held read (rw (ok_inj chosen) w)
        | inr goes ↦ elim (Bool-cases (is_some_text (codes "COMPLETED") status)) [
          | inl done ↦ absurd (ground (arith, h, goes, done))
          | inr on ↦
              retry-MovesOn event claim ledger state updates instant_of p (rw (goes, on) at h) w
        ]
      ]

  course_from-MovesOn :
      (state ledger updates : Fields) (event : Event) (claim : Claim) (p : Course)
      → lookup (codes "ledger") state ≡ some (dict ledger)
      → parse_event instant_of (dict event.dict) ≡ ok event.requested
      → claim.claimed.resume ≡ true
      → course_from instant_of event claim state ≡ ok p
      → written instant_of state p ≡ ok updates
      → (is_same_legacy_delivery event ledger ≡ true) ⊎ MovesOn event.requested ledger updates
  unfolding course_from ledger_mapping
  course_from-MovesOn state ledger updates event claim p held read resumes h w =
      let chosen = rw held at h in
      elim (Bool-cases (is_same_legacy_delivery event ledger)) [
        | inl same ↦ inl same
        | inr changed ↦ inr (
            resume_from-MovesOn state ledger updates event claim p held read
              (subst
                (λ b.
                  (if b then resume_from event claim state ledger else ok (begins_with event claim))
                  ≡ ok p)
                resumes (rw changed at chosen))
              w)
      ]

-- Where a claim resumes a job of the legacy graph whose state has a ledger, and its event reads back as it
-- was read, whatever is written into the state for it has a ledger at the event's version, which is above
-- the old one, with the event's id among at most a hundred; unless the event is the ledger's last delivery.
pub delivered-MovesOn :
    (instant_of : Str → Option ℕ) (state ledger updates : Fields) (event : Event) (claim : Claim)
    → lookup (codes "ledger") state ≡ some (dict ledger)
    → parse_event instant_of (dict event.dict) ≡ ok event.requested
    → claim.claimed.resume ≡ true
    → delivered instant_of state event claim ≡ ok updates
    → (is_same_legacy_delivery event ledger ≡ true) ⊎ MovesOn event.requested ledger updates
unfolding delivered course lookup
delivered-MovesOn instant_of end ledger updates event claim held read resumes h = absurd (cc)
delivered-MovesOn instant_of (field k v fs) ledger updates event claim held read resumes h =
    let (p, chosen, last) = >>=-eq-ok (course_from instant_of event claim (field k v fs)) _ h in
    course_from-MovesOn instant_of (field k v fs) ledger updates event claim p held read resumes
      chosen last
