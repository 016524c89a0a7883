-- ===== src/Queue/Recovery.antt =====
-- `recover_stale` ends, empties the processing list, and moves its entries back in order.
use urizo_final_orchestrator.Base.{
  ℕ, zero, suc, ◌+◌, ◌<◌, Bool, true, false, ◌==◌, ◌≡◌, ◌≢◌, refl, sym, ap, ◌∙◌, Option, none, some,
  List, [], ◌∷◌, eq_refl, get, Result, ok, err, arith, length,
}
use urizo_final_orchestrator.Json.{Value}
use urizo_final_orchestrator.Contracts.{QueuedJobReference}
use urizo_final_orchestrator.Queue.Store.{
  Raw, Store, World, Fault, served, lost_request, lost_reply, QueueError, Exec, continue, ensure,
  call, call_with, pure, ◌>>=◌, lindex, lrem, holds, lmove_right, hget, quarantine_script, not_open,
  no_longer_pending, quarantine_failed, recovery_failed, out_of_fuel,
}
use urizo_final_orchestrator.Queue.Delivery.{
  QueueDelivery, require_client, failure, quarantine_as, quarantine, from_json, tracked_of,
  tracked_delivery, delivery_of, exhausted, recovery_error, settle, settle_head, resume, round,
  recover_loop, recover_stale,
}

call_with-error :
    {A : Type 0} (fs : List Fault) (c : Store → A × Store) (e x : QueueError) (w : World)
    → (call_with fs c e w).0 ≡ err x
    → x ≡ e
call_with-error [] c e x w h = ground arith
call_with-error (served ∷ fs) c e x w h = ground arith
call_with-error (lost_request ∷ fs) c e x w h = ground arith
call_with-error (lost_reply ∷ fs) c e x w h = ground arith

-- The method raises no `out_of_fuel`.
abbrev Ends : {A : Type 0} → Exec A → Type 0
Ends m = (w : World) → (m w).0 ≢ err out_of_fuel

module _ {A B : Type 0} where
  Ends-bind : (m : Exec A) (f : A → Exec B) → Ends m → ((a : A) → Ends (f a)) → Ends (m >>= f)
  Ends-bind m f em ef w = let (x, u) = m w in go x u (em w)
    where
      go :
          (x : Result QueueError A) (u : World)
          → x ≢ err out_of_fuel
          → (continue x f u).0 ≢ err out_of_fuel
      go (ok a) u h = ef a u
      go (err e) u h = λ q. h (ground arith)

Ends-call :
    {A : Type 0} (c : Store → A × Store) (e : QueueError) → e ≢ out_of_fuel → Ends (call c e)
unfolding call
Ends-call c e ne w h = ne (sym (call_with-error w.faults c e out_of_fuel w h))

Ends-ensure : (b : Bool) (e : QueueError) → e ≢ out_of_fuel → Ends (ensure b e)
Ends-ensure true e ne w h = cc
Ends-ensure false e ne w h = ne (ground arith)

Ends-require_client : Ends require_client
unfolding require_client
Ends-require_client w = Ends-ensure w.is_open not_open (λ q. cc) w

Ends-quarantine : (d : QueueDelivery) → Ends (quarantine d)
unfolding quarantine quarantine_as
Ends-quarantine d w =
    Ends-bind require_client _ Ends-require_client
      (λ _.
        Ends-bind (call (quarantine_script d.raw (failure d w.now) d.job.job_id) quarantine_failed)
          _ (Ends-call _ quarantine_failed (λ q. cc))
          (λ n. Ends-ensure (n == 1) no_longer_pending (λ q. cc)))
      w

module _ (decode : Raw → Option Value) where
  Ends-tracked_of : (x : Raw) (o : Option QueuedJobReference) → Ends (tracked_of decode x o)
  unfolding tracked_of
  Ends-tracked_of x none = λ w h. cc
  Ends-tracked_of x (some job) =
      Ends-bind (call (hget job.job_id) recovery_failed) _ (Ends-call _ recovery_failed (λ q. cc))
        (λ _ w h. cc)

  Ends-settle : (o : Option QueueDelivery) → Ends (settle decode o)
  unfolding settle
  Ends-settle (some d) = Ends-bind (quarantine d) _ (Ends-quarantine d) (λ _ w h. cc)
  Ends-settle none =
      Ends-bind (call lmove_right recovery_failed) _ (Ends-call _ recovery_failed (λ q. cc))
        (λ _ w h. cc)

  Ends-settle_head : (x : Raw) → Ends (settle_head decode x)
  unfolding settle_head tracked_delivery
  Ends-settle_head x =
      Ends-bind (tracked_of decode x (from_json decode x)) _
        (Ends-tracked_of x (from_json decode x)) (λ o. Ends-settle (exhausted decode o))

  -- Tracking writes nothing.
  store-tracked_of :
      (x : Raw) (j : Option QueuedJobReference) (w : World)
      → (tracked_of decode x j w).1.store ≡ w.store
  unfolding tracked_of call hget
  store-tracked_of x none w = refl
  store-tracked_of x (some job) w = go w.faults
    where
      go :
          (fs : List Fault)
          → let (n, v) =
              call_with fs
                (λ (s : Store). (get job.job_id s.delivery_attempts, s))
                recovery_failed
                w in
            (continue n (λ m. pure (delivery_of decode x job m)) v).1.store ≡ w.store
      go [] = refl
      go (served ∷ fs) = refl
      go (lost_request ∷ fs) = refl
      go (lost_reply ∷ fs) = refl

  -- What is tracked at an entry is that entry.
  raw-tracked_of :
      (x : Raw) (j : Option QueuedJobReference) (w : World) (o : Option QueueDelivery)
      (d : QueueDelivery)
      → (tracked_of decode x j w).0 ≡ ok o
      → exhausted decode o ≡ some d
      → d.raw ≡ x
  unfolding tracked_of call
  raw-tracked_of x none w o d h e = ground arith
  raw-tracked_of x (some job) w o d h e =
      go (call (hget job.job_id) recovery_failed w).0 (call (hget job.job_id) recovery_failed w).1 h
    where
      go :
          (n : Result QueueError (Option ℕ)) (v : World)
          → (continue n (λ m. pure (delivery_of decode x job m)) v).0 ≡ ok o
          → d.raw ≡ x
      go (ok none) v q = ground arith
      go (ok (some n)) v q = ground arith
      go (err _) v q = cc

  -- Where the method moves an entry, it was the head of the processing list.
  abbrev Drops : Raw → List Raw → Exec (Option ℕ) → Type 0
  Drops x xs m =
      (w : World) (n : ℕ)
      → w.store.processing ≡ x ∷ xs
      → (m w).0 ≡ ok (some n)
      → (m w).1.store.processing ≡ xs

  Drops-quarantine :
      (d : QueueDelivery) (x : Raw) (xs : List Raw)
      → d.raw ≡ x
      → Drops x xs (quarantine d >>= λ _. pure (some 0))
  unfolding quarantine quarantine_as require_client call quarantine_script holds lrem
  Drops-quarantine d x xs own w n e h = ground (arith, eq_refl x)

  Drops-lmove_right : (x : Raw) (xs : List Raw) → Drops x xs (settle decode none)
  unfolding settle call lmove_right
  Drops-lmove_right x xs w n e h = ground arith

  Drops-settle :
      (x : Raw) (xs : List Raw) (o : Option QueueDelivery)
      → ((d : QueueDelivery) → o ≡ some d → d.raw ≡ x)
      → Drops x xs (settle decode o)
  unfolding settle
  Drops-settle x xs none own w n e h = Drops-lmove_right x xs w n e h
  Drops-settle x xs (some d) own w n e h = Drops-quarantine d x xs (own d refl) w n e h

  Drops-settle_head : (x : Raw) (xs : List Raw) → Drops x xs (settle_head decode x)
  unfolding settle_head tracked_delivery
  Drops-settle_head x xs w n e h =
      let j = from_json decode x in
      let v = (tracked_of decode x j w).1 in
      let same : v.store.processing ≡ x ∷ xs =
        ap (λ (s : Store). s.processing) (store-tracked_of x j w) ∙ e in
      go (tracked_of decode x j w).0 v (λ o d. raw-tracked_of x j w o d) same h
    where
      go :
          (r : Result QueueError (Option QueueDelivery)) (v : World)
          → ((o : Option QueueDelivery) (d : QueueDelivery)
              → r ≡ ok o
              → exhausted decode o ≡ some d
              → d.raw ≡ x)
          → v.store.processing ≡ x ∷ xs
          → (continue r (λ o. settle decode (exhausted decode o)) v).0 ≡ ok (some n)
          → (continue r (λ o. settle decode (exhausted decode o)) v).1.store.processing ≡ xs
      go (ok o) v own same q = Drops-settle x xs (exhausted decode o) (λ d. own o d refl) v n same q
      go (err e) v own same q = absurd (ground arith)

  -- What LINDEX returns is the head of the processing list, and it writes nothing.
  head_of_lindex :
      (w : World) (x : Raw)
      → (call lindex recovery_failed w).0 ≡ ok (some x)
      → (xs : List Raw) × ((call lindex recovery_failed w).1.store.processing ≡ x ∷ xs)
        × (w.store.processing ≡ x ∷ xs)
  unfolding call lindex
  head_of_lindex w x h = ground arith

  module _ (fuel : ℕ) (loop : ℕ → Exec ℕ)
      (ends : (k : ℕ) (u : World)
        → length u.store.processing < fuel
        → (loop k u).0 ≢ err out_of_fuel) where
    resume_ends :
        (n : ℕ) (q : Result QueueError (Option ℕ)) (u : World)
        → q ≢ err out_of_fuel
        → ((k : ℕ) → q ≡ ok (some k) → length u.store.processing < fuel)
        → (continue q (resume decode loop n) u).0 ≢ err out_of_fuel
    resume_ends n (ok none) u ne lt = λ h. cc
    resume_ends n (ok (some k)) u ne lt = ends (n + k) u (lt k refl)
    resume_ends n (err e) u ne lt = λ h. ne (ground arith)

    round_ends :
        (n : ℕ) (o : Option Raw) (v : World)
        → ((x : Raw)
            → o ≡ some x
            → (xs : List Raw) × (v.store.processing ≡ x ∷ xs) × (length xs < fuel))
        → (round decode loop n o v).0 ≢ err out_of_fuel
    round_ends n none v found = λ h. cc
    round_ends n (some x) v found =
        let (xs, e, lt) = found x refl in
        resume_ends n (settle_head decode x v).0 (settle_head decode x v).1 (Ends-settle_head x v)
          (λ k q. rw (Drops-settle_head x xs v k e q) lt)

    body_ends :
        (n : ℕ) (r : Result QueueError (Option Raw)) (v : World)
        → r ≢ err out_of_fuel
        → ((x : Raw)
            → r ≡ ok (some x)
            → (xs : List Raw) × (v.store.processing ≡ x ∷ xs) × (length xs < fuel))
        → (continue r (round decode loop n) v).0 ≢ err out_of_fuel
    body_ends n (ok o) v ne found = round_ends n o v (λ x e. found x (ap ok e))
    body_ends n (err e) v ne found = λ h. ne (ground arith)

  recover_loop_ends :
      (fuel n : ℕ) (w : World)
      → length w.store.processing < fuel
      → (recover_loop decode fuel n w).0 ≢ err out_of_fuel
  unfolding recover_loop
  recover_loop_ends zero n w lt = absurd (omega arith)
  recover_loop_ends (suc fuel) n w lt =
      body_ends fuel (recover_loop decode fuel) (recover_loop_ends fuel) n
        (call lindex recovery_failed w).0 (call lindex recovery_failed w).1
        (Ends-call lindex recovery_failed (λ q. cc) w)
        (λ x e.
          let (xs, moved, old) = head_of_lindex w x e in (xs, moved, omega (arith, ap length old)))

  recovery_error_ends :
      (r : Result QueueError ℕ) (w : World)
      → r ≢ err out_of_fuel
      → (recovery_error decode (r, w)).0 ≢ err out_of_fuel
  recovery_error_ends (ok n) w ne = λ h. cc
  recovery_error_ends (err out_of_fuel) w ne = λ h. ne refl
  recovery_error_ends (err _) w ne = λ h. cc

  -- The loop of `recover_stale` ends by its test, from every state and whatever calls fail: the fuel
  -- of one more round than there are entries in processing is enough.
  pub recover_stale-ne-out_of_fuel : (w : World) → (recover_stale decode w).0 ≢ err out_of_fuel
  unfolding recover_stale
  recover_stale-ne-out_of_fuel w =
      Ends-bind require_client _ Ends-require_client
        (λ _ v.
          let fuel = suc (length v.store.processing) in
          recovery_error_ends (recover_loop decode fuel 0 v).0 (recover_loop decode fuel 0 v).1
            (recover_loop_ends fuel 0 v (omega arith)))
        w
