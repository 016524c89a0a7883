-- ===== src/Queue/Conserve.antt =====
-- What the operations of the queue do to the number of copies of an entry, however their calls fail.
use urizo_final_orchestrator.Base.{
  ℕ, ◌+◌, Bool, true, false, Str, ◌≡◌, refl, ◌∙◌, ap, List, [], ◌∷◌, ◌++◌, if◌then◌else◌, eq,
  eq_iff, Result, ok, err, arith,
}
use urizo_final_orchestrator.Queue.Store.{
  Raw, Store, World, Fault, served, lost_request, lost_reply, QueueError, Exec, continue, ensure,
  call, ◌>>=◌, split_last, blmove, lrem, holds, lrem_processing, lindex, lmove_left, lmove_right,
  hincrby, hget, ack_script, quarantine_script, FailureRecord, blmove_from, requeue_from,
  recover_from, call_with,
}

pub copies : Raw → List Raw → ℕ
copies r [] = 0
copies r (x ∷ xs) = (if eq x r then 1 else 0) + copies r xs

pub copies-append : (r : Raw) (xs ys : List Raw) → copies r (xs ++ ys) ≡ copies r xs + copies r ys
unfolding copies
copies-append r [] ys = omega arith
copies-append r (x ∷ xs) ys = omega (arith, copies-append r xs ys)

-- The copies of an entry in the queue, in processing and among the dead letters.
pub total : Raw → Store → ℕ
total r s = copies r s.queue + copies r s.processing + copies r s.dead_letter

copies-split_last :
    (r x : Raw) (xs : List Raw)
    → let (rest, last) = split_last x xs in copies r rest + copies r (last ∷ []) ≡ copies r (x ∷ xs)
unfolding copies split_last
copies-split_last r x [] = omega arith
copies-split_last r x (y ∷ ys) = omega (arith, copies-split_last r y ys)

total-blmove_from :
    (r : Raw) (q : List Raw) (s : Store) → s.queue ≡ q → total r (blmove_from q s).1 ≡ total r s
unfolding total copies
total-blmove_from r [] s e = refl
total-blmove_from r (x ∷ xs) s e = omega (arith, copies-split_last r x xs, ap (copies r) e)

pub total-blmove : (r : Raw) (s : Store) → total r (blmove s).1 ≡ total r s
unfolding blmove
total-blmove r s = total-blmove_from r s.queue s refl

total-requeue_from :
    (r : Raw) (q : List Raw) (s : Store)
    → s.processing ≡ q
    → total r (requeue_from q s).1 ≡ total r s
unfolding total copies
total-requeue_from r [] s e = refl
total-requeue_from r (x ∷ xs) s e = omega (arith, ap (copies r) e)

pub total-lmove_left : (r : Raw) (s : Store) → total r (lmove_left s).1 ≡ total r s
unfolding lmove_left
total-lmove_left r s = total-requeue_from r s.processing s refl

total-recover_from :
    (r : Raw) (q : List Raw) (s : Store)
    → s.processing ≡ q
    → total r (recover_from q s).1 ≡ total r s
unfolding total copies
total-recover_from r [] s e = refl
total-recover_from r (x ∷ xs) s e = omega (arith, ap (copies r) e, copies-append r s.queue (x ∷ []))

pub total-lmove_right : (r : Raw) (s : Store) → total r (lmove_right s).1 ≡ total r s
unfolding lmove_right
total-lmove_right r s = total-recover_from r s.processing s refl

copies-lrem :
    (r x : Raw) (xs : List Raw)
    → holds x xs ≡ true
    → copies r (lrem x xs) + copies r (x ∷ []) ≡ copies r xs
unfolding copies lrem holds
copies-lrem r x [] h = cc
copies-lrem r x (y ∷ ys) h = ground (arith, copies-lrem r x ys, eq_iff y x, eq_iff y r, eq_iff x r)

copies-lrem_other :
    (r x : Raw) (xs : List Raw) → eq x r ≡ false → copies r (lrem x xs) ≡ copies r xs
unfolding copies lrem
copies-lrem_other r x [] h = refl
copies-lrem_other r x (y ∷ ys) h = ground (arith, copies-lrem_other r x ys, eq_iff y x, eq_iff y r)

pub total-quarantine_script :
    (r : Raw) (x : Raw) (f : FailureRecord) (j : Str) (s : Store)
    → total r (quarantine_script x f j s).1 ≡ total r s
unfolding total quarantine_script copies
total-quarantine_script r x f j s =
    ground (arith, copies-lrem r x s.processing, copies-append r s.dead_letter (x ∷ []))

pub total-ack_script_other :
    (r x : Raw) (j : Str) (s : Store) → eq x r ≡ false → total r (ack_script x j s).1 ≡ total r s
unfolding total ack_script
total-ack_script_other r x j s h = ground (arith, copies-lrem_other r x s.processing)

pub total-lrem_processing :
    (r x : Raw) (s : Store) → eq x r ≡ false → total r (lrem_processing x s).1 ≡ total r s
unfolding total lrem_processing
total-lrem_processing r x s h = ground (arith, copies-lrem_other r x s.processing)

pub total-hincrby : (r : Raw) (j : Str) (s : Store) → total r (hincrby j s).1 ≡ total r s
unfolding total hincrby
total-hincrby r j s = refl

pub total-hget : (r : Raw) (j : Str) (s : Store) → total r (hget j s).1 ≡ total r s
unfolding hget
total-hget r j s = refl

pub total-lindex : (r : Raw) (s : Store) → total r (lindex s).1 ≡ total r s
unfolding lindex
total-lindex r s = refl

-- A method keeps the number of copies of an entry, whether it returns or raises.
abbrev pub Keeps : Raw → {A : Type 0} → Exec A → Type 0
Keeps r m = (w : World) → total r (m w).1.store ≡ total r w.store

module _ (r : Raw) {A B : Type 0} where
  pub Keeps-bind :
      (m : Exec A) (f : A → Exec B) → Keeps r m → ((a : A) → Keeps r (f a)) → Keeps r (m >>= f)
  Keeps-bind m f km kf w = let (x, w') = m w in go x w' ∙ km w
    where
      go :
          (x : Result QueueError A) (v : World) → total r (continue x f v).1.store ≡ total r v.store
      go (ok a) v = kf a v
      go (err e) v = refl

module _ (r : Raw) {A : Type 0} (c : Store → A × Store) (e : QueueError)
    (kept : (s : Store) → total r (c s).1 ≡ total r s) where
  Keeps-call_with :
      (fs : List Fault) (w : World) → total r (call_with fs c e w).1.store ≡ total r w.store
  Keeps-call_with [] w = kept w.store
  Keeps-call_with (served ∷ fs) w = kept w.store
  Keeps-call_with (lost_request ∷ fs) w = refl
  Keeps-call_with (lost_reply ∷ fs) w = kept w.store

  pub Keeps-call : Keeps r (call c e)
  unfolding call
  Keeps-call w = Keeps-call_with w.faults w

pub Keeps-ensure : (r : Raw) (b : Bool) (e : QueueError) → Keeps r (ensure b e)
Keeps-ensure r true e w = refl
Keeps-ensure r false e w = refl
