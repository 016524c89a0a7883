-- ===== src/Worker/Backoff.antt =====
-- The retries of `_resolve_with_backoff` and `_claim_with_backoff`.
use urizo_final_orchestrator.Base.{
  ℕ, zero, suc, ◌+◌, ◌-◌, ◌^◌, ◌≤◌, Bool, false, ◌≡◌, refl, List, [], ◌∷◌, if◌then◌else◌, Result,
  arith,
}
use urizo_final_orchestrator.Worker.Failure.{Failure}
use urizo_final_orchestrator.Worker.Process.{
  Call, sleep, Collaborators, Settings, State, note, with_backoff, min_of,
}

-- How many calls of a kind there are.
abbrev pub count : (Call → Bool) → List Call → ℕ
count p [] = 0
count p (c ∷ cs) = (if p c then 1 else 0) + count p cs

-- Every pause keeps within the limit.
abbrev pub PausesWithin : ℕ → List Call → Type 0
PausesWithin m [] = Unit
PausesWithin m (sleep n ∷ cs) = (n ≤ m) × PausesWithin m cs
PausesWithin m (_ ∷ cs) = PausesWithin m cs

module _ {W A : Type 0} (api : Collaborators W) (settings : Settings) (c : Call)
    (m : W → Result Failure A × W) (p : Call → Bool) (silent : (n : ℕ) → p (sleep n) ≡ false) where
  -- The calls of the loop are at most as many as the attempts left.
  pub count-with_backoff :
      (left attempt : ℕ) (s : State W)
      → count p (with_backoff api settings c m left attempt s).1.calls ≤ left + count p s.calls
  unfolding with_backoff
  count-with_backoff zero attempt s = omega arith
  count-with_backoff (suc left) attempt s = ground (
    arith,
    silent (min_of (2 ^ (attempt - 1)) settings.max_backoff_seconds),
    count-with_backoff left (attempt + 1) (
        note (sleep (min_of (2 ^ (attempt - 1)) settings.max_backoff_seconds)) (record {
          world = (m s.world).1;
          last_error_code = s.last_error_code;
          calls = c ∷ s.calls;
        })),
  )

  -- A loop over another call leaves the count.
  pub count_other :
      p c ≡ false
      → (left attempt : ℕ) (s : State W)
      → count p (with_backoff api settings c m left attempt s).1.calls ≡ count p s.calls
  unfolding with_backoff
  count_other away zero attempt s = refl
  count_other away (suc left) attempt s = ground (
    arith,
    away,
    silent (min_of (2 ^ (attempt - 1)) settings.max_backoff_seconds),
    count_other away left (attempt + 1) (
        note (sleep (min_of (2 ^ (attempt - 1)) settings.max_backoff_seconds)) (record {
          world = (m s.world).1;
          last_error_code = s.last_error_code;
          calls = c ∷ s.calls;
        })),
  )
