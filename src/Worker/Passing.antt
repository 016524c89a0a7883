-- ===== src/Worker/Passing.antt =====
-- worker_api.py checks a failure before `outcome` sends it: what service.py reports of its failed requests.
use urizo_final_orchestrator.Base.{
  Bool, true, false, Str, Option, none, some, List, [], ◌∷◌, eq, eq_iff, mem, ok, err, ◌≡◌, refl,
  sym, ◌↔◌, ◌∙◌, inl, inr, arith, Bool-cases, subst,
}
use urizo_final_orchestrator.Json.{Fields}
use urizo_final_orchestrator.Contracts.{WorkerClaim}
use urizo_final_orchestrator.Worker.Failure.{Failure, classify_failure}
use urizo_final_orchestrator.Worker.Process.{retryable_failure, failure_outcome}
use urizo_final_orchestrator.Worker.Sending.{
  is_failure, is_waiting, is_given, same_bool, code_allowed, approval_allowed, check_arguments,
}
use urizo_final_orchestrator.Worker.Remote.{
  Transport, call, response_invalid, retryable_error_codes, non_retryable_error_codes,
}
use urizo_final_orchestrator.Worker.Reported.{reported_codes, call-IsReported}

-- No text of the first list is in the second.
unfoldable AreApart : List Str → List Str → Type 0
AreApart [] ys = Unit
AreApart (x ∷ xs) ys = (mem x ys ≡ false) × AreApart xs ys

mem-apart : (a : Str) (xs ys : List Str) → AreApart xs ys → mem a xs ≡ true → mem a ys ≡ false
unfolding AreApart mem
mem-apart a [] ys apart m = absurd (cc)
mem-apart a (x ∷ xs) ys (out, apart) m = elim (Bool-cases (eq a x)) [
  | inl this ↦ subst (λ k. mem k ys ≡ false) (sym ((eq_iff a x).0 this)) out
  | inr other ↦ mem-apart a xs ys apart (rw other at m)
]

codes-AreApart : AreApart (response_invalid ∷ non_retryable_error_codes) retryable_error_codes
unfolding AreApart mem eq
codes-AreApart = (
  refl,
  (
    refl,
    (
      refl,
      (
        refl,
        (
          refl,
          (
            refl,
            (
              refl,
              (
                refl,
                (
                  refl,
                  (
                    refl,
                    (
                      refl,
                      (
                        refl,
                        (
                          refl,
                          (
                            refl,
                            (
                              refl,
                              (
                                refl,
                                (
                                  refl,
                                  (
                                    refl,
                                    (refl, (refl, (refl, (refl, (refl, (refl, (refl, tt))))))),
                                  ),
                                ),
                              ),
                            ),
                          ),
                        ),
                      ),
                    ),
                  ),
                ),
              ),
            ),
          ),
        ),
      ),
    ),
  ),
)

retryable_listed :
    (retryable : Bool) (code : Str)
    → mem code (reported_codes retryable) ≡ true
    → (failure_outcome retryable ≡ retryable_failure) ↔ (mem code retryable_error_codes ≡ true)
unfolding failure_outcome reported_codes
retryable_listed true code m = (λ _. m, λ _. refl)
retryable_listed false code m =
    let out =
      mem-apart code (response_invalid ∷ non_retryable_error_codes) retryable_error_codes
        codes-AreApart m in
    (λ same. absurd (cc), λ inside. absurd (cc (sym out ∙ inside)))

-- However a request to the API fails, what `_report_failure` sends of it for any claim passes the checks of
-- `outcome`, and it is a retryable failure exactly when its code is one of the contract's retryable codes.
pub call-check_arguments :
    (reads_uuid : Str → Bool) (context : Option Fields) (transport : Transport) (f : Failure)
    (c : WorkerClaim)
    → call reads_uuid context transport ≡ err f
    → (check_arguments c (failure_outcome (classify_failure f).0) (some (classify_failure f).1) none
        ≡ ok tt)
      × ((failure_outcome (classify_failure f).0 ≡ retryable_failure)
          ↔ (mem (classify_failure f).1 retryable_error_codes ≡ true))
unfolding check_arguments is_failure is_waiting is_given same_bool code_allowed approval_allowed
    failure_outcome
call-check_arguments reads_uuid context transport f c h =
    let r = call-IsReported reads_uuid context transport f h in
    (
      elim (Bool-cases (classify_failure f).0) [
        | inl again ↦ ground (arith, again, r.safe)
        | inr final ↦ ground (arith, final, r.safe)
      ],
      retryable_listed (classify_failure f).0 (classify_failure f).1 r.listed,
    )
