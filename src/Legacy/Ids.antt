-- ===== src/Legacy/Ids.antt =====
-- The ids that graph.py keeps: at most a hundred, the event's own among them.
use urizo_final_orchestrator.Base.{
  ℕ, ◌+◌, ◌-◌, ◌≤◌, true, ◌==◌, Str, eq_iff, ◌≡◌, refl, inl, inr, arith, Bool-cases,
}
use urizo_final_orchestrator.Json.{Value, text, Items, nil, cons}
use urizo_final_orchestrator.Contracts.Checks.{is_text}
use urizo_final_orchestrator.Contracts.Claim.{is_some_text}
use urizo_final_orchestrator.Legacy.Delivery.{contains, count_of, without, with_last, recent_ids}

count_of-without : (n : ℕ) (vs : Items) → count_of (without n vs) ≡ count_of vs - n
unfolding count_of without
count_of-without n nil = omega arith
count_of-without n (cons v vs) = elim (Bool-cases (n == 0)) [
  | inl zero ↦ rw zero (ground (arith, zero))
  | inr more ↦ rw more (ground (arith, more, count_of-without (n - 1) vs))
]

count_of-with_last : (vs : Items) (w : Value) → count_of (with_last vs w) ≡ count_of vs + 1
unfolding count_of with_last
count_of-with_last nil w = refl
count_of-with_last (cons v vs) w = omega (arith, count_of-with_last vs w)

contains-with_last : (t : Str) (vs : Items) → contains t (with_last vs (text t)) ≡ true
unfolding contains with_last is_some_text is_text
contains-with_last t nil = ground (arith, (eq_iff t t).1 refl)
contains-with_last t (cons v vs) = ground (arith, contains-with_last t vs)

contains-without :
    (n : ℕ) (t : Str) (vs : Items)
    → n ≤ count_of vs
    → contains t (without n (with_last vs (text t))) ≡ true
unfolding contains without with_last count_of is_some_text is_text
contains-without n t nil h = ground (arith, (eq_iff t t).1 refl)
contains-without n t (cons v vs) h = elim (Bool-cases (n == 0)) [
  | inl zero ↦ rw zero (ground (arith, contains-with_last t vs))
  | inr more ↦ rw more (contains-without (n - 1) t vs (ground (arith, more)))
]

pub contains-recent_ids : (vs : Items) (t : Str) → contains t (recent_ids vs t) ≡ true
unfolding recent_ids
contains-recent_ids vs t =
    let size = count_of-with_last vs (text t) in
    contains-without (count_of (with_last vs (text t)) - 100) t vs (omega (arith, size))

pub count_of-recent_ids : (vs : Items) (t : Str) → count_of (recent_ids vs t) ≤ 100
unfolding recent_ids
count_of-recent_ids vs t =
    let all = with_last vs (text t) in omega (arith, count_of-without (count_of all - 100) all)
