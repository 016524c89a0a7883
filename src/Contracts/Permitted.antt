-- ===== src/Contracts/Permitted.antt =====
-- What the snapshot of a claim permits: its capabilities, its nodes and its deadline.
use urizo_final_orchestrator.Base.{
  ℕ, ◌≤◌, true, ◌&&◌, Str, codes, eq, eq_iff, mem, subset, mem-subset, nodup, ◌≡◌, refl, sym, ap,
  ◌∙◌, ◌⊎◌, inl, inr, Option, some, List, [], ◌∷◌, ok, ◌>>=◌, leb, length, guard, >>=-eq-ok,
  guard-eq-ok, &&_true, ok_inj, arith, Bool-cases, Option-cases,
}
use urizo_final_orchestrator.Json.{Value, text, list, Items, nil, cons, Fields, lookup}
use urizo_final_orchestrator.Contracts.Checks.{
  invalid, item_count, duplicates, entry, bounded_string, bounded_strings, count_items, string_list,
  matched_entry, is_prompt_version, timestamp, instant_in,
}
use urizo_final_orchestrator.Contracts.Claim.{capabilities, all_steps, check_permissions}
use urizo_final_orchestrator.Contracts.Scoped.{present-some, bounded_string-text}

-- A list of texts, as a JSON value holds it.
unfoldable pub texts : List Str → Items
texts [] = nil
texts (t ∷ ts) = cons (text t) (texts ts)

pub record IsPermitted (instant_of : Str → Option ℕ) (snapshot : Fields) : Type 0 where
  pub allowed : List Str
  pub listed : lookup (codes "allowedCapabilities") snapshot ≡ some (list (texts allowed))
  pub chats : mem (codes "CHAT") allowed ≡ true
  pub known :
      (t : Str)
      → mem t allowed ≡ true
      → (t ≡ codes "CHAT") ⊎ ((t ≡ codes "STRUCTURED_OUTPUT") ⊎ (t ≡ codes "TOOL_CALLING"))
  pub nodes : List Str
  pub nodes_listed : lookup (codes "allowedNodes") snapshot ≡ some (list (texts nodes))
  pub some_nodes : 1 ≤ length nodes
  pub few_nodes : length nodes ≤ 50
  pub distinct_nodes : nodup nodes ≡ true
  pub deadline : Str
  pub deadline_stored : lookup (codes "deadlineAt") snapshot ≡ some (text deadline)
  pub instant : ℕ
  pub dated : instant_of deadline ≡ some instant

bounded_strings-texts :
    (maximum : ℕ) (vs : Items) (ts : List Str) → bounded_strings maximum vs ≡ ok ts → vs ≡ texts ts
unfolding bounded_strings texts
bounded_strings-texts maximum nil ts h = ap (λ us. texts us) (ok_inj h)
bounded_strings-texts maximum (cons v vs) ts h =
    let (t, e, h1) = >>=-eq-ok (bounded_string 1 maximum v) _ h in
    let (us, k, last) = >>=-eq-ok (bounded_strings maximum vs) _ h1 in
    rw (bounded_string-text 1 maximum v t e, bounded_strings-texts maximum vs us k)
      (ap (λ xs. texts xs) (ok_inj last))

count_items-texts : (ts : List Str) → count_items (texts ts) ≡ length ts
unfolding count_items texts
count_items-texts [] = refl
count_items-texts (t ∷ ts) = ground (arith, count_items-texts ts)

-- What `_string_list` reads is a list of texts without repeats, of a number within its bounds.
string_list-texts :
    (minimum maximum item_maximum : ℕ) (v : Value) (ts : List Str)
    → string_list minimum maximum item_maximum v ≡ ok ts
    → (v ≡ list (texts ts)) × (minimum ≤ length ts) × (length ts ≤ maximum) × (nodup ts ≡ true)
unfolding string_list
string_list-texts minimum maximum item_maximum (list vs) ts h =
    let within = leb minimum (count_items vs) && leb (count_items vs) maximum in
    let (_, counted, h1) = >>=-eq-ok (guard within item_count) _ h in
    let (us, e, h2) = >>=-eq-ok (bounded_strings item_maximum vs) _ h1 in
    let (_, distinct, last) = >>=-eq-ok (guard (nodup us) duplicates) _ h2 in
    let same : us ≡ ts = ok_inj last in
    let is_texts : vs ≡ texts ts =
      bounded_strings-texts item_maximum vs us e ∙ ap (λ xs. texts xs) same in
    let count : count_items vs ≡ length ts =
      ap (λ xs. count_items xs) is_texts ∙ count_items-texts ts in
    let (low, high) =
      &&_true (leb minimum (count_items vs)) (leb (count_items vs) maximum)
        (guard-eq-ok within item_count counted) in
    (
      ap (λ xs. list xs) is_texts,
      ground (arith, low, count),
      ground (arith, high, count),
      ap (λ xs. nodup xs) (sym same) ∙ guard-eq-ok (nodup us) duplicates distinct,
    )
string_list-texts minimum maximum item_maximum v ts h = absurd (cc)

string_list_found :
    (minimum maximum item_maximum : ℕ) (name : Str) (fs : Fields) (ts : List Str)
    → (entry name fs >>= string_list minimum maximum item_maximum) ≡ ok ts
    → (lookup name fs ≡ some (list (texts ts)))
      × (minimum ≤ length ts)
      × (length ts ≤ maximum)
      × (nodup ts ≡ true)
string_list_found minimum maximum item_maximum name fs ts h =
    let (v, found, read) = >>=-eq-ok (entry name fs) _ h in
    let (is_list, low, high, distinct) = string_list-texts minimum maximum item_maximum v ts read in
    (present-some (lookup name fs) v found ∙ ap (λ y. some y) is_list, low, high, distinct)

known_capability :
    (t : Str)
    → mem t capabilities ≡ true
    → (t ≡ codes "CHAT") ⊎ ((t ≡ codes "STRUCTURED_OUTPUT") ⊎ (t ≡ codes "TOOL_CALLING"))
unfolding mem
known_capability t m = elim (Bool-cases (eq t (codes "CHAT"))) [
  | inl this ↦ inl ((eq_iff t (codes "CHAT")).0 this)
  | inr other ↦ elim (Bool-cases (eq t (codes "STRUCTURED_OUTPUT"))) [
    | inl this ↦ inr (inl ((eq_iff t (codes "STRUCTURED_OUTPUT")).0 this))
    | inr next ↦ inr (inr ((eq_iff t (codes "TOOL_CALLING")).0 (ground (arith, other, next, m))))
  ]
]

module _ (instant_of : Str → Option ℕ) where
  timestamp_text :
      (v : Value) (n : ℕ)
      → timestamp instant_of v ≡ ok n
      → (t : Str) × (v ≡ text t) × (instant_of t ≡ some n)
  unfolding timestamp instant_in
  timestamp_text (text t) n h = elim (Option-cases (instant_of t)) [
    | inl unread ↦ absurd (ground (arith, unread, h))
    | inr (m, read) ↦ (t, refl, read ∙ ap (λ y. some y) (ok_inj (rw read at h)))
  ]
  timestamp_text v n h = absurd (cc)

  pub check_permissions-IsPermitted :
      (snapshot : Fields) {u : Unit {0}}
      → check_permissions instant_of snapshot ≡ ok u
      → IsPermitted instant_of snapshot
  unfolding check_permissions
  check_permissions-IsPermitted snapshot h =
      let (_, _, h1) =
        >>=-eq-ok (matched_entry is_prompt_version 120 (codes "promptVersion") snapshot) _ h in
      let (allowed, read, h2) =
        >>=-eq-ok (entry (codes "allowedCapabilities") snapshot >>= string_list 1 3 120) _ h1 in
      let fits = subset allowed capabilities && mem (codes "CHAT") allowed in
      let (_, fitting, h3) = >>=-eq-ok (guard fits invalid) _ h2 in
      let (nodes, nodes_read, h4) =
        >>=-eq-ok (entry (codes "allowedNodes") snapshot >>= string_list 1 50 120) _ h3 in
      let (_, _, h5) = >>=-eq-ok (guard (all_steps nodes) invalid) _ h4 in
      let (n, dated, _) =
        >>=-eq-ok (entry (codes "deadlineAt") snapshot >>= timestamp instant_of) _ h5 in
      let (v, found, is_time) = >>=-eq-ok (entry (codes "deadlineAt") snapshot) _ dated in
      let (t, is_text, instant) = timestamp_text v n is_time in
      let (within, chats) = &&_true _ _ (guard-eq-ok fits invalid fitting) in
      let (listed, _, _, _) =
        string_list_found 1 3 120 (codes "allowedCapabilities") snapshot allowed read in
      let (nodes_listed, low, high, distinct) =
        string_list_found 1 50 120 (codes "allowedNodes") snapshot nodes nodes_read in
      record {
        allowed = allowed;
        listed = listed;
        chats = chats;
        known = λ t m. known_capability t (mem-subset allowed capabilities t within m);
        nodes = nodes;
        nodes_listed = nodes_listed;
        some_nodes = low;
        few_nodes = high;
        distinct_nodes = distinct;
        deadline = t;
        deadline_stored =
            present-some (lookup (codes "deadlineAt") snapshot) v found ∙ ap (λ y. some y) is_text;
        instant = n;
        dated = instant;
      }
