-- ===== src/Worker/Failure.antt =====
-- service.py: the exceptions that a job may end in, and how `_classify_failure` and
-- `_is_terminal_resolve_rejection` read them.
use urizo_final_orchestrator.Base.{
  ℕ, Bool, true, false, not, ◌&&◌, ◌||◌, Str, codes, ◌==◌, leb, Option, none, some, eq,
}

pub data Failure : Type 0 where
  graph_execution : Str → Bool → Failure
  model_gateway : Str → Bool → Failure
  tool_gateway : Str → Bool → Failure
  worker_api : Str → Bool → Option ℕ → Failure
  lease_lost : Str → Failure
  natural_cms_domain : Str → Bool → Option ℕ → Failure
  profile_version : Str → Bool → Option ℕ → Failure
  other : Failure

abbrev pub internal_transient_error : Str
internal_transient_error = codes "INTERNAL_TRANSIENT_ERROR"

-- `_classify_failure`: whether to retry, and the code.
unfoldable pub classify_failure : Failure → Bool × Str
classify_failure (graph_execution code retryable) = (retryable, code)
classify_failure (model_gateway code retryable) = (retryable, code)
classify_failure (tool_gateway code retryable) = (retryable, code)
classify_failure (worker_api code retryable status) = (retryable, code)
classify_failure (lease_lost code) = (false, code)
classify_failure (natural_cms_domain code retryable status) = (retryable, code)
classify_failure (profile_version code retryable status) = (retryable, code)
classify_failure other = (true, internal_transient_error)

unfoldable pub has_status : ℕ → Option ℕ → Bool
has_status n none = false
has_status n (some m) = m == n

-- `_is_terminal_resolve_rejection`
unfoldable pub is_terminal_resolve_rejection : Failure → Bool
is_terminal_resolve_rejection (worker_api code retryable status) =
    not retryable
    && ((has_status 404 status && eq code (codes "JOB_NOT_FOUND"))
        || (has_status 409 status && eq code (codes "JOB_STATE_VERSION_CONFLICT")))
is_terminal_resolve_rejection _ = false

-- `400 <= status <= 499`
unfoldable pub is_client_error : Option ℕ → Bool
is_client_error none = false
is_client_error (some n) = leb 400 n && leb n 499

-- `_is_terminal_natural_cms_failure`
unfoldable pub is_terminal_natural_cms_failure : Failure → Bool → Bool
is_terminal_natural_cms_failure f true = false
is_terminal_natural_cms_failure (natural_cms_domain code r status) false =
    is_client_error status || eq code (codes "WORKER_RESPONSE_INVALID")
is_terminal_natural_cms_failure (profile_version code r status) false =
    is_client_error status || eq code (codes "PROFILE_VERSION_RESPONSE_INVALID")
is_terminal_natural_cms_failure (graph_execution code r) false = true
is_terminal_natural_cms_failure _ false = false
