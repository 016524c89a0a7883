-- ===== src/Defaults/Coding.antt =====
-- default_coding_snapshot.py: the proposal of the coding profile.
use urizo_final_orchestrator.Base.{true, codes, [], ◌∷◌}
use urizo_final_orchestrator.Json.{Value, bool, int, text, list, dict, nil, end}
use urizo_final_orchestrator.Defaults.{array, members, node, edge, limit}

abbrev pub default_coding_snapshot_nodes : Value
default_coding_snapshot_nodes = list (
    array (
      node (codes "start") (codes "start") (codes "common.start") (codes "next" ∷ []) end
      ∷ node (codes "guardrail") (codes "guardrail") (codes "common.guardrail")
          (codes "passed" ∷ codes "failed" ∷ []) (members ((codes "locked", bool true) ∷ []))
      ∷ node (codes "analyze") (codes "agent") (codes "coding.analyze")
          (codes "feasible" ∷ codes "infeasible" ∷ []) end
      ∷ node (codes "scope_approval") (codes "approval") (codes "coding.approval")
          (codes "approved" ∷ [])
          (members (
            (codes "stage", text (codes "SCOPE"))
            ∷ (codes "requiredRole", text (codes "GENERAL_ADMIN"))
            ∷ []))
      ∷ node (codes "code") (codes "agent") (codes "coding.code") (codes "completed" ∷ []) end
      ∷ node (codes "review") (codes "agent") (codes "coding.review")
          (codes "passed" ∷ codes "changes_requested" ∷ []) end
      ∷ node (codes "rework_gate") (codes "check") (codes "coding.rework_gate")
          (codes "retry" ∷ codes "handover" ∷ []) (members ((codes "maxReworkRounds", int 3) ∷ []))
      ∷ node (codes "preview") (codes "tool") (codes "coding.preview") (codes "ready" ∷ []) end
      ∷ node (codes "preview_approval") (codes "approval") (codes "coding.preview_approval")
          (codes "approved" ∷ codes "rejected" ∷ [])
          (members (
            (codes "stage", text (codes "CANDIDATE"))
            ∷ (codes "requiredRole", text (codes "GENERAL_ADMIN"))
            ∷ []))
      ∷ node (codes "pr_request") (codes "tool") (codes "coding.pr_request")
          (codes "requested" ∷ []) end
      ∷ node (codes "github_approval") (codes "approval") (codes "coding.approval")
          (codes "approved" ∷ [])
          (members (
            (codes "stage", text (codes "GITHUB"))
            ∷ (codes "requiredRole", text (codes "SUPER_ADMIN"))
            ∷ []))
      ∷ node (codes "pr_complete") (codes "tool") (codes "coding.pr_complete")
          (codes "completed" ∷ []) end
      ∷ node (codes "deploy_request") (codes "tool") (codes "coding.deploy_request")
          (codes "recorded" ∷ [])
          (members ((codes "mode", text (codes "request_record_only")) ∷ []))
      ∷ node (codes "deploy_approval") (codes "approval") (codes "coding.approval")
          (codes "approved" ∷ [])
          (members (
            (codes "stage", text (codes "DEPLOY"))
            ∷ (codes "requiredRole", text (codes "SUPER_ADMIN"))
            ∷ []))
      ∷ node (codes "dev_merge_check") (codes "check") (codes "coding.dev_merge_check")
          (codes "merged" ∷ codes "not_merged" ∷ codes "blocked" ∷ []) end
      ∷ node (codes "deploy") (codes "tool") (codes "coding.deploy")
          (codes "completed" ∷ codes "blocked" ∷ []) end
      ∷ node (codes "end") (codes "end") (codes "common.end") ([]) end
      ∷ []))

abbrev pub default_coding_snapshot_edges : Value
default_coding_snapshot_edges = list (
    array (
      edge (codes "start") (codes "next") (codes "guardrail")
      ∷ edge (codes "guardrail") (codes "passed") (codes "analyze")
      ∷ edge (codes "guardrail") (codes "failed") (codes "end")
      ∷ edge (codes "analyze") (codes "feasible") (codes "scope_approval")
      ∷ edge (codes "analyze") (codes "infeasible") (codes "end")
      ∷ edge (codes "scope_approval") (codes "approved") (codes "code")
      ∷ edge (codes "code") (codes "completed") (codes "review")
      ∷ edge (codes "review") (codes "passed") (codes "preview")
      ∷ edge (codes "review") (codes "changes_requested") (codes "rework_gate")
      ∷ edge (codes "rework_gate") (codes "retry") (codes "code")
      ∷ edge (codes "rework_gate") (codes "handover") (codes "end")
      ∷ edge (codes "preview") (codes "ready") (codes "preview_approval")
      ∷ edge (codes "preview_approval") (codes "approved") (codes "pr_request")
      ∷ edge (codes "preview_approval") (codes "rejected") (codes "analyze")
      ∷ edge (codes "pr_request") (codes "requested") (codes "github_approval")
      ∷ edge (codes "github_approval") (codes "approved") (codes "pr_complete")
      ∷ edge (codes "pr_complete") (codes "completed") (codes "deploy_request")
      ∷ edge (codes "deploy_request") (codes "recorded") (codes "deploy_approval")
      ∷ edge (codes "deploy_approval") (codes "approved") (codes "dev_merge_check")
      ∷ edge (codes "dev_merge_check") (codes "not_merged") (codes "deploy_request")
      ∷ edge (codes "dev_merge_check") (codes "merged") (codes "deploy")
      ∷ edge (codes "dev_merge_check") (codes "blocked") (codes "end")
      ∷ edge (codes "deploy") (codes "completed") (codes "end")
      ∷ edge (codes "deploy") (codes "blocked") (codes "end")
      ∷ []))

abbrev pub default_coding_snapshot_config : Value
default_coding_snapshot_config = dict (
    members (
      (codes "maxNodes", int 17)
      ∷ (codes "maxAttempts", int 3)
      ∷ (
        codes "loopLimits",
        list (
            array (
              limit (codes "rework_gate") (codes "retry") (codes "code") 2
              ∷ limit (codes "preview_approval") (codes "rejected") (codes "analyze") 2
              ∷ limit (codes "dev_merge_check") (codes "not_merged") (codes "deploy_request") 2
              ∷ [])),
      )
      ∷ []))

abbrev pub default_coding_snapshot_tool_bindings : Value
default_coding_snapshot_tool_bindings = dict (
    members (
      (
        codes "code",
        dict (
            members (
              (codes "read_file", text (codes "MODEL_OPTIONAL"))
              ∷ (codes "search_code", text (codes "MODEL_OPTIONAL"))
              ∷ (codes "read_diff", text (codes "MODEL_OPTIONAL"))
              ∷ (codes "apply_patch", text (codes "MODEL_OPTIONAL"))
              ∷ (codes "run_check", text (codes "MODEL_OPTIONAL"))
              ∷ (codes "check_package_allowlist", text (codes "MODEL_OPTIONAL"))
              ∷ (codes "scan_changed_files", text (codes "MODEL_OPTIONAL"))
              ∷ [])),
      )
      ∷ (
        codes "review",
        dict (
            members (
              (codes "read_file", text (codes "MODEL_OPTIONAL"))
              ∷ (codes "search_code", text (codes "MODEL_OPTIONAL"))
              ∷ (codes "read_diff", text (codes "MODEL_OPTIONAL"))
              ∷ (codes "run_check", text (codes "MODEL_OPTIONAL"))
              ∷ (codes "check_package_allowlist", text (codes "MODEL_OPTIONAL"))
              ∷ (codes "scan_changed_files", text (codes "MODEL_OPTIONAL"))
              ∷ [])),
      )
      ∷ (
        codes "preview",
        dict (
            members (
              (codes "read_diff", text (codes "SYSTEM_REQUIRED"))
              ∷ (codes "run_check", text (codes "SYSTEM_REQUIRED"))
              ∷ (codes "check_package_allowlist", text (codes "SYSTEM_REQUIRED"))
              ∷ (codes "scan_changed_files", text (codes "SYSTEM_REQUIRED"))
              ∷ [])),
      )
      ∷ []))

abbrev pub default_coding_snapshot : Value
default_coding_snapshot = dict (
    members (
      (codes "contractVersion", text (codes "1.0"))
      ∷ (codes "profileVersionId", text (codes "dc495130-0146-5f01-8e97-3c3272ad62b0"))
      ∷ (codes "profileKey", text (codes "LLM_OPS"))
      ∷ (codes "profileVersion", int 4)
      ∷ (codes "nodes", default_coding_snapshot_nodes)
      ∷ (codes "edges", default_coding_snapshot_edges)
      ∷ (codes "config", default_coding_snapshot_config)
      ∷ (
        codes "modelBindings",
        dict (
            members (
              (
                codes "analyze",
                dict (
                    members (
                      (codes "primary", text (codes "llm-ops-analyze"))
                      ∷ (codes "fallback", list nil)
                      ∷ [])),
              )
              ∷ (
                codes "code",
                dict (
                    members (
                      (codes "primary", text (codes "llm-ops-code"))
                      ∷ (codes "fallback", list nil)
                      ∷ [])),
              )
              ∷ (
                codes "review",
                dict (
                    members (
                      (codes "primary", text (codes "llm-ops-review"))
                      ∷ (codes "fallback", list nil)
                      ∷ [])),
              )
              ∷ [])),
      )
      ∷ (codes "toolBindings", default_coding_snapshot_tool_bindings)
      ∷ (
        codes "toolPolicy",
        dict (
            members (
              (
                codes "allowedTools",
                list (
                    array (
                      text (codes "read_file")
                      ∷ text (codes "search_code")
                      ∷ text (codes "read_diff")
                      ∷ text (codes "apply_patch")
                      ∷ text (codes "run_check")
                      ∷ text (codes "check_package_allowlist")
                      ∷ text (codes "scan_changed_files")
                      ∷ [])),
              )
              ∷ [])),
      )
      ∷ (codes "guardrailProfileKey", text (codes "central.default"))
      ∷ []))
