-- ===== src/Defaults/NaturalCms.antt =====
-- default_natural_cms_snapshot.py: the proposal of the CMS profile.
use urizo_final_orchestrator.Base.{true, codes, [], ◌∷◌}
use urizo_final_orchestrator.Json.{Value, bool, int, text, list, dict, nil, end}
use urizo_final_orchestrator.Defaults.{array, members, node, edge, limit}

abbrev pub default_natural_cms_snapshot_nodes : Value
default_natural_cms_snapshot_nodes = list (
    array (
      node (codes "start") (codes "start") (codes "common.start") (codes "next" ∷ []) end
      ∷ node (codes "guardrail") (codes "guardrail") (codes "common.guardrail")
          (codes "passed" ∷ codes "failed" ∷ []) (members ((codes "locked", bool true) ∷ []))
      ∷ node (codes "analyze") (codes "agent") (codes "cms.analyze")
          (codes "feasible" ∷ codes "infeasible" ∷ []) end
      ∷ node (codes "preview") (codes "agent") (codes "cms.preview") (codes "ready" ∷ []) end
      ∷ node (codes "approval") (codes "approval") (codes "cms.approval")
          (codes "approved" ∷ codes "rejected" ∷ [])
          (members (
            (codes "stage", text (codes "PREVIEW"))
            ∷ (codes "requiredRole", text (codes "GENERAL_ADMIN"))
            ∷ []))
      ∷ node (codes "discard") (codes "tool") (codes "cms.discard")
          (codes "retry" ∷ codes "discarded" ∷ []) end
      ∷ node (codes "apply") (codes "tool") (codes "cms.apply") (codes "applied" ∷ []) end
      ∷ node (codes "end") (codes "end") (codes "common.end") ([]) end
      ∷ []))

abbrev pub default_natural_cms_snapshot_edges : Value
default_natural_cms_snapshot_edges = list (
    array (
      edge (codes "start") (codes "next") (codes "guardrail")
      ∷ edge (codes "guardrail") (codes "passed") (codes "analyze")
      ∷ edge (codes "guardrail") (codes "failed") (codes "end")
      ∷ edge (codes "analyze") (codes "feasible") (codes "preview")
      ∷ edge (codes "analyze") (codes "infeasible") (codes "end")
      ∷ edge (codes "preview") (codes "ready") (codes "approval")
      ∷ edge (codes "approval") (codes "approved") (codes "apply")
      ∷ edge (codes "approval") (codes "rejected") (codes "discard")
      ∷ edge (codes "discard") (codes "retry") (codes "analyze")
      ∷ edge (codes "discard") (codes "discarded") (codes "end")
      ∷ edge (codes "apply") (codes "applied") (codes "end")
      ∷ []))

abbrev pub default_natural_cms_snapshot_config : Value
default_natural_cms_snapshot_config = dict (
    members (
      (codes "maxNodes", int 8)
      ∷ (codes "maxAttempts", int 3)
      ∷ (
        codes "loopLimits",
        list (array (limit (codes "discard") (codes "retry") (codes "analyze") 2 ∷ [])),
      )
      ∷ []))

abbrev pub default_natural_cms_snapshot_tool_bindings : Value
default_natural_cms_snapshot_tool_bindings = dict (
    members (
      (
        codes "preview",
        dict (
            members (
              (codes "validate_cms_command", text (codes "MODEL_REQUIRED"))
              ∷ (codes "resolve_cms_target", text (codes "SYSTEM_REQUIRED"))
              ∷ (codes "create_cms_preview", text (codes "SYSTEM_REQUIRED"))
              ∷ [])),
      )
      ∷ (
        codes "discard",
        dict (members ((codes "discard_cms_preview", text (codes "SYSTEM_REQUIRED")) ∷ [])),
      )
      ∷ (
        codes "apply",
        dict (
            members (
              (codes "revalidate_cms_preview", text (codes "SYSTEM_REQUIRED"))
              ∷ (codes "apply_cms_preview", text (codes "SYSTEM_REQUIRED"))
              ∷ [])),
      )
      ∷ []))

abbrev pub default_natural_cms_snapshot : Value
default_natural_cms_snapshot = dict (
    members (
      (codes "contractVersion", text (codes "1.0"))
      ∷ (codes "profileVersionId", text (codes "a5050010-1001-5001-8001-000000000001"))
      ∷ (codes "profileKey", text (codes "NATURAL_CMS"))
      ∷ (codes "profileVersion", int 1)
      ∷ (codes "nodes", default_natural_cms_snapshot_nodes)
      ∷ (codes "edges", default_natural_cms_snapshot_edges)
      ∷ (codes "config", default_natural_cms_snapshot_config)
      ∷ (
        codes "modelBindings",
        dict (
            members (
              (
                codes "analyze",
                dict (
                    members (
                      (codes "primary", text (codes "natural-cms-analyze"))
                      ∷ (codes "fallback", list nil)
                      ∷ [])),
              )
              ∷ (
                codes "preview",
                dict (
                    members (
                      (codes "primary", text (codes "natural-cms-command"))
                      ∷ (codes "fallback", list nil)
                      ∷ [])),
              )
              ∷ [])),
      )
      ∷ (codes "toolBindings", default_natural_cms_snapshot_tool_bindings)
      ∷ (
        codes "toolPolicy",
        dict (
            members (
              (
                codes "allowedTools",
                list (
                    array (
                      text (codes "resolve_cms_target")
                      ∷ text (codes "validate_cms_command")
                      ∷ text (codes "create_cms_preview")
                      ∷ text (codes "discard_cms_preview")
                      ∷ text (codes "revalidate_cms_preview")
                      ∷ text (codes "apply_cms_preview")
                      ∷ [])),
              )
              ∷ [])),
      )
      ∷ (codes "guardrailProfileKey", text (codes "central.default"))
      ∷ []))
