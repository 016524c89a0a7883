-- ===== src/Scenarios/Reports.antt =====
-- A readiness check, with a use of the theorem on it.
use urizo_final_orchestrator.Base.{true, false, ◌≡◌, ◌↔◌, none, some}
use urizo_final_orchestrator.Worker.Health.{
  Status, Probes, answers, response, Ready, response-Ready_iff,
}

abbrev status : Status
status = record {
  live = true;
  checkpoint = false;
  queue = true;
  spring = true;
  worker = true;
  error_code = none;
}

abbrev probes : Probes
probes = record {
  checkpoint_probe = some (answers true);
  queue_probe = some (answers true);
  spring_probe = some (answers false);
  worker_probe = none;
}

response-Ready_iff_example : ((response true probes status).0.code ≡ 200) ↔ Ready probes status
response-Ready_iff_example = response-Ready_iff probes status
