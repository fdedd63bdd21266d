-- ===== src/Probe/Tests.antt =====
-- Runs of the probe worker.
use enchanted_proxy.Probe.Health.{run_probes-IsWorker, IsWorker}
use enchanted_proxy.Probe.Worker.{
  failing_probe, healthy_probe, initial_probe, probe, start_worker, ProbeWorker, ProbeConfig,
  run_probes,
}
use enchanted_proxy.Prelude.{true, false, [], ◌∷◌, ◌≡◌, refl}

abbrev config : ProbeConfig
config = record {
  interval = 900;
  retry_interval = 60;
  success_threshold = 2;
  failure_threshold = 3;
}

abbrev outage : ProbeWorker
outage = record {
  initial = false;
  healthy = false;
  consecutive_count = 0;
  last_success = true;
  ticker = 60;
  gauge = false;
  slack = false ∷ [];
}

run_probes-outage :
    run_probes config
      (start_worker config)
      (true ∷ true ∷ false ∷ true ∷ false ∷ false ∷ false ∷ [])
    ≡ outage
unfolding run_probes start_worker probe initial_probe healthy_probe failing_probe
run_probes-outage = refl

abbrev well : ProbeWorker
well = record {
  initial = false;
  healthy = true;
  consecutive_count = 1;
  last_success = true;
  ticker = 60;
  gauge = true;
  slack = [];
}

run_probes-IsWorker_example :
    IsWorker config (run_probes config (start_worker config) (true ∷ true ∷ false ∷ []))
run_probes-IsWorker_example = run_probes-IsWorker config (true ∷ true ∷ false ∷ [])
