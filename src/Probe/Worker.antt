-- ===== src/Probe/Worker.antt =====
-- `probeWorker.run` of internal/probe/worker.go. Of a probe result the loop reads whether it is a success;
-- sending the probe is a parameter, and of the settings it reads four. The jitter before the first probe and the shutdown are left out.
use enchanted_proxy.Prelude.{
  ◌==◌, leb, ltb, ℕ, ◌+◌, Bool, true, false, not, List, [], ◌∷◌, if◌then◌else◌,
}

pub record ProbeConfig : Type 0 where
  pub interval : ℕ
  pub retry_interval : ℕ
  pub success_threshold : ℕ
  pub failure_threshold : ℕ

-- The variables of the loop, the period of its ticker, the gauge, and the Slack messages, newest first.
pub record ProbeWorker : Type 0 where
  pub initial : Bool
  pub healthy : Bool
  pub consecutive_count : ℕ
  pub last_success : Bool
  pub ticker : ℕ
  pub gauge : Bool
  pub slack : List Bool

unfoldable pub start_worker : ProbeConfig → ProbeWorker
start_worker p = record {
  initial = true;
  healthy = false;
  consecutive_count = 0;
  last_success = false;
  ticker = p.retry_interval;
  gauge = false;
  slack = [];
}

abbrev pub agree : Bool → Bool → Bool
agree true b = b
agree false b = not b

-- The first stage, until a threshold is crossed; the second stage begins with a reset of the ticker.
unfoldable pub initial_probe : ProbeConfig → ProbeWorker → Bool → ProbeWorker
initial_probe p w success =
    let count = if agree success w.last_success then w.consecutive_count + 1 else 1 in
    let seen = record w { last_success = success; consecutive_count = count } in
    if success
    then (if leb p.success_threshold count
        then record seen {
          initial = false;
          healthy = true;
          consecutive_count = 0;
          ticker = p.interval;
          gauge = true;
        }
        else seen)
    else (if leb p.failure_threshold count
        then record seen {
          initial = false;
          healthy = false;
          consecutive_count = 0;
          ticker = p.retry_interval;
          gauge = false;
          slack = false ∷ w.slack;
        }
        else seen)

unfoldable pub healthy_probe : ProbeConfig → ProbeWorker → Bool → ProbeWorker
healthy_probe p w true =
    if ltb 0 w.consecutive_count then record w { consecutive_count = 0; ticker = p.interval } else w
healthy_probe p w false =
    let count = w.consecutive_count + 1 in
    let ticker = if count == 1 then p.retry_interval else w.ticker in
    if leb p.failure_threshold count
    then record w {
      healthy = false;
      consecutive_count = 0;
      ticker = ticker;
      gauge = false;
      slack = false ∷ w.slack;
    }
    else record w { consecutive_count = count; ticker = ticker }

unfoldable pub failing_probe : ProbeConfig → ProbeWorker → Bool → ProbeWorker
failing_probe p w true =
    let count = w.consecutive_count + 1 in
    if leb p.success_threshold count
    then record w {
      healthy = true;
      consecutive_count = 0;
      ticker = p.interval;
      gauge = true;
      slack = true ∷ w.slack;
    }
    else record w { consecutive_count = count }
failing_probe p w false = record w { consecutive_count = 0 }

unfoldable pub probe : ProbeConfig → ProbeWorker → Bool → ProbeWorker
unfolding initial_probe healthy_probe failing_probe
probe p w success =
    if w.initial
    then initial_probe p w success
    else if w.healthy
    then healthy_probe p w success
    else failing_probe p w success

unfoldable pub run_probes : ProbeConfig → ProbeWorker → List Bool → ProbeWorker
run_probes p w [] = w
run_probes p w (r ∷ rs) = run_probes p (probe p w r) rs
