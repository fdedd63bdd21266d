-- ===== src/Probe/Health.antt =====
-- When the state of an endpoint turns, and what is told of it (internal/probe/worker.go).
use enchanted_proxy.Probe.Worker.{
  run_probes, agree, probe, start_worker, healthy_probe, failing_probe, initial_probe, ProbeWorker,
  ProbeConfig,
}
use enchanted_proxy.Prelude.{
  ltb, subst, leb, ◌==◌, ℕ, ◌+◌, Bool, true, false, not, ◌&&◌, List, [], ◌∷◌, if◌then◌else◌, ◌≡◌,
  refl, sym, ap, inl, inr, arith, Bool-cases,
}

-- The messages, newest first, tell of one change after the other: the newest tells the present state, each
-- other one the state before, and before all of them the endpoint was healthy.
abbrev pub Alternating : Bool → List Bool → Type 0
Alternating now [] = now ≡ true
Alternating now (m ∷ ms) = (m ≡ now) × Alternating (not now) ms

-- After the first stage the ticker has the long interval exactly while the endpoint is healthy and the last
-- probe did not fail, the gauge shows the state, and the messages end with it. In the first stage nothing
-- was sent.
abbrev pub Settled : ProbeConfig → ProbeWorker → Type 0
Settled p w =
    (w.ticker ≡ (if w.healthy && w.consecutive_count == 0 then p.interval else p.retry_interval))
    × (w.gauge ≡ w.healthy)
    × Alternating w.healthy w.slack

abbrev pub IsWorker : ProbeConfig → ProbeWorker → Type 0
IsWorker p w = if w.initial then w.slack ≡ [] else Settled p w

Alternating-quiet : (ms : List Bool) → ms ≡ [] → Alternating true ms
Alternating-quiet [] h = refl
Alternating-quiet (m ∷ ms) h = cc

initial_probe-IsWorker :
    (p : ProbeConfig) (w : ProbeWorker) (r : Bool)
    → w.initial ≡ true
    → w.slack ≡ []
    → IsWorker p (initial_probe p w r)
unfolding initial_probe
initial_probe-IsWorker p w true i h = elim (Bool-cases (leb p.success_threshold count)) [
  | inl over ↦ rw over (refl, refl, Alternating-quiet w.slack h)
  | inr below ↦ rw (below, i) h
]
  where
    count : ℕ
    count = if agree true w.last_success then w.consecutive_count + 1 else 1
initial_probe-IsWorker p w false i h = elim (Bool-cases (leb p.failure_threshold count)) [
  | inl over ↦ rw over (refl, refl, (refl, Alternating-quiet w.slack h))
  | inr below ↦ rw (below, i) h
]
  where
    count : ℕ
    count = if agree false w.last_success then w.consecutive_count + 1 else 1

healthy_probe-IsWorker :
    (p : ProbeConfig) (w : ProbeWorker) (r : Bool)
    → w.initial ≡ false
    → w.healthy ≡ true
    → Settled p w
    → IsWorker p (healthy_probe p w r)
unfolding healthy_probe
healthy_probe-IsWorker p w true i g h = elim (Bool-cases (ltb 0 w.consecutive_count)) [
  | inl some_failed ↦ rw (some_failed, i) (ground (arith, g), h.1, h.2)
  | inr none_failed ↦ rw (none_failed, i) h
]
healthy_probe-IsWorker p w false i g h =
    elim (Bool-cases (leb p.failure_threshold (w.consecutive_count + 1))) [
      | inl over ↦
          rw (over, i)
            (
              ground (arith, h.0, g),
              refl,
              (refl, subst (λ (b : Bool). Alternating b w.slack) g h.2),
            )
      | inr below ↦ rw (below, i) (ground (arith, h.0, g), h.1, h.2)
    ]

failing_probe-IsWorker :
    (p : ProbeConfig) (w : ProbeWorker) (r : Bool)
    → w.initial ≡ false
    → w.healthy ≡ false
    → Settled p w
    → IsWorker p (failing_probe p w r)
unfolding failing_probe
failing_probe-IsWorker p w true i g h =
    elim (Bool-cases (leb p.success_threshold (w.consecutive_count + 1))) [
      | inl over ↦
          rw (over, i) (refl, refl, (refl, subst (λ (b : Bool). Alternating b w.slack) g h.2))
      | inr below ↦ rw (below, i) (ground (arith, h.0, g), h.1, h.2)
    ]
failing_probe-IsWorker p w false i g h = rw i (ground (arith, h.0, g), h.1, h.2)

probe-IsWorker :
    (p : ProbeConfig) (w : ProbeWorker) (r : Bool) → IsWorker p w → IsWorker p (probe p w r)
unfolding probe
probe-IsWorker p w r h = elim (Bool-cases w.initial) [
  | inl i ↦
      subst (IsWorker p)
        (sym (ap (λ (b : Bool). if b then initial_probe p w r else settled_probe) i))
        (initial_probe-IsWorker p w r i (rw i at h))
  | inr i ↦
      subst (IsWorker p)
        (sym (ap (λ (b : Bool). if b then initial_probe p w r else settled_probe) i))
        (elim (Bool-cases w.healthy) [
          | inl g ↦
              subst (IsWorker p)
                (sym (ap (λ (b : Bool). if b then healthy_probe p w r else failing_probe p w r) g))
                (healthy_probe-IsWorker p w r i g (rw i at h))
          | inr g ↦
              subst (IsWorker p)
                (sym (ap (λ (b : Bool). if b then healthy_probe p w r else failing_probe p w r) g))
                (failing_probe-IsWorker p w r i g (rw i at h))
        ])
]
  where
    settled_probe : ProbeWorker
    settled_probe = if w.healthy then healthy_probe p w r else failing_probe p w r

run_probes-from :
    (p : ProbeConfig) (rs : List Bool) (w : ProbeWorker)
    → IsWorker p w
    → IsWorker p (run_probes p w rs)
unfolding run_probes
run_probes-from p [] w h = h
run_probes-from p (r ∷ rs) w h = run_probes-from p rs (probe p w r) (probe-IsWorker p w r h)

-- Whatever the results of the probes: in the first stage no message is sent. After it the ticker has the
-- long interval exactly while the endpoint is healthy and the last probe did not fail, and the retry interval
-- otherwise; the gauge shows the state; and the messages alternate between failure and recovery, beginning
-- with a failure and ending with the present state, so that no change is told twice or left out.
pub run_probes-IsWorker :
    (p : ProbeConfig) (rs : List Bool) → IsWorker p (run_probes p (start_worker p) rs)
unfolding start_worker
run_probes-IsWorker p rs = run_probes-from p rs (start_worker p) refl
