-- ===== src/Probe/Thresholds.antt =====
-- How many failed probes in a row turn a healthy endpoint (internal/probe/worker.go).
use enchanted_proxy.Probe.Worker.{
  run_probes, probe, healthy_probe, failing_probe, initial_probe, ProbeWorker, ProbeConfig,
}
use enchanted_proxy.Prelude.{
  leb→le, lt→ltb, le→leb, ltb, leb, ℕ, zero, suc, ◌+◌, ◌<◌, ◌≤◌, Bool, true, false, List, [], ◌∷◌,
  if◌then◌else◌, ◌≡◌, refl, sym, ap, ◌∙◌, inl, inr, arith, Bool-cases,
}

abbrev pub repeat : ℕ → Bool → List Bool
repeat zero r = []
repeat (suc n) r = r ∷ repeat n r

healthy_probe-fails :
    (p : ProbeConfig) (w : ProbeWorker)
    → w.initial ≡ false
    → w.healthy ≡ true
    → probe p w false ≡ healthy_probe p w false
unfolding probe
healthy_probe-fails p w i g =
    ap
      (λ (b : Bool).
        if b
        then initial_probe p w false
        else if w.healthy
        then healthy_probe p w false
        else failing_probe p w false)
      i
    ∙ ap (λ (b : Bool). if b then healthy_probe p w false else failing_probe p w false) g

healthy_probe-over :
    (p : ProbeConfig) (w : ProbeWorker)
    → p.failure_threshold ≤ w.consecutive_count + 1
    → ((healthy_probe p w false).healthy ≡ false)
      × ((healthy_probe p w false).slack ≡ false ∷ w.slack)
unfolding healthy_probe
healthy_probe-over p w h = rw (le→leb p.failure_threshold (w.consecutive_count + 1) h) (refl, refl)

healthy_probe-below :
    (p : ProbeConfig) (w : ProbeWorker)
    → w.initial ≡ false
    → w.healthy ≡ true
    → w.consecutive_count + 1 < p.failure_threshold
    → let w' = healthy_probe p w false in
      (w'.initial ≡ false)
      × (w'.healthy ≡ true)
      × (w'.slack ≡ w.slack)
      × (w'.consecutive_count ≡ w.consecutive_count + 1)
unfolding healthy_probe
healthy_probe-below p w i g h = rw below (i, g, refl, refl)
  where
    below : leb p.failure_threshold (w.consecutive_count + 1) ≡ false
    below = ground arith

-- A healthy endpoint with some failures in a row fails, and this is told, on exactly the failure with which
-- their number reaches the threshold: after fewer it is healthy, and nothing is told.
pub run_probes-failures :
    (p : ProbeConfig) (n : ℕ) (w : ProbeWorker)
    → w.initial ≡ false
    → w.healthy ≡ true
    → w.consecutive_count < p.failure_threshold
    → w.consecutive_count + n ≤ p.failure_threshold
    → let after = run_probes p w (repeat n false) in
      let below = ltb (w.consecutive_count + n) p.failure_threshold in
      (after.healthy ≡ below) × (after.slack ≡ (if below then w.slack else false ∷ w.slack))
unfolding run_probes
run_probes-failures p zero w i g c h =
    let b : ltb (w.consecutive_count + 0) p.failure_threshold ≡ true = lt→ltb _ _ (omega arith) in
    rw b (g, refl)
run_probes-failures p (suc n) w i g c h =
    elim (Bool-cases (leb p.failure_threshold (w.consecutive_count + 1))) [
      | inl over ↦ last n (leb→le _ _ over) h
      | inr under ↦
          let less : w.consecutive_count + 1 < p.failure_threshold = ground (arith, under) in
          let (i', g', s', c') = healthy_probe-below p w i g less in
          let (healthy', slack') =
            run_probes-failures p n (healthy_probe p w false) i' g' (omega (arith, c'))
              (omega (arith, c')) in
          let same_test : ltb ((healthy_probe p w false).consecutive_count + n) p.failure_threshold
              ≡ ltb (w.consecutive_count + suc n) p.failure_threshold =
            ap (λ (k : ℕ). ltb k p.failure_threshold) (omega (arith, c')) in
          (
            ap (λ (v : ProbeWorker). (run_probes p v (repeat n false)).healthy)
                  (healthy_probe-fails p w i g)
                ∙ healthy'
                ∙ same_test,
            ap (λ (v : ProbeWorker). (run_probes p v (repeat n false)).slack)
                  (healthy_probe-fails p w i g)
                ∙ slack'
                ∙ ap
                    (λ (ms : List Bool).
                      if ltb ((healthy_probe p w false).consecutive_count + n) p.failure_threshold
                      then ms
                      else false ∷ ms)
                    s'
                ∙ ap (λ (b : Bool). if b then w.slack else false ∷ w.slack) same_test,
          )
    ]
  where
    last :
        (n : ℕ)
        → p.failure_threshold ≤ w.consecutive_count + 1
        → w.consecutive_count + suc n ≤ p.failure_threshold
        → let after = run_probes p w (repeat (suc n) false) in
          let below = ltb (w.consecutive_count + suc n) p.failure_threshold in
          (after.healthy ≡ below) × (after.slack ≡ (if below then w.slack else false ∷ w.slack))
    last zero over h =
        let told = healthy_probe-over p w over in
        let b : ltb (w.consecutive_count + 1) p.failure_threshold ≡ false = ground (arith, over) in
        (
          ap (λ (v : ProbeWorker). v.healthy) (healthy_probe-fails p w i g) ∙ told.0 ∙ sym b,
          ap (λ (v : ProbeWorker). v.slack) (healthy_probe-fails p w i g)
              ∙ told.1
              ∙ ap (λ (b : Bool). if b then w.slack else false ∷ w.slack) (sym b),
        )
    last (suc n) over h = absurd (omega (arith, over, h))
