-- ===== src/Samples/Due.antt =====
-- The theorems on probes and discovery passes at concrete inputs.
use fedimint_wallets.Prelude.{
  ℕ, ◌-◌, ◌≤◌, ◌≡◌, ◌↔◌, refl, true, some, none, List, [], ◌∷◌, any, filter, arith,
}
use fedimint_wallets.Probe.{
  ProbeAttempt, ProbePolicy, ActiveProbeVerdict, probe_verdict, probe_pass_expiry_anchor_ms,
  first_anchor, anchor_from, qualifying_slice_passes, qualifies, sort_by_time, insert_by_time,
  is_outside, from_partition, success_suffix, window_verdict, suffix_verdict,
}
use fedimint_wallets.Probe.Lasting.{passed_until_anchor}
use fedimint_wallets.Watch.{default_watch}
use fedimint_wallets.Watch.Schedule.{probe_next_due_at, refresh_due, invocation_backoff_floor}
use fedimint_wallets.Watch.Due.{due_while_passed}

abbrev success_at : ℕ → ProbeAttempt
success_at t = record {
  at_ms = t;
  is_ok = true;
  source = 1;
  amount_msat = 20000;
  leg_fee_cap_msat = 10000;
  error = none;
}

abbrev history : List ProbeAttempt
history = success_at 100 ∷ success_at 300 ∷ success_at 600 ∷ []

-- Two successes, 200 ms apart, of the last second.
abbrev policy : ProbePolicy
policy = record {
  amount_msat = 20000;
  leg_fee_cap_msat = 10000;
  min_successes = 2;
  min_span_ms = 200;
  ttl_ms = 1000;
}

history_passes : probe_verdict 1 policy history 700 ≡ ActiveProbeVerdict.passed
unfolding probe_verdict sort_by_time insert_by_time from_partition is_outside success_suffix
    window_verdict suffix_verdict qualifying_slice_passes qualifies filter any
history_passes = refl

history_anchor : probe_pass_expiry_anchor_ms 1 policy history 700 ≡ some 300
unfolding probe_pass_expiry_anchor_ms first_anchor anchor_from sort_by_time insert_by_time
    from_partition is_outside success_suffix qualifying_slice_passes qualifies filter any
history_anchor = refl

passed_until_anchor_example :
    (t : ℕ) × (probe_pass_expiry_anchor_ms 1 policy history 700 ≡ some t)
    × ((probe_verdict 1 policy history 1200 ≡ ActiveProbeVerdict.passed) ↔ (1200 - t ≤ 1000))
passed_until_anchor_example =
    passed_until_anchor 1 policy history 700 1200 (omega arith) history_passes

due_while_passed_example :
    probe_verdict 1 policy history
      (probe_next_due_at (some 300) none 700 default_watch policy ActiveProbeVerdict.passed)
    ≡ ActiveProbeVerdict.passed
unfolding probe_next_due_at refresh_due invocation_backoff_floor
due_while_passed_example =
    due_while_passed 1 history none 700 300 default_watch policy history_passes history_anchor
      (omega arith) (omega arith)
