-- ===== src/Providers/Launcher/Backoff.antt =====
-- How long a provider is left alone after a failed launch.
use Prim.Native.Nat.{min}
use bb_auth.Prelude.{
  ℕ, zero, suc, ◌+◌, ◌*◌, ◌^◌, ◌≤◌, ◌<◌, ◌≡◌, true, false, some, String, arith, string_eq,
}
use bb_auth.Prelude.Hash.{find, find-insert_self}
use bb_auth.Providers.Host.{Host}
use bb_auth.Providers.Launcher.{
  RetryState, SelectedCandidate, candidate, Retries, compute_backoff_ms, can_attempt, or_new,
  failed_again, mark_failure, launch_candidate,
}

power_grows : (n : ℕ) → n < 8 → 500 ≤ 250 * 2 ^ suc n
power_grows zero h = omega arith
power_grows (suc zero) h = omega arith
power_grows (suc (suc zero)) h = omega arith
power_grows (suc (suc (suc zero))) h = omega arith
power_grows (suc (suc (suc (suc zero)))) h = omega arith
power_grows (suc (suc (suc (suc (suc zero))))) h = omega arith
power_grows (suc (suc (suc (suc (suc (suc zero)))))) h = omega arith
power_grows (suc (suc (suc (suc (suc (suc (suc zero))))))) h = omega arith
power_grows (suc (suc (suc (suc (suc (suc (suc (suc n)))))))) h = absurd (omega arith)

power_min : (n : ℕ) → 500 ≤ 250 * 2 ^ min (suc n) 8
power_min n =
    let e : min (suc n) 8 ≡ suc (min n 7) = omega arith in
    rw e (power_grows (min n 7) (omega arith))

-- The wait after the failure number n + 1 is at least half a second, and with a jitter in range
-- (below 121 ms) never more than 5120 ms.
backoff_bounds :
    (n jitter : ℕ)
    → jitter < 121
    → (500 ≤ compute_backoff_ms (suc n) jitter) × (compute_backoff_ms (suc n) jitter ≤ 5120)
unfolding compute_backoff_ms
backoff_bounds n jitter h = (omega (arith, power_min n), omega (arith, power_min n))

-- The failures in a row that are on record for a provider.
abbrev pub failures_of : Retries → String → ℕ
failures_of m id = (or_new (find id m)).failures

-- What the backoff is without its jitter.
abbrev pub least_backoff : ℕ → ℕ
least_backoff n = min (250 * 2 ^ min n 8) 5000

failure_recorded :
    (h : Host) (reason : String) (m : Retries) (c : SelectedCandidate)
    → (launch_candidate h m reason (candidate c)).0.attempted ≡ true
    → (launch_candidate h m reason (candidate c)).0.launched ≡ false
    → find c.id (launch_candidate h m reason (candidate c)).1
      ≡ some (failed_again (or_new (find c.id m)) h.now h.jitter)
unfolding launch_candidate mark_failure
failure_recorded h reason m c a l =
    ground (arith, find-insert_self c.id (failed_again (or_new (find c.id m)) h.now h.jitter) m)

throttled :
    (h : Host) (reason : String) (m : Retries) (c : SelectedCandidate) (id : String)
    (s : RetryState)
    → c.id ≡ id
    → find id m ≡ some s
    → h.now < s.next_eligible_ms
    → ((launch_candidate h m reason (candidate c)).0.attempted ≡ false)
      × ((launch_candidate h m reason (candidate c)).1 ≡ m)
unfolding launch_candidate can_attempt
throttled h reason m c id s same e l =
    let e' : find c.id m ≡ some s = rw same e in (ground (arith, e'), ground (arith, e'))

-- After a launch of a provider that failed, with `n` failures on record before it, no launch of a
-- provider with that id is attempted, and nothing changes, until 250 · 2^(n+1) ms (the exponent at
-- most 8, the wait at most 5 s) have passed.
pub failed_launch_throttles :
    (h later : Host) (reason again : String) (m : Retries) (c d : SelectedCandidate)
    → (launch_candidate h m reason (candidate c)).0.attempted ≡ true
    → (launch_candidate h m reason (candidate c)).0.launched ≡ false
    → d.id ≡ c.id
    → later.now < h.now + least_backoff (suc (failures_of m c.id))
    → let after = (launch_candidate h m reason (candidate c)).1 in
      ((launch_candidate later after again (candidate d)).0.attempted ≡ false)
      × ((launch_candidate later after again (candidate d)).1 ≡ after)
unfolding compute_backoff_ms
failed_launch_throttles h later reason again m c d a l same soon =
    throttled later again _ d c.id _ same (failure_recorded h reason m c a l) (omega arith)
