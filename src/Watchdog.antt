-- ===== src/Watchdog.antt =====
-- common/relay_probe_watchdog.h: one report for each outage of the relay.
mod Tests
use vlan_connect.Prelude.{
  leb, if◌then◌else◌, Bool-cases, ℕ, ◌+◌, ◌≤◌, ◌≡◌, refl, inl, inr, Bool, true, false, not, ◌&&◌,
  List, [], ◌∷◌, arith,
}
use vlan_connect.Probe.{sub32}

pub record RelayProbeWatchdog : Type 0 where
  pub waiting : Bool
  pub reported : Bool
  pub since : ℕ

abbrev pub new_watchdog : RelayProbeWatchdog
new_watchdog = record { waiting = false; reported = false; since = 0 }

pub observe : ℕ → Bool → RelayProbeWatchdog → Bool × RelayProbeWatchdog
observe now true w = (false, record w { waiting = false; reported = false })
observe now false w =
    let since = if w.waiting then w.since else now in
    if not w.reported && leb 10000 (sub32 now since)
    then (true, record { waiting = true; reported = true; since = since })
    else (false, record w { waiting = true; since = since })

-- The reports of a run of observations without a fresh reply.
abbrev pub reports : List ℕ → RelayProbeWatchdog → ℕ
reports [] w = 0
reports (now ∷ times) w =
    (if (observe now false w).0 then 1 else 0) + reports times (observe now false w).1

reported_once : (times : List ℕ) (w : RelayProbeWatchdog) → w.reported ≡ true → reports times w ≡ 0
unfolding observe
reported_once [] w h = refl
reported_once (now ∷ times) w h = ground (arith, reported_once times (observe now false w).1)

-- However long an outage lasts, it is reported at most once, and a watchdog that reports has waited
-- 10 seconds since the first observation without a reply.
pub observe_lem :
    (times : List ℕ) (first now : ℕ) (w : RelayProbeWatchdog)
    → (reports times w ≤ 1)
      × (let w' = (observe first false (observe first true w).1).1 in
          (observe now false w').0 ≡ leb 10000 (sub32 now first))
unfolding observe
observe_lem times first now w = (at_most_once times w, ground arith)
  where
    at_most_once : (times : List ℕ) (w : RelayProbeWatchdog) → reports times w ≤ 1
    at_most_once [] w = omega arith
    at_most_once (now ∷ times) w = elim (Bool-cases (observe now false w).0) [
      | inl fired ↦ ground (arith, reported_once times (observe now false w).1)
      | inr silent ↦ ground (arith, at_most_once times (observe now false w).1)
    ]
