-- ===== src/Backend/Wait.antt =====
-- The loop of `WaitForVulnzAnalysis`, which pkg/kritis/metadata/containeranalysis/containeranalysis.go
-- and pkg/kritis/metadata/grafeas/grafeas.go both have. The clock, the timers and the `select` on
-- them are parameters.
pub mod Rounds
use kritis.Base.{
  ℕ, zero, suc, ◌*◌, ◌%◌, String, Bool, true, false, Option, none, some, [], if◌then◌else◌,
}
use kritis.Base.Result.{Error, Result, ok, err, errorf, wrap, Done}
use kritis.Base.Exec.{Exec, lift, raise, wrapping}
use kritis.Base.Run.{Run, ◌>>=◌, call, unfinished}
use kritis.Occurrences.{
  Occurrence, Details, attestation_details, vulnerability_details, discovered_details,
  other_details, AnalysisStatus, finished_success, finished_failed, finished_unsupported,
  other_status,
}

-- `timeoutTimer`: its start with a timeout, the `select` between it and a tick after a number of
-- nanoseconds, with `true` where the timer won, and its stop.
pub record Timer (W : Type 0) : Type 0 where
  pub start : ℕ → W → W
  pub select_tick : ℕ → W → Bool × W
  pub stop : W → W

-- `GetDiscovered() != nil`
abbrev pub is_discovered : Occurrence → Bool
is_discovered occ = elim occ.details [
  | attestation_details a ↦ false
  | vulnerability_details v ↦ false
  | discovered_details s ↦ true
  | other_details ↦ false
]

-- `GetDiscovered().GetDiscovered().GetAnalysisStatus()`, whose default is none of the three below
abbrev pub analysis_status : Occurrence → AnalysisStatus
analysis_status occ = elim occ.details [
  | attestation_details a ↦ other_status
  | vulnerability_details v ↦ other_status
  | discovered_details s ↦ s
  | other_details ↦ other_status
]

-- The switch on the status: what the loop returns, if it does.
abbrev pub verdict : AnalysisStatus → Option (Result Done)
verdict finished_success = some (ok tt)
verdict finished_failed = some (err (errorf "container analysis has finished unsuccessfully" []))
verdict finished_unsupported =
    some (err (errorf "container analysis resource is known not to be supported" []))
verdict other_status = none

abbrev pub timed_out : Error
timed_out = errorf "timeout while retrieving discovery occurrence" []

-- `nextTryWait * 2` on 64 bits
abbrev pub double_wait : ℕ → ℕ
double_wait next_try_wait = (next_try_wait * 2) % 18446744073709551616

module _ {W : Type 0} (get_occurrence : String → Exec W Occurrence)
    (find : Exec W (Option Occurrence)) (select_tick : ℕ → W → Bool × W) where
  abbrev pub after_select : (ℕ → Run W Done) → ℕ → Bool × W → Option (Result Done × W)
  after_select rest next_try_wait (true, w) = call (raise timed_out) w
  after_select rest next_try_wait (false, w) = rest (double_wait next_try_wait) w

  -- The `select` at the end of a round.
  abbrev pub select_round : (ℕ → Run W Done) → ℕ → Run W Done
  select_round rest next_try_wait w = after_select rest next_try_wait (select_tick next_try_wait w)

  abbrev pub after_update : (ℕ → Run W Done) → ℕ → Option (Result Done) → Run W Done
  after_update rest next_try_wait (some r) = call (lift r)
  after_update rest next_try_wait none = select_round rest next_try_wait

  -- A round with a discovery occurrence.
  abbrev pub update_round : (ℕ → Run W Done) → ℕ → Occurrence → Run W Done
  update_round rest next_try_wait discovery_occurrence =
      call (wrapping (wrap "GetOccurrence: %v" []) (get_occurrence discovery_occurrence.name))
      >>= λ updated. after_update rest next_try_wait (verdict (analysis_status updated))

  -- After the search for one: `continue` goes to the next round past the `select`.
  abbrev pub found_round : (Option Occurrence → ℕ → Run W Done) → ℕ → Option Occurrence → Run W Done
  found_round rest next_try_wait none = rest none next_try_wait
  found_round rest next_try_wait (some occ) =
      if is_discovered occ
      then update_round (rest (some occ)) next_try_wait occ
      else select_round (rest none) next_try_wait

  unfoldable pub wait_rounds : ℕ → Option Occurrence → ℕ → Run W Done
  wait_rounds zero discovery_occurrence next_try_wait = unfinished
  wait_rounds (suc fuel) none next_try_wait =
      call find >>= found_round (wait_rounds fuel) next_try_wait
  wait_rounds (suc fuel) (some occ) next_try_wait =
      update_round (wait_rounds fuel (some occ)) next_try_wait occ

-- `defer timeoutTimer.Stop()`
abbrev pub stopped : {W : Type 0} → (W → W) → Option (Result Done × W) → Option (Result Done × W)
stopped stop none = none
stopped stop (some (r, w)) = some (r, stop w)

-- `WaitForVulnzAnalysis` around its rounds
unfoldable pub wait_with :
    {W : Type 0}
    → Timer W
    → (String → Exec W Occurrence)
    → Exec W (Option Occurrence)
    → ℕ
    → ℕ
    → Run W Done
wait_with timer get_occurrence find timeout fuel w =
    stopped timer.stop
      (wait_rounds get_occurrence find timer.select_tick fuel none 1 (timer.start timeout w))
