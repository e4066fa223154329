-- ===== src/Backend/Wait/Rounds.antt =====
-- When the rounds of `WaitForVulnzAnalysis` (containeranalysis.go and grafeas.go of
-- pkg/kritis/metadata) end, and what they found then.
use kritis.Base.{
  ℕ, zero, suc, ◌<◌, ◌≤◌, String, ◌≡◌, refl, ◌≢◌, inl, inr, Bool, true, false, Option, none, some,
  [], Bool-cases, arith,
}
use kritis.Base.Result.{Result, ok, err, wrap, map_err, Done}
use kritis.Base.Exec.{Exec}
use kritis.Base.Run.{Run, then_run}
use kritis.Occurrences.{
  Occurrence, AnalysisStatus, finished_success, finished_failed, finished_unsupported, other_status,
}
use kritis.Backend.Wait.{
  is_discovered, analysis_status, timed_out, verdict, double_wait, after_select, select_round,
  after_update, update_round, found_round, wait_rounds,
}

module _ {W : Type 0} (get_occurrence : String → Exec W Occurrence)
    (find : Exec W (Option Occurrence)) (select_tick : ℕ → W → Bool × W) where
  none_listed-step :
      (rest : Option Occurrence → ℕ → Run W Done) (n : ℕ) (r : Result (Option Occurrence)) (w : W)
      → r ≡ ok none
      → ((v : W) → rest none n v ≡ none)
      → then_run (found_round get_occurrence find select_tick rest n) (some (r, w)) ≡ none
  none_listed-step rest n (ok none) w e h = h w
  none_listed-step rest n (ok (some o)) w e h = absurd (cc e)
  none_listed-step rest n (err x) w e h = absurd (cc e)

  -- Where the listing of discovery occurrences is always empty, the loop does not end, whatever the
  -- timer does: the rounds used up any bound.
  pub wait_rounds-none_listed :
      ((w : W) → (find w).0 ≡ ok none)
      → (fuel next_try_wait : ℕ) (w : W)
      → wait_rounds get_occurrence find select_tick fuel none next_try_wait w ≡ none
  unfolding wait_rounds
  wait_rounds-none_listed h zero n w = refl
  wait_rounds-none_listed h (suc fuel) n w =
      none_listed-step (wait_rounds get_occurrence find select_tick fuel) n (find w).0 (find w).1
        (h w) (λ v. wait_rounds-none_listed h fuel n v)

  -- The timer fires: each tick that wins against it uses up some patience, and calls add none.
  pub record Fires (patience : W → ℕ) : Type 0 where
    pub tick :
        (n : ℕ) (w : W) → (select_tick n w).0 ≡ false → patience (select_tick n w).1 < patience w
    pub listing : (w : W) → patience (find w).1 ≤ patience w
    pub getting : (name : String) (w : W) → patience (get_occurrence name w).1 ≤ patience w

  -- A run that ends.
  abbrev pub Ended : Option (Result Done × W) → Type 0
  Ended o = (r : Result Done × W) × (o ≡ some r)

  Ended-some : (r : Result Done × W) → Ended (some r)
  Ended-some r = (r, refl)

  module _ (patience : W → ℕ) (fires : Fires patience) (fuel : ℕ) where
    -- The rest of the rounds ends from every world with less patience than the bound.
    abbrev Ends : (ℕ → Run W Done) → Type 0
    Ends rest = (n : ℕ) (w : W) → patience w < fuel → Ended (rest n w)

    after_select-Ended :
        (rest : ℕ → Run W Done) (n : ℕ) (s : Bool × W)
        → Ends rest
        → (s.0 ≡ false → patience s.1 < fuel)
        → Ended (after_select get_occurrence find select_tick rest n s)
    after_select-Ended rest n (true, w) h k = Ended-some (err timed_out, w)
    after_select-Ended rest n (false, w) h k = h (double_wait n) w (k refl)

    select_round-Ended :
        (rest : ℕ → Run W Done) (n : ℕ) (w : W)
        → Ends rest
        → patience w < suc fuel
        → Ended (select_round get_occurrence find select_tick rest n w)
    select_round-Ended rest n w h p =
        after_select-Ended rest n (select_tick n w) h (λ e. omega (arith, fires.tick n w e, p))

    after_update-Ended :
        (rest : ℕ → Run W Done) (n : ℕ) (v : Option (Result Done)) (w : W)
        → Ends rest
        → patience w < suc fuel
        → Ended (after_update get_occurrence find select_tick rest n v w)
    after_update-Ended rest n none w h p = select_round-Ended rest n w h p
    after_update-Ended rest n (some r) w h p = ((r, w), refl)

    updated-Ended :
        (rest : ℕ → Run W Done) (n : ℕ) (r : Result Occurrence) (w : W)
        → Ends rest
        → patience w < suc fuel
        → Ended (
            then_run
              (λ u.
                after_update get_occurrence find select_tick rest n (verdict (analysis_status u)))
              (some (map_err (wrap "GetOccurrence: %v" []) r, w)))
    updated-Ended rest n (ok u) w h p =
        after_update-Ended rest n (verdict (analysis_status u)) w h p
    updated-Ended rest n (err e) w h p =
        Ended-some (map_err (wrap "GetOccurrence: %v" []) (err e), w)

    update_round-Ended :
        (rest : ℕ → Run W Done) (n : ℕ) (o : Occurrence) (w : W)
        → Ends rest
        → patience w < suc fuel
        → Ended (update_round get_occurrence find select_tick rest n o w)
    update_round-Ended rest n o w h p =
        updated-Ended rest n (get_occurrence o.name w).0 (get_occurrence o.name w).1 h
          (omega (arith, fires.getting o.name w, p))

    found_some-Ended :
        (rest : Option Occurrence → ℕ → Run W Done) (n : ℕ) (o : Occurrence) (w : W)
        → ((d : Option Occurrence) → Ends (rest d))
        → patience w < suc fuel
        → Ended (found_round get_occurrence find select_tick rest n (some o) w)
    found_some-Ended rest n o w h p = elim (Bool-cases (is_discovered o)) [
      | inl e ↦ rw e (update_round-Ended (rest (some o)) n o w (h (some o)) p)
      | inr e ↦ rw e (select_round-Ended (rest none) n w (h none) p)
    ]

    found_round-Ended :
        (rest : Option Occurrence → ℕ → Run W Done) (n : ℕ) (r : Result (Option Occurrence)) (w : W)
        → ((d : Option Occurrence) → Ends (rest d))
        → r ≢ ok none
        → patience w < suc fuel
        → Ended (then_run (found_round get_occurrence find select_tick rest n) (some (r, w)))
    found_round-Ended rest n (ok none) w h k p = absurd (k refl)
    found_round-Ended rest n (ok (some o)) w h k p = found_some-Ended rest n o w h p
    found_round-Ended rest n (err e) w h k p = Ended-some (err e, w)

  -- Where a listing always has an occurrence or fails, and the timer fires, the loop ends: one round
  -- more than the patience is enough.
  pub wait_rounds-Ended :
      (patience : W → ℕ)
      → Fires patience
      → ((w : W) → (find w).0 ≢ ok none)
      → (fuel : ℕ) (d : Option Occurrence) (next_try_wait : ℕ) (w : W) → patience w < fuel
      → Ended (wait_rounds get_occurrence find select_tick fuel d next_try_wait w)
  unfolding wait_rounds
  wait_rounds-Ended patience fires listed zero d n w p = absurd (omega (arith, p))
  wait_rounds-Ended patience fires listed (suc fuel) none n w p =
      found_round-Ended patience fires fuel (wait_rounds get_occurrence find select_tick fuel) n
        (find w).0 (find w).1 (λ d m v q. wait_rounds-Ended patience fires listed fuel d m v q)
        (listed w) (omega (arith, fires.listing w, p))
  wait_rounds-Ended patience fires listed (suc fuel) (some o) n w p =
      update_round-Ended patience fires fuel
        (wait_rounds get_occurrence find select_tick fuel (some o)) n o w
        (λ m v q. wait_rounds-Ended patience fires listed fuel (some o) m v q) p

  -- Some listing had the occurrence, and some update of it by its name had finished with success.
  abbrev pub Polled : Occurrence → Type 0
  Polled o =
      (v : W) × (u : Occurrence) × ((get_occurrence o.name v).0 ≡ ok u)
      × (analysis_status u ≡ finished_success)

  abbrev pub Listed : Occurrence → Type 0
  Listed o = (v : W) × ((find v).0 ≡ ok (some o)) × (is_discovered o ≡ true)

  abbrev pub Finished : Type 0
  Finished = (o : Occurrence) × Listed o × Polled o

  -- What returns without an error has found a finished analysis.
  abbrev Sound : (ℕ → Run W Done) → Type 0
  Sound rest = (n : ℕ) (w w' : W) → rest n w ≡ some (ok tt, w') → Finished

  verdict-ok : (s : AnalysisStatus) → verdict s ≡ some (ok tt) → s ≡ finished_success
  verdict-ok finished_success h = refl
  verdict-ok finished_failed h = absurd (cc h)
  verdict-ok finished_unsupported h = absurd (cc h)
  verdict-ok other_status h = absurd (cc h)

  after_select-Finished :
      (rest : ℕ → Run W Done) (n : ℕ) (s : Bool × W) (w' : W)
      → Sound rest
      → after_select get_occurrence find select_tick rest n s ≡ some (ok tt, w')
      → Finished
  after_select-Finished rest n (true, w) w' h e = absurd (cc e)
  after_select-Finished rest n (false, w) w' h e = h (double_wait n) w w' e

  after_update-Finished :
      (rest : ℕ → Run W Done) (n : ℕ) (o : Occurrence) (v : Option (Result Done)) (w w' : W)
      → Sound rest
      → (v ≡ some (ok tt) → Finished)
      → after_update get_occurrence find select_tick rest n v w ≡ some (ok tt, w')
      → Finished
  after_update-Finished rest n o none w w' h k e =
      after_select-Finished rest n (select_tick n w) w' h e
  after_update-Finished rest n o (some r) w w' h k e = k (cc e)

  updated-Finished :
      (rest : ℕ → Run W Done) (n : ℕ) (o : Occurrence) (r : Result Occurrence) (v w w' : W)
      → Sound rest
      → Listed o
      → (get_occurrence o.name v).0 ≡ r
      → then_run
          (λ u. after_update get_occurrence find select_tick rest n (verdict (analysis_status u)))
          (some (map_err (wrap "GetOccurrence: %v" []) r, w))
        ≡ some (ok tt, w')
      → Finished
  updated-Finished rest n o (ok u) v w w' h l g e =
      after_update-Finished rest n o (verdict (analysis_status u)) w w' h
        (λ q. (o, l, (v, u, g, verdict-ok (analysis_status u) q))) e
  updated-Finished rest n o (err x) v w w' h l g e = absurd (cc e)

  update_round-Finished :
      (rest : ℕ → Run W Done) (n : ℕ) (o : Occurrence) (w w' : W)
      → Sound rest
      → Listed o
      → update_round get_occurrence find select_tick rest n o w ≡ some (ok tt, w')
      → Finished
  update_round-Finished rest n o w w' h l e =
      updated-Finished rest n o (get_occurrence o.name w).0 w (get_occurrence o.name w).1 w' h l
        refl e

  found_some-Finished :
      (rest : Option Occurrence → ℕ → Run W Done) (n : ℕ) (o : Occurrence) (v w w' : W)
      → Sound (rest none)
      → (Listed o → Sound (rest (some o)))
      → (find v).0 ≡ ok (some o)
      → found_round get_occurrence find select_tick rest n (some o) w ≡ some (ok tt, w')
      → Finished
  found_some-Finished rest n o v w w' h k f e = elim (Bool-cases (is_discovered o)) [
    | inl d ↦ update_round-Finished (rest (some o)) n o w w' (k (v, f, d)) (v, f, d) (rw d at e)
    | inr d ↦ after_select-Finished (rest none) n (select_tick n w) w' h (rw d at e)
  ]

  found_round-Finished :
      (rest : Option Occurrence → ℕ → Run W Done) (n : ℕ) (r : Result (Option Occurrence))
      (v w w' : W)
      → Sound (rest none)
      → ((o : Occurrence) → Listed o → Sound (rest (some o)))
      → (find v).0 ≡ r
      → then_run (found_round get_occurrence find select_tick rest n) (some (r, w))
        ≡ some (ok tt, w')
      → Finished
  found_round-Finished rest n (ok none) v w w' h k f e = h n w w' e
  found_round-Finished rest n (ok (some o)) v w w' h k f e =
      found_some-Finished rest n o v w w' h (k o) f e
  found_round-Finished rest n (err x) v w w' h k f e = absurd (cc e)

  known-Finished :
      (fuel : ℕ) (o : Occurrence)
      → Listed o
      → Sound (wait_rounds get_occurrence find select_tick fuel (some o))
  unfolding wait_rounds
  known-Finished zero o l n w w' e = absurd (cc e)
  known-Finished (suc fuel) o l n w w' e =
      update_round-Finished (wait_rounds get_occurrence find select_tick fuel (some o)) n o w w'
        (λ m v v' q. known-Finished fuel o l m v v' q) l e

  -- Where the loop returns without an error, an occurrence that a listing gave as a discovery was
  -- fetched by its name with an analysis that had finished successfully.
  pub wait_rounds-Finished :
      (fuel next_try_wait : ℕ) (w w' : W)
      → wait_rounds get_occurrence find select_tick fuel none next_try_wait w ≡ some (ok tt, w')
      → Finished
  unfolding wait_rounds
  wait_rounds-Finished zero n w w' e = absurd (cc e)
  wait_rounds-Finished (suc fuel) n w w' e =
      found_round-Finished (wait_rounds get_occurrence find select_tick fuel) n (find w).0 w
        (find w).1 w' (λ m v v' q. wait_rounds-Finished fuel m v v' q)
        (λ o l. known-Finished fuel o l) refl e
