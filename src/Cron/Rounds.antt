-- ===== src/Cron/Rounds.antt =====
-- What one check of the pods does, and what the background check does round by round
-- (pkg/kritis/cron/cron.go).
use kritis.Base.{
  ℕ, zero, suc, ◌<◌, ◌≡◌, ◌≢◌, refl, ◌⊎◌, Bool, true, false, Option, none, some, List, [], ◌∷◌,
}
use kritis.Base.Result.{
  Error, Result, ok, err, panicked, external, errorf, wrap, errorf_count, rejected, caught, Done,
}
use kritis.Base.Exec.{Exec, ◌>>=◌, continue}
use kritis.Base.Run.{Run}
use kritis.Resources.{ImageSecurityPolicy, Workload}
use kritis.Admission.{workload_images}
use kritis.Cron.{ℤ, CronConfig, check_listed, check_each, check_pods, check_round}

module _ {W : Type 0} (cfg : CronConfig W) (isps : List ImageSecurityPolicy) where
  -- The world after the reviews of pods, one after the other, whatever they return.
  abbrev pub reviewed : List Workload → W → W
  reviewed [] w = w
  reviewed (p ∷ ps) w = reviewed ps (cfg.review_isp (workload_images p) isps (some p) w).1

  -- The check of some of the policies, from a world to a result and a world: for each policy the pods of
  -- its namespace are listed in the world that the reviews before have left, and are reviewed; a
  -- listing that fails ends the check.
  pub data Checks : List ImageSecurityPolicy → W → Result Done × W → Type 0 where
    all_checked : (w : W) → Checks [] w (ok tt, w)
    unlisted :
        (isp : ImageSecurityPolicy) (rest : List ImageSecurityPolicy) (w : W) (e : Error)
        → (cfg.pod_lister isp.namespace w).0 ≡ err e
        → Checks (isp ∷ rest) w (err e, (cfg.pod_lister isp.namespace w).1)
    checked :
        (isp : ImageSecurityPolicy) (rest : List ImageSecurityPolicy) (w : W) (ps : List Workload)
        (o : Result Done × W)
        → (cfg.pod_lister isp.namespace w).0 ≡ ok ps
        → Checks rest (reviewed ps (cfg.pod_lister isp.namespace w).1) o
        → Checks (isp ∷ rest) w o

  -- A returned error that is not a panic is passed over.
  passed_over :
      {A B : Type 0} (r : Result A) (f : Result A → Exec W B) (w : W) (o : Result B × W)
      → r ≢ err panicked
      → ((s : Result A) → f s w ≡ o)
      → continue (caught r) f w ≡ o
  passed_over (ok a) f w o n h = h (ok a)
  passed_over (err panicked) f w o n h = absurd (n refl)
  passed_over (err (external s)) f w o n h = h (err (external s))
  passed_over (err (errorf s a)) f w o n h = h (err (errorf s a))
  passed_over (err (wrap s a e)) f w o n h = h (err (wrap s a e))
  passed_over (err (errorf_count s c)) f w o n h = h (err (errorf_count s c))
  passed_over (err (rejected b m)) f w o n h = h (err (rejected b m))

  module _
      (calm : (p : Workload) (w : W)
        → (cfg.review_isp (workload_images p) isps (some p) w).0 ≢ err panicked) where
    check_listed-reviewed :
        (ps : List Workload) (w : W) → check_listed cfg isps ps w ≡ (ok tt, reviewed ps w)
    unfolding check_listed
    check_listed-reviewed [] w = refl
    check_listed-reviewed (p ∷ ps) w =
        passed_over (cfg.review_isp (workload_images p) isps (some p) w).0
          (λ r. check_listed cfg isps ps) (cfg.review_isp (workload_images p) isps (some p) w).1
          (ok tt, reviewed (p ∷ ps) w) (calm p w)
          (λ s. check_listed-reviewed ps (cfg.review_isp (workload_images p) isps (some p) w).1)

    listed-Checks :
        (isp : ImageSecurityPolicy) (rest : List ImageSecurityPolicy) (w : W)
        (r : Result (List Workload))
        → (cfg.pod_lister isp.namespace w).0 ≡ r
        → ((v : W) → Checks rest v (check_each cfg isps rest v))
        → Checks (isp ∷ rest) w (
            continue r
              (λ ps. check_listed cfg isps ps >>= λ done. check_each cfg isps rest)
              (cfg.pod_lister isp.namespace w).1)
    listed-Checks isp rest w (err e) l h = Checks.unlisted isp rest w e l
    listed-Checks isp rest w (ok ps) l h = Checks.checked isp rest w ps _ l (
        rw (check_listed-reviewed ps (cfg.pod_lister isp.namespace w).1)
          (h (reviewed ps (cfg.pod_lister isp.namespace w).1)))

    check_each-Checks :
        (rest : List ImageSecurityPolicy) (w : W) → Checks rest w (check_each cfg isps rest w)
    unfolding check_each
    check_each-Checks [] w = Checks.all_checked w
    check_each-Checks (isp ∷ rest) w =
        listed-Checks isp rest w (cfg.pod_lister isp.namespace w).0 refl (check_each-Checks rest)

    -- Where no review panics, CheckPods goes through its policies in order: it lists the pods of a
    -- policy's namespace in the world that the reviews before have left, and reviews each of them
    -- against all the policies, whatever these reviews return; a listing that fails ends it with its
    -- error, and otherwise it returns no error.
    pub check_pods-Checks : (w : W) → Checks isps w (check_pods cfg isps w)
    unfolding check_pods
    check_pods-Checks w = check_each-Checks isps w

module _ {W : Type 0} (cfg : CronConfig W) (select : ℤ → W → Bool × W) (check_interval : ℤ) where
  -- The world after a tick and the check that it leads to.
  abbrev pub after_check : W → W
  after_check w = (check_round cfg (select check_interval w).1).1

  -- So many ticks lead from a world to another, each with a check that did not panic.
  abbrev pub Ticks : ℕ → W → W → Type 0
  Ticks zero w v = w ≡ v
  Ticks (suc n) w v =
      ((select check_interval w).0 ≡ true)
      × ((r : Result Done) × ((check_round cfg (select check_interval w).1).0 ≡ ok r))
      × Ticks n (after_check w) v

  -- In this world the loop ended: its context was done, or the check of a tick panicked.
  abbrev pub EndedAt : W → Option (Result Done × W) → Type 0
  EndedAt v o =
      (((select check_interval v).0 ≡ false) × (o ≡ some (ok tt, (select check_interval v).1)))
      ⊎ (((select check_interval v).0 ≡ true)
          × ((e : Error) × ((check_round cfg (select check_interval v).1).0 ≡ err e)
              × (o ≡ some (err e, after_check v))))

  -- All rounds were used for ticks, or fewer, and then the loop ended.
  abbrev pub Ran : ℕ → W → Option (Result Done × W) → Type 0
  Ran fuel w o =
      ((v : W) × Ticks fuel w v × (o ≡ none))
      ⊎ ((n : ℕ) × (v : W) × (n < fuel) × Ticks n w v × EndedAt v o)
