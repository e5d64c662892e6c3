-- ===== src/Scanning/Spacing.antt =====
-- The scans of a profile are as far apart as its interval asks.
use divap_trader.Base.{
  ℕ, ◌≤◌, ◌≡◌, ◌⊎◌, inl, inr, refl, String, Bool, true, false, Option, none, some, List, [], ◌∷◌,
  ◌&&◌, arith, str_eq, eq_iff, ap, ◌∙◌, any, if◌then◌else◌, if_split,
}
use divap_trader.Base.Int.{ℤ, pos, -ℤ_parts}
use divap_trader.Data.Trades.{Instant}
use divap_trader.Profiles.Models.{TradingProfile}
use divap_trader.Bankroll.Settings.{Bankroll}
use divap_trader.Scanning.Plan.{
  get_active_scan_plans, ScanPlan, should_run_interval, should_run_scan,
}
use divap_trader.Scanning.Pass.{
  ScanPorts, ScanState, ScanReport, get_last_scan_at, record_scan, scan_plan, scan_due,
  scan_all_symbols,
}

-- A clock that does not run back, nor is turned back by a scan: `reading` is the time of the world.
pub record IsSteady {W : Type 0} (x : ScanPorts W) : Type 0 where
  pub reading : W → ℕ
  pub now_after : (w : W) → reading w ≤ (x.now w).0
  pub now_before : (w : W) → (x.now w).0 ≤ reading (x.now w).1
  pub scan_later : (plan : ScanPlan) (w : W) → reading w ≤ reading (x.run_divap_scan plan w).1

-- An interval that has passed stays so.
should_run_later :
    (interval : ℤ) (last : Option Instant) (t u : Instant)
    → t ≤ u
    → should_run_interval interval last t ≡ true
    → should_run_interval interval last u ≡ true
unfolding should_run_interval
should_run_later interval none t u h r = refl
should_run_later interval (some last) t u h r =
    ground (arith, h, r, -ℤ_parts (pos t) (pos last), -ℤ_parts (pos u) (pos last))

-- The plan is one of the profile, and its interval has passed between the two times.
abbrev pub allows : String → Option Instant → Instant → ScanPlan → Bool
allows id before after plan =
    str_eq id plan.profile_id && should_run_interval plan.interval_seconds before after

-- The time of the profile is the one of before, or one since the start that a plan of the profile allows.
abbrev pub Spaced : String → List ScanPlan → ℕ → Option Instant → Option Instant → Type 0
Spaced id plans start before after =
    (after ≡ before)
    ⊎ ((t : Instant) × ((after ≡ some t) × ((start ≤ t) × (any (allows id before t) plans ≡ true))))

after_skip :
    (id : String) (plan : ScanPlan) (plans : List ScanPlan) (start start' : ℕ)
    (before after : Option Instant)
    → start ≤ start'
    → Spaced id plans start' before after
    → Spaced id (plan ∷ plans) start before after
after_skip id plan plans start start' before after h (inl e) = inl e
after_skip id plan plans start start' before after h (inr (t, (e, (l, a)))) =
    inr (t, (e, (omega (arith, h, l), ground (arith, a))))

head_allows :
    (id : String) (plan : ScanPlan) (plans : List ScanPlan) (at t : ℕ) (before : Option Instant)
    → str_eq id plan.profile_id ≡ true
    → should_run_interval plan.interval_seconds before at ≡ true
    → at ≤ t
    → any (allows id before t) (plan ∷ plans) ≡ true
head_allows id plan plans at t before e r h =
    ground (arith, e, should_run_later plan.interval_seconds before at t h r)

module _ (id : String) (plan : ScanPlan) (plans : List ScanPlan) (start at t2 start' : ℕ)
    (before after : Option Instant) (h1 : start ≤ at) (h2 : at ≤ t2) (h3 : t2 ≤ start') where
  after_scan :
      (b : Bool)
      → str_eq id plan.profile_id ≡ b
      → (b ≡ true → should_run_interval plan.interval_seconds before at ≡ true)
      → Spaced id plans start' (if b then some t2 else before) after
      → Spaced id (plan ∷ plans) start before after
  after_scan true e due (inl s) =
      inr (t2, (s, (omega arith, head_allows id plan plans at t2 before e (due refl) h2)))
  after_scan true e due (inr (t, (s, (l, a)))) =
      inr (t, (s, (omega arith, head_allows id plan plans at t before e (due refl) (omega arith))))
  after_scan false e due s = after_skip id plan plans start start' before after (omega arith) s

module _ {W : Type 0} (x : ScanPorts W) (c : IsSteady x) (id : String) where
  scan_due-Spaced :
      (plans : List ScanPlan) (w : W) (s : ScanState)
      → Spaced id plans
          (c.reading w)
          (get_last_scan_at id s)
          (get_last_scan_at id (scan_due x plans (w, s)).1.1)
  unfolding scan_due scan_plan get_last_scan_at record_scan should_run_scan
  scan_due-Spaced [] w s = inl refl
  scan_due-Spaced (plan ∷ plans) w s =
      let at = (x.now w).0 in
      let w1 = (x.now w).1 in
      let w2 = (x.run_divap_scan plan w1).1 in
      if_split
        (λ (r : ScanReport × (W × ScanState)).
          Spaced id (plan ∷ plans) (c.reading w) (get_last_scan_at id s)
            (get_last_scan_at id r.1.1))
        (should_run_scan plan (get_last_scan_at plan.profile_id s) at)
        (λ due.
          after_scan id plan plans (c.reading w) at (x.now w2).0 (c.reading (x.now w2).1) _ _
            (c.now_after w) (omega (arith, c.now_before w, c.scan_later plan w1, c.now_after w2))
            (c.now_before w2) (str_eq id plan.profile_id) refl
            (λ e.
              ap (λ t. should_run_interval plan.interval_seconds (get_last_scan_at t s) at)
                ((eq_iff id plan.profile_id).0 e)
              ∙ due)
            (scan_due-Spaced plans (x.now w2).1
              (record_scan plan.profile_id (x.run_divap_scan plan w1).0 (x.now w2).0 s)))
        (λ e.
          after_skip id plan plans (c.reading w) (c.reading w1) _ _
            (omega (arith, c.now_after w, c.now_before w)) (scan_due-Spaced plans w1 s))

  -- On a clock that does not run back, the pass changes the time of the last scan of a profile only to one
  -- since its start, and only where a plan of that profile allows it: between the two times the interval of
  -- the plan has passed, unless there was no time before.
  pub scan_all_symbols-Spaced :
      (load : String → Option TradingProfile) (period period_later : String) (w : W) (s : ScanState)
      (db : Bankroll)
      → Spaced id
          (get_active_scan_plans load period period_later db).0
          (c.reading w)
          (get_last_scan_at id s)
          (get_last_scan_at id (scan_all_symbols x load period period_later ((w, s), db)).1.0.1)
  unfolding scan_all_symbols
  scan_all_symbols-Spaced load period period_later w s db =
      scan_due-Spaced (get_active_scan_plans load period period_later db).0 w s
