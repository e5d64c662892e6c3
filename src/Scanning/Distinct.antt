-- ===== src/Scanning/Distinct.antt =====
-- Which profiles are planned, and how often.
use divap_trader.Base.{
  ◌≡◌, ◌⊎◌, inl, inr, refl, sym, ap, ◌∙◌, String, Bool, true, false, Option, none, some, List, [],
  ◌∷◌, ◌&&◌, ◌||◌, not, text_in, arith, if_split, str_eq, eq_iff, Bool-cases,
}
use divap_trader.Profiles.Models.{TradingProfile}
use divap_trader.Bankroll.Settings.{Bankroll, get_settings}
use divap_trader.Scanning.Plan.{
  ScanPlan, is_scanned, plan_if_scanned, plans_of, fallback, get_active_scan_plan,
  get_active_scan_plans,
}

abbrev pub ids_of : List ScanPlan → List String
ids_of [] = []
ids_of (plan ∷ plans) = plan.profile_id ∷ ids_of plans

-- No text stands twice in the list.
abbrev pub Distinct : List String → Type 0
Distinct [] = Unit
Distinct (x ∷ xs) = (text_in x xs ≡ false) × Distinct xs

abbrev pub is_scanned_or : Option TradingProfile → Bool
is_scanned_or none = false
is_scanned_or (some profile) = is_scanned profile

in_if :
    (id x : String) (o : Option TradingProfile) (plans : List ScanPlan)
    → ((profile : TradingProfile) → o ≡ some profile → profile.id ≡ x)
    → text_in id (ids_of (plan_if_scanned o plans))
      ≡ ((str_eq id x && is_scanned_or o) || text_in id (ids_of plans))
in_if id x none plans named = ground arith
in_if id x (some profile) plans named = ground (arith, named profile refl)

if-Distinct :
    (x : String) (o : Option TradingProfile) (plans : List ScanPlan)
    → ((profile : TradingProfile) → o ≡ some profile → profile.id ≡ x)
    → text_in x (ids_of plans) ≡ false
    → Distinct (ids_of plans)
    → Distinct (ids_of (plan_if_scanned o plans))
if-Distinct x none plans named h d = d
if-Distinct x (some profile) plans named h d =
    if_split (λ ps. Distinct (ids_of ps)) (is_scanned profile)
      (λ e. (ap (λ t. text_in t (ids_of plans)) (named profile refl) ∙ h, d)) (λ e. d)

same_in : (id x : String) (xs : List String) → str_eq id x ≡ true → text_in id xs ≡ text_in x xs
same_in id x xs h = ap (λ t. text_in t xs) ((eq_iff id x).0 h)

-- What get_active_scan_plans gives for the active ids: no profile twice; and either the active profiles that
-- are scanned, and no other, or, where there is none of these, the one plan of get_active_scan_plan.
abbrev pub IsSchedule :
    (String → Option TradingProfile) → List String → ScanPlan → List ScanPlan → Type 0
IsSchedule load active substitute plans =
    Distinct (ids_of plans)
    × (((id : String) → text_in id (ids_of plans) ≡ (text_in id active && is_scanned_or (load id)))
        ⊎ (((id : String) → (text_in id active && is_scanned_or (load id)) ≡ false)
            × (plans ≡ substitute ∷ [])))

module _ (load : String → Option TradingProfile)
    (named : (id : String) (profile : TradingProfile)
      → load id ≡ some profile
      → profile.id ≡ id) where
  planned :
      (id : String) (seen ids : List String)
      → text_in id (ids_of (plans_of load seen ids))
        ≡ (text_in id ids && (not (text_in id seen) && is_scanned_or (load id)))
  unfolding plans_of
  planned id seen [] = ground arith
  planned id seen (x ∷ xs) =
      let step = in_if id x (load x) (plans_of load (x ∷ seen) xs) (named x) in
      elim (Bool-cases (str_eq id x)) [
        | inl h ↦ ground (
          arith,
          h,
          planned id seen xs,
          planned id (x ∷ seen) xs,
          step,
          same_in id x seen h,
          ap (λ t. is_scanned_or (load t)) ((eq_iff id x).0 h),
        )
        | inr h ↦ ground (arith, h, planned id seen xs, planned id (x ∷ seen) xs, step)
      ]

  not_planned :
      (x : String) (seen ids : List String)
      → text_in x (ids_of (plans_of load (x ∷ seen) ids)) ≡ false
  not_planned x seen ids = ground (arith, planned x (x ∷ seen) ids, (eq_iff x x).1 refl)

  plans_of-Distinct : (seen ids : List String) → Distinct (ids_of (plans_of load seen ids))
  unfolding plans_of
  plans_of-Distinct seen [] = tt
  plans_of-Distinct seen (x ∷ xs) =
      if_split (λ ps. Distinct (ids_of ps)) (text_in x seen) (λ e. plans_of-Distinct seen xs)
        (λ e.
          if-Distinct x (load x) (plans_of load (x ∷ seen) xs) (named x) (not_planned x seen xs)
            (plans_of-Distinct (x ∷ seen) xs))

  schedule :
      (period : String) (db : Bankroll) (active : List String) (plans : List ScanPlan)
      → Distinct (ids_of plans)
      → ((id : String) → text_in id (ids_of plans) ≡ (text_in id active && is_scanned_or (load id)))
      → IsSchedule load active
          (get_active_scan_plan load period db).0
          (fallback load period plans db).0
  schedule period db active [] d p = ((refl, tt), inr ((λ id. sym (p id)), refl))
  schedule period db active (plan ∷ plans) d p = (d, inl p)

  -- The scanner has a plan at least, and none twice: the plans are those of the active profiles whose scan is
  -- enabled and whose kind is neither otc nor tasso, or, where no active profile is such, the plan of
  -- get_active_scan_plan alone; provided that a loaded profile carries the id it was loaded by.
  pub get_active_scan_plans-IsSchedule :
      (period period_later : String) (db : Bankroll)
      → let (settings, stored) = get_settings period db in
        IsSchedule load settings.active_profile_ids
          (get_active_scan_plan load period_later stored).0
          (get_active_scan_plans load period period_later db).0
  unfolding get_active_scan_plans
  get_active_scan_plans-IsSchedule period period_later db =
      let (settings, stored) = get_settings period db in
      let ids = settings.active_profile_ids in
      schedule period_later stored ids (plans_of load [] ids) (plans_of-Distinct [] ids)
        (λ id. planned id [] ids)
