-- ===== src/Otc/Session/Snapshot.antt =====
-- The session of a day is made once, from a positive balance, and then kept for that date.
use divap_trader.Base.{
  ◌⊎◌, ap, ◌==◌, ◌≡◌, ◌≢◌, refl, inl, inr, ◌∙◌, sym, true, Option, none, some, [], ◌∷◌, ◌++◌, arith,
  if◌then◌else◌, Option-cases,
}
use divap_trader.Decimals.{Decimal, is_pos}
use divap_trader.Data.Trades.{Instant}
use divap_trader.Otc.Models.{OtcSettingsRecord}
use divap_trader.Otc.Stake.{compute_session_limits}
use divap_trader.Otc.Session.Defs.{
  with_source, live, fallback, balance_of, positive, get_latest, OtcDailySessionRecord, Sessions,
  Date, Source, get_for_date, upsert, build_session_from_balance, resolve_reference_balance,
  store_session, create_session, ensure_daily_session,
}

-- The balance that a session is built from is positive.
pub resolve_reference_balance-pos :
    (settings : OtcSettingsRecord) (fetched : Option Decimal) (sessions : Sessions) {b : Decimal}
    {src : Source}
    → resolve_reference_balance settings fetched sessions ≡ some (b, src)
    → is_pos b ≡ true
unfolding resolve_reference_balance
resolve_reference_balance-pos settings fetched sessions h = ground arith

get_for_date-append :
    (d : Date) (ss : Sessions) (s : OtcDailySessionRecord)
    → get_for_date d (ss ++ s ∷ []) ≡ (elim (get_for_date d ss) [
      | some t ↦ some t
      | none ↦ if s.session_date == d then some s else none
    ])
unfolding get_for_date
get_for_date-append d [] s = refl
get_for_date-append d (x ∷ ss) s = ground (arith, get_for_date-append d ss s)

build-date :
    (d : Date) (b : Decimal) (settings : OtcSettingsRecord) (src : Source) (at : Instant)
    {s : OtcDailySessionRecord}
    → build_session_from_balance d b settings src at ≡ some s
    → s.session_date ≡ d
unfolding build_session_from_balance
build-date d b settings src at h = ground arith

-- What a stored session is found as.
store_session-found :
    (d : Date) (sessions : Sessions) (o : Option OtcDailySessionRecord)
    → ((s : OtcDailySessionRecord) → o ≡ some s → s.session_date ≡ d)
    → get_for_date d sessions ≡ none
    → {r : OtcDailySessionRecord} → (store_session sessions o).0 ≡ some r
    → get_for_date d (store_session sessions o).1 ≡ some r
unfolding store_session upsert
store_session-found d sessions none date fresh h = cc
store_session-found d sessions (some s) date fresh h =
    ground (arith, date s refl, get_for_date-append d sessions s)

create_session-found :
    (settings : OtcSettingsRecord) (d : Date) (at : Instant) (sessions : Sessions)
    (o : Option (Decimal × Source))
    → get_for_date d sessions ≡ none
    → {r : OtcDailySessionRecord} → (create_session settings d at sessions o).0 ≡ some r
    → get_for_date d (create_session settings d at sessions o).1 ≡ some r
unfolding create_session
create_session-found settings d at sessions none fresh h = cc
create_session-found settings d at sessions (some (b, src)) fresh h =
    store_session-found d sessions (build_session_from_balance d b settings src at)
      (λ s e. build-date d b settings src at e) fresh h

-- The session that `ensure_daily_session` returns is the one stored for the date afterwards.
ensure_daily_session-found :
    (settings : OtcSettingsRecord) (d : Date) (fetched : Option Decimal) (at : Instant)
    (sessions : Sessions) {s : OtcDailySessionRecord}
    → (ensure_daily_session settings d fetched at sessions).0 ≡ some s
    → get_for_date d (ensure_daily_session settings d fetched at sessions).1 ≡ some s
unfolding ensure_daily_session
ensure_daily_session-found settings d fetched at sessions h =
    elim (Option-cases (get_for_date d sessions)) [
      | inl fresh ↦ rw fresh (create_session-found settings d at sessions _ fresh (rw fresh at h))
      | inr (old, e) ↦ rw e (e ∙ (rw e at h))
    ]

ensure_existing :
    (settings : OtcSettingsRecord) (d : Date) (fetched : Option Decimal) (at : Instant)
    (sessions : Sessions) {s : OtcDailySessionRecord}
    → get_for_date d sessions ≡ some s
    → ensure_daily_session settings d fetched at sessions ≡ (some s, sessions)
unfolding ensure_daily_session
ensure_existing settings d fetched at sessions e = rw e

-- Once a day has its session, later calls for that day return it unchanged and leave the table alone,
-- whatever the settings, the fetched balance and the time have become.
pub ensure_daily_session_locks :
    (settings settings' : OtcSettingsRecord) (d : Date) (fetched fetched' : Option Decimal)
    (at at' : Instant) (sessions : Sessions) {s : OtcDailySessionRecord}
    → (ensure_daily_session settings d fetched at sessions).0 ≡ some s
    → let after = (ensure_daily_session settings d fetched at sessions).1 in
      ensure_daily_session settings' d fetched' at' after ≡ (some s, after)
ensure_daily_session_locks settings settings' d fetched fetched' at at' sessions h =
    ensure_existing settings' d fetched' at' _
      (ensure_daily_session-found settings d fetched at sessions h)

build_not_none :
    (d : Date) (b : Decimal) (settings : OtcSettingsRecord) (src : Source) (at : Instant)
    → is_pos b ≡ true
    → build_session_from_balance d b settings src at ≢ none
unfolding build_session_from_balance compute_session_limits
build_not_none d b settings src at p h = ground arith

store_total :
    (sessions : Sessions) (o : Option OtcDailySessionRecord)
    → o ≢ none
    → (store_session sessions o).0 ≢ none
unfolding store_session
store_total sessions none h e = h refl
store_total sessions (some s) h e = cc

resolved_later :
    (source : Source) (o : Option Decimal) (other : Option (Decimal × Source))
    {x : Decimal × Source}
    → other ≡ some x
    → (y : Decimal × Source) × (with_source source o other ≡ some y)
resolved_later source none other {x} e = (x, e)
resolved_later source (some b) other e = ((b, source), refl)

resolved_here :
    (source : Source) (o : Option Decimal) (other : Option (Decimal × Source)) {b : Decimal}
    → is_pos b ≡ true
    → o ≡ some b
    → (y : Decimal × Source) × (with_source source (positive o) other ≡ some y)
resolved_here source o other {b} p e = ((b, source), rw e (rw p refl))

-- A positive balance to refer to: the fetched one, the configured one, or that of the latest session.
abbrev pub IsKnown : OtcSettingsRecord → Option Decimal → Sessions → Decimal → Type 0
IsKnown settings fetched sessions b =
    (fetched ≡ some b)
    ⊎ (settings.initial_bankroll_usd ≡ some b)
    ⊎ ((s : OtcDailySessionRecord) × ((get_latest sessions ≡ some s)
          × (s.reference_balance_usd ≡ b)))

resolve_reference_balance_known :
    (settings : OtcSettingsRecord) (fetched : Option Decimal) (sessions : Sessions) (b : Decimal)
    → is_pos b ≡ true
    → IsKnown settings fetched sessions b
    → (y : Decimal × Source) × (resolve_reference_balance settings fetched sessions ≡ some y)
unfolding resolve_reference_balance
resolve_reference_balance_known settings fetched sessions b p (inl e) =
    resolved_here live fetched _ p e
resolve_reference_balance_known settings fetched sessions b p (inr (inl e)) =
    resolved_later live (positive fetched) _
      (resolved_here fallback settings.initial_bankroll_usd _ p e).1
resolve_reference_balance_known settings fetched sessions b p (inr (inr (s, (e, k)))) =
    resolved_later live (positive fetched) _
      (resolved_later fallback (positive settings.initial_bankroll_usd) _
        (resolved_here fallback (balance_of (get_latest sessions)) none p
          (ap balance_of e ∙ ap some k)).1).1

total_with :
    (settings : OtcSettingsRecord) (d : Date) (fetched : Option Decimal) (at : Instant)
    (sessions : Sessions) {b : Decimal} {src : Source}
    → resolve_reference_balance settings fetched sessions ≡ some (b, src)
    → (ensure_daily_session settings d fetched at sessions).0 ≢ none
unfolding ensure_daily_session create_session
total_with settings d fetched at sessions {b} {src} h =
    elim (Option-cases (get_for_date d sessions)) [
      | inl fresh ↦
          rw (fresh, h)
            (store_total sessions _ (
              build_not_none d b settings src at
                (resolve_reference_balance-pos settings fetched sessions h)))
      | inr (old, e) ↦ rw e (λ p. cc)
    ]

-- With a positive balance to refer to (fetched, configured, or of the latest session) there is a session: no
-- step raises.
pub ensure_daily_session_total :
    (settings : OtcSettingsRecord) (d : Date) (fetched : Option Decimal) (at : Instant)
    (sessions : Sessions) (b : Decimal)
    → is_pos b ≡ true
    → IsKnown settings fetched sessions b
    → (ensure_daily_session settings d fetched at sessions).0 ≢ none
ensure_daily_session_total settings d fetched at sessions b p k =
    total_with settings d fetched at sessions
      (resolve_reference_balance_known settings fetched sessions b p k).1

store_others :
    (k : Date) (sessions : Sessions) (o : Option OtcDailySessionRecord)
    → ((s : OtcDailySessionRecord) → o ≡ some s → s.session_date ≢ k)
    → get_for_date k (store_session sessions o).1 ≡ get_for_date k sessions
unfolding store_session upsert
store_others k sessions none h = refl
store_others k sessions (some s) h = ground (arith, h s refl, get_for_date-append k sessions s)

-- The sessions of other dates stay what they were.
pub ensure_daily_session_others :
    (settings : OtcSettingsRecord) (d k : Date) (fetched : Option Decimal) (at : Instant)
    (sessions : Sessions)
    → k ≢ d
    → get_for_date k (ensure_daily_session settings d fetched at sessions).1
      ≡ get_for_date k sessions
unfolding ensure_daily_session
ensure_daily_session_others settings d k fetched at sessions ne =
    elim (Option-cases (get_for_date d sessions)) [
      | inl fresh ↦ rw fresh (created (resolve_reference_balance settings fetched sessions))
      | inr (old, e) ↦ rw e
    ]
  where
    created :
        (o : Option (Decimal × Source))
        → get_for_date k (create_session settings d at sessions o).1 ≡ get_for_date k sessions
    created none = refl
    created (some (b, src)) =
        store_others k sessions (build_session_from_balance d b settings src at)
          (λ s e q. ne (sym q ∙ build-date d b settings src at e))
