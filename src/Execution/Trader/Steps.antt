-- ===== src/Execution/Trader/Steps.antt =====
-- The steps of the executor: a world of the outside, the bankroll and the table of trades go through each.
-- A rule of each combinator proves what a step leaves, also where it raises.
use divap_trader.Base.{Bool, true, false, String, ◌≡◌, refl, sym, subst}
use divap_trader.Data.Trades.{Trades}
use divap_trader.Bankroll.Settings.{Bankroll}

-- An ExchangeError carries its text; any other exception is `raised`.
pub data Answer (A : Type 0) : Type 0 where
  returned : A → Answer A
  exchange_error : String → Answer A
  raised : Answer A

pub record TraderState (W : Type 0) : Type 0 where
  pub world : W
  pub bankroll : Bankroll
  pub trades : Trades

abbrev pub Step : Type 0 → Type 0 → Type 0
Step W A = TraderState W → Answer A × TraderState W

module _ {W : Type 0} where
  unfoldable pub done : {A : Type 0} → A → Step W A
  done a s = (returned a, s)

  unfoldable pub raise : {A : Type 0} → Step W A
  raise s = (raised, s)

  unfoldable pub next :
      {A B : Type 0} → Answer A × TraderState W → (A → Step W B) → Answer B × TraderState W
  next (returned a, s) f = f a s
  next (exchange_error e, s) f = (exchange_error e, s)
  next (raised, s) f = (raised, s)

  unfoldable pub and_then : {A B : Type 0} → Step W A → (A → Step W B) → Step W B
  unfolding next
  and_then m f s = next (m s) f

  -- A call of the outside.
  unfoldable pub call : {A : Type 0} → (W → Answer A × W) → Step W A
  call f s = let (a, w) = f s.world in (a, record s { world = w })

  -- A reading of the clock, which does not raise.
  unfoldable pub read : {A : Type 0} → (W → A × W) → Step W A
  read f s = let (a, w) = f s.world in (returned a, record s { world = w })

  unfoldable pub on_bankroll : {A : Type 0} → (Bankroll → A × Bankroll) → Step W A
  on_bankroll f s = let (a, b) = f s.bankroll in (returned a, record s { bankroll = b })

  unfoldable pub query : {A : Type 0} → (Trades → A) → Step W A
  query f s = (returned (f s.trades), s)

  unfoldable pub store : {A : Type 0} → (Trades → A × Trades) → Step W A
  store f s = let (a, t) = f s.trades in (returned a, record s { trades = t })

  unfoldable pub choose : {A : Type 0} → Bool → Step W A → Step W A → Step W A
  choose true m n = m
  choose false m n = n

  -- `except ExchangeError as exc`
  unfoldable pub caught :
      {A : Type 0} → (String → A) → Answer A × TraderState W → Answer A × TraderState W
  caught f (exchange_error e, s) = (returned (f e), s)
  caught f (returned a, s) = (returned a, s)
  caught f (raised, s) = (raised, s)

  unfoldable pub catching : {A : Type 0} → (String → A) → Step W A → Step W A
  unfolding caught
  catching f m s = caught f (m s)

  -- What holds of an answer and the state it leaves: `R` where it returns, `E` where it raises.
  abbrev pub Holds :
      {A : Type 0}
      → (A → TraderState W → Type 0)
      → (TraderState W → Type 0)
      → Answer A
      → TraderState W
      → Type 0
  Holds R E (returned a) s = R a s
  Holds R E (exchange_error e) s = E s
  Holds R E raised s = E s

-- From a state with P the step comes to one with R, or raises in one with E.
pub record Triple {W A : Type 0} (P : TraderState W → Type 0) (m : Step W A)
    (R : A → TraderState W → Type 0) (E : TraderState W → Type 0) : Type 0 where
  pub holds : (s : TraderState W) → P s → Holds R E (m s).0 (m s).1

module _ {W : Type 0} {E : TraderState W → Type 0} where
  pub done-Triple :
      {A : Type 0} {P : TraderState W → Type 0} {R : A → TraderState W → Type 0} (a : A)
      → ((s : TraderState W) → P s → R a s)
      → Triple P (done a) R E
  unfolding done
  done-Triple a h = record { holds = h }

  pub raise-Triple :
      {A : Type 0} {P : TraderState W → Type 0} {R : A → TraderState W → Type 0}
      → ((s : TraderState W) → P s → E s)
      → Triple P (raise {A = A}) R E
  unfolding raise
  raise-Triple h = record { holds = h }

  next-Holds :
      {A B : Type 0} {R : A → TraderState W → Type 0} {Q : B → TraderState W → Type 0}
      (r : Answer A × TraderState W) (f : A → Step W B)
      → ((a : A) → Triple (R a) (f a) Q E)
      → Holds R E r.0 r.1
      → Holds Q E (next r f).0 (next r f).1
  unfolding next
  next-Holds (returned a, s) f p h = (p a).holds s h
  next-Holds (exchange_error e, s) f p h = h
  next-Holds (raised, s) f p h = h

  pub and_then-Triple :
      {A B : Type 0} {P : TraderState W → Type 0} {R : A → TraderState W → Type 0}
      {Q : B → TraderState W → Type 0} {m : Step W A} {f : A → Step W B}
      → Triple P m R E
      → ((a : A) → Triple (R a) (f a) Q E)
      → Triple P (and_then m f) Q E
  unfolding and_then
  and_then-Triple {m} {f} p q = record { holds = λ s h. next-Holds (m s) f q (p.holds s h) }

  pub choose-Triple :
      {A : Type 0} {P : TraderState W → Type 0} {Q : A → TraderState W → Type 0} (b : Bool)
      {m n : Step W A}
      → (b ≡ true → Triple P m Q E)
      → (b ≡ false → Triple P n Q E)
      → Triple P (choose b m n) Q E
  unfolding choose
  choose-Triple true p q = p refl
  choose-Triple false p q = q refl

  caught-Holds :
      {A : Type 0} (Q : A → TraderState W → Type 0) (f : String → A) (r : Answer A × TraderState W)
      → ((e : String) (s : TraderState W) → E s → Q (f e) s)
      → Holds Q E r.0 r.1
      → Holds Q E (caught f r).0 (caught f r).1
  unfolding caught
  caught-Holds Q f (returned a, s) p h = h
  caught-Holds Q f (exchange_error e, s) p h = p e s h
  caught-Holds Q f (raised, s) p h = h

  pub catching-Triple :
      {A : Type 0} {P : TraderState W → Type 0} {Q : A → TraderState W → Type 0} (f : String → A)
      {m : Step W A}
      → ((e : String) (s : TraderState W) → E s → Q (f e) s)
      → Triple P m Q E
      → Triple P (catching f m) Q E
  unfolding catching
  catching-Triple f {m} p q = record { holds = λ s h. caught-Holds _ f (m s) p (q.holds s h) }

-- The table is `db`.
abbrev pub With : {W : Type 0} → Trades → TraderState W → Type 0
With db s = s.trades ≡ db

module _ {W : Type 0} {db : Trades} where
  call-Holds :
      {A : Type 0} (a : Answer A) (s : TraderState W)
      → With db s
      → Holds (λ a s. With db s) (With db) a s
  call-Holds (returned a) s h = h
  call-Holds (exchange_error e) s h = h
  call-Holds raised s h = h

  pub call-Triple :
      {A : Type 0} (f : W → Answer A × W) → Triple (With db) (call f) (λ a s. With db s) (With db)
  unfolding call
  call-Triple f = record {
    holds = λ s h. call-Holds (f s.world).0 (record s { world = (f s.world).1 }) h;
  }

  pub read-Triple :
      {A : Type 0} (f : W → A × W) → Triple (With db) (read f) (λ a s. With db s) (With db)
  unfolding read
  read-Triple f = record { holds = λ s h. h }

  pub on_bankroll-Triple :
      {A : Type 0} (f : Bankroll → A × Bankroll)
      → Triple {W = W} (With db) (on_bankroll f) (λ a s. With db s) (With db)
  unfolding on_bankroll
  on_bankroll-Triple f = record { holds = λ s h. h }

  -- The answer is that of the table.
  pub query_then-Triple :
      {A B : Type 0} {Q : B → TraderState W → Type 0} {E : TraderState W → Type 0} (f : Trades → A)
      (g : A → Step W B)
      → Triple (With db) (g (f db)) Q E
      → Triple (With db) (and_then (query f) g) Q E
  unfolding and_then query
  query_then-Triple {Q} {E} f g p = record {
    holds = λ s h. subst (λ t. Holds Q E (g (f t) s).0 (g (f t) s).1) (sym h) (p.holds s h);
  }

module _ {W : Type 0} where
  weaken-Holds :
      {A : Type 0} (R Q : A → TraderState W → Type 0) (E : TraderState W → Type 0) (a : Answer A)
      (s : TraderState W)
      → ((x : A) → R x s → Q x s)
      → Holds R E a s
      → Holds Q E a s
  weaken-Holds R Q E (returned a) s h r = h a r
  weaken-Holds R Q E (exchange_error e) s h r = r
  weaken-Holds R Q E raised s h r = r

  pub weaken-Triple :
      {A : Type 0} {P E : TraderState W → Type 0} {R Q : A → TraderState W → Type 0} {m : Step W A}
      → ((a : A) (s : TraderState W) → R a s → Q a s)
      → Triple P m R E
      → Triple P m Q E
  weaken-Triple {m} w p = record {
    holds = λ s h. weaken-Holds _ _ _ (m s).0 (m s).1 (λ a. w a (m s).1) (p.holds s h);
  }

  -- A fact that does not turn on the state.
  pub fact-Triple :
      {A : Type 0} {P E : TraderState W → Type 0} {Q : A → TraderState W → Type 0} {m : Step W A}
      (G : Type 0)
      → (G → Triple P m Q E)
      → Triple (λ s. P s × G) m Q E
  fact-Triple G p = record { holds = λ s h. (p h.1).holds s h.0 }
