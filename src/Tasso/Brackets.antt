-- ===== src/Tasso/Brackets.antt =====
-- The default stop and target lie on the two sides of the entry.
use divap_trader.Base.{
  ℕ, ◌+◌, ◌*◌, ◌^◌, ◌<◌, ◌≡◌, refl, true, false, Bool, Option, arith, lt→ltb, ltb→lt, if◌then◌else◌,
  ap, sym, subst, ltb,
}
use divap_trader.Base.Int.{ℤ, pos, negsuc, pos_part, ◌*ℤ◌}
use divap_trader.Decimals.{Decimal, fixed, lt, is_pos, ◌⊗◌, ◌⊕◌, ◌⊖◌}
use divap_trader.Decimals.Order.{pow-pos}
use divap_trader.Decimals.Products.{pow-add, pos-*ℤ_parts}
use divap_trader.Data.Trades.{Direction}
use divap_trader.Tasso.Models.{is_purchase, default_stop, default_target}

less_product : (p n a b : ℕ) → 0 < p → 0 < n → a < b → n * a * p < n * (p * b)
less_product p n a b hp hn h = grind arith

more_product : (p n a b : ℕ) → 0 < p → 0 < n → b < a → n * (p * b) < n * a * p
more_product p n a b hp hn h = grind arith

shrinks :
    (n s k : ℕ)
    → 0 < n
    → k < 10 ^ 2
    → lt (record { num = pos n *ℤ pos k; scale = s + 2 }) (record { num = pos n; scale = s }) ≡ true
unfolding lt
shrinks n s k h b =
    rw ((pos-*ℤ_parts n (pos k)).0, (pos-*ℤ_parts n (pos k)).1, pow-add s 2)
      (lt→ltb _ _ (omega (arith, less_product (10 ^ s) n k (10 ^ 2) (pow-pos s) h b)))

grows :
    (n s k : ℕ)
    → 0 < n
    → 10 ^ 2 < k
    → lt (record { num = pos n; scale = s }) (record { num = pos n *ℤ pos k; scale = s + 2 }) ≡ true
unfolding lt
grows n s k h b =
    rw ((pos-*ℤ_parts n (pos k)).0, (pos-*ℤ_parts n (pos k)).1, pow-add s 2)
      (lt→ltb _ _ (omega (arith, more_product (10 ^ s) n k (10 ^ 2) (pow-pos s) h b)))

pos_num : (x : ℤ) → ltb 0 (pos_part x) ≡ true → (n : ℕ) × ((x ≡ pos n) × (0 < n))
pos_num (pos n) h = (n, (refl, ltb→lt 0 n h))
pos_num (negsuc n) h = ground arith

module _ (entry : Decimal) (p : is_pos entry ≡ true) where
  with_num : (n : ℕ) → entry.num ≡ pos n → entry ≡ record { num = pos n; scale = entry.scale }
  with_num n e = ap (λ x. record { num = x; scale = entry.scale }) e

  -- A factor of k hundredths.
  below_entry : (k : ℕ) → k < 10 ^ 2 → lt (entry ⊗ fixed k 2) entry ≡ true
  unfolding ◌⊗◌
  below_entry k h =
      let (n, (e, v)) = pos_num entry.num p in
      subst (λ x. lt (x ⊗ fixed k 2) x ≡ true) (sym (with_num n e)) (shrinks n entry.scale k v h)

  above_entry : (k : ℕ) → 10 ^ 2 < k → lt entry (entry ⊗ fixed k 2) ≡ true
  unfolding ◌⊗◌
  above_entry k h =
      let (n, (e, v)) = pos_num entry.num p in
      subst (λ x. lt x (x ⊗ fixed k 2) ≡ true) (sym (with_num n e)) (grows n entry.scale k v h)

bracket :
    (b : Bool) (entry low_stop high_stop low_target high_target : Decimal)
    → lt low_stop entry ≡ true
    → lt entry high_stop ≡ true
    → lt low_target entry ≡ true
    → lt entry high_target ≡ true
    → let stop = if b then low_stop else high_stop in
      let target = if b then high_target else low_target in
      if b
      then (lt stop entry ≡ true) × (lt entry target ≡ true)
      else (lt entry stop ≡ true) × (lt target entry ≡ true)
bracket true entry ls hs lo hi a b c d = (a, d)
bracket false entry ls hs lo hi a b c d = (b, c)

-- For a positive entry the default stop of a purchase lies below the entry and its default target above it;
-- for any other signal, one without a direction included, the stop lies above and the target below.
pub default_stop-target :
    (d : Option Direction) (entry : Decimal)
    → is_pos entry ≡ true
    → let stop = default_stop d entry in
      let target = default_target d entry in
      if is_purchase d
      then (lt stop entry ≡ true) × (lt entry target ≡ true)
      else (lt entry stop ≡ true) × (lt target entry ≡ true)
unfolding default_stop default_target ◌⊖◌ ◌⊕◌
default_stop-target d entry p =
    bracket (is_purchase d) entry _ _ _ _ (below_entry entry p 98 (omega arith))
      (above_entry entry p 102 (omega arith)) (below_entry entry p 97 (omega arith))
      (above_entry entry p 103 (omega arith))
