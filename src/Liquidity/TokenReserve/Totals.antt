-- ===== src/Liquidity/TokenReserve/Totals.antt =====
-- The totals of `programs/liquidity/src/state/token_reserve.rs` after an amount moved, and the
-- utilization they give.
use fluid_solana_programs.Base.{
  ℕ, ◌+◌, ◌-◌, ◌*◌, ◌/◌, ◌≤◌, ◌<◌, ◌≡◌, suc, arith, ◌⊎◌, inl, inr, Option,
}
use native.Mathlib.Nat.{div-add-mod}
use fluid_solana_programs.Base.Int.{ℤ, pos, negsuc, pos_part, neg_part}
use fluid_solana_programs.Base.Result.{ok, Ensures}
use fluid_solana_programs.Math.Casting.{cast, cast_to_unsigned}
use fluid_solana_programs.Math.SafeMath
use fluid_solana_programs.Math.Signed
use fluid_solana_programs.Liquidity.Constants.{four_decimals, exchange_prices_precision}
use fluid_solana_programs.Liquidity.TokenReserve.{TokenReserve, moved_total}
use fluid_solana_programs.Liquidity.TokenReserve.Utilization.{calc_utilization}

pub moved_total-Ensures :
    (total : ℕ) (a : ℤ) → Ensures (λ t. t ≡ total + pos_part a - neg_part a) (moved_total total a)
unfolding moved_total cast_to_unsigned SafeMath.safe_add Signed.abs Signed.neg
moved_total-Ensures total (pos n) = ground arith
moved_total-Ensures total (negsuc n) = ground arith

-- What is supplied, with the interest, in 1e-12 of a token unit.
abbrev pub scaled_supply : TokenReserve → ℕ → ℕ
scaled_supply r price =
    r.total_supply_with_interest * price + r.total_supply_interest_free * exchange_prices_precision

-- What is borrowed, with the interest, in 1e-12 of a token unit.
abbrev pub scaled_borrow : TokenReserve → ℕ → ℕ
scaled_borrow r price =
    r.total_borrow_with_interest * price + r.total_borrow_interest_free * exchange_prices_precision

utilization_cases :
    (r : TokenReserve) (supply_price borrow_price : ℕ) (supply borrow : Option ℤ) {u : ℕ}
    → calc_utilization r supply_price borrow_price supply borrow ≡ ok u
    → ((scaled_supply r supply_price ≡ 0) × (u ≡ 0))
      ⊎ ((0 < scaled_supply r supply_price)
          × (u ≡ scaled_borrow r borrow_price * four_decimals / scaled_supply r supply_price))
unfolding calc_utilization cast SafeMath.safe_mul SafeMath.safe_add SafeMath.safe_div
utilization_cases r supply_price borrow_price supply borrow h = ground arith

floor_bounds : (a b c : ℕ) → 0 < b → c ≡ a / b → (c * b ≤ a) × (a < suc c * b)
floor_bounds a b c p e = rw e (grind (arith, div-add-mod a b))

-- Where `calc_utilization` returns a utilization, nothing is supplied and it is 0, or it is the
-- part of the supply that is borrowed in 1e-4, rounded down.
pub calc_utilization_floor :
    (r : TokenReserve) (supply_price borrow_price : ℕ) (supply borrow : Option ℤ) {u : ℕ}
    → calc_utilization r supply_price borrow_price supply borrow ≡ ok u
    → ((scaled_supply r supply_price ≡ 0) × (u ≡ 0))
      ⊎ ((u * scaled_supply r supply_price ≤ scaled_borrow r borrow_price * four_decimals)
          × (scaled_borrow r borrow_price * four_decimals < suc u * scaled_supply r supply_price))
calc_utilization_floor r supply_price borrow_price supply borrow {u} h =
    elim (utilization_cases r supply_price borrow_price supply borrow h) [
      | inl empty ↦ inl empty
      | inr (some_supply, found) ↦ inr (floor_bounds _ _ u some_supply found)
    ]
