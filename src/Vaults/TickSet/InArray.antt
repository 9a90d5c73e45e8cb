-- ===== src/Vaults/TickSet/InArray.antt =====
-- The search of one array (`TickHasDebtArray::fetch_next_top_tick` in
-- `programs/vaults/src/state/tick_has_debt.rs`), byte by byte and map by map, against the greatest
-- member of the set.
use native.Mathlib.Decide.{dec_le}
use fluid_solana_programs.Base.{
  ℕ, zero, suc, ◌∙◌, ◌+◌, ◌-◌, ◌*◌, ◌≤◌, ◌<◌, ◌≡◌, ◌≢◌, refl, arith, ◌==◌, Bool, true, false, some,
  inl, inr, Bool-cases,
}
use fluid_solana_programs.Base.Int.{ℤ, pos, ◌+ℤ◌}
use fluid_solana_programs.Base.Result.{Result, ok}
use fluid_solana_programs.Vaults.TickHasDebt.{
  TickHasDebtArray, any_byte, has_bits, tick_of_byte, next_tick_below, get_next_tick, or_lower,
  fetch_in_array, add_i32,
}
use fluid_solana_programs.Vaults.TickHasDebt.Indices.{cold_tick}
use fluid_solana_programs.Vaults.TickHasDebt.Bytes.{bit_of, leading_zeros_u8, top_bit, zero_byte}
use fluid_solana_programs.Vaults.TickHasDebt.Places.{tick_at, first_tick_of_map}
use fluid_solana_programs.Vaults.TickSet.{highest}
use fluid_solana_programs.Vaults.TickSet.Highest.{cong_highest, highest-skip, highest-hit}

-- A search of the places from `lo` to `hi` has the outcome `found`: the greatest member below `hi` is
-- there, or it is below `lo` and the search goes on with `lower`.
pub data Finds (p : ℕ → Bool) (lo hi : ℕ) (lower : Result (ℤ × Bool)) (found : Result (ℤ × Bool))
    : Type 0 where
  here : (g : ℕ) → highest p hi ≡ some g → found ≡ ok (tick_at g, true) → Finds p lo hi lower found
  passed : highest p hi ≡ highest p lo → found ≡ lower → Finds p lo hi lower found

add_i32-tick_at : (n k : ℕ) → n + k ≤ 32768 → add_i32 (tick_at n) (pos k) ≡ ok (tick_at (n + k))
unfolding ◌+ℤ◌
add_i32-tick_at n k h = ground arith

-- The places of byte `b` in map `m` of array `i`.
abbrev pub first_of_byte : ℕ → ℕ → ℕ → ℕ
first_of_byte i m b = 2048 * i + 256 * m + 8 * b

-- The bits of a map are the members of `p` among its places.
abbrev pub Agrees : (ℕ → Bool) → TickHasDebtArray → ℕ → ℕ → Type 0
Agrees p a i m =
    (b g : ℕ)
    → b < 32
    → first_of_byte i m b ≤ g
    → g < first_of_byte i m b + 8
    → p g ≡ bit_of (a.children_bits m b) (g - first_of_byte i m b)

module _ (p : ℕ → Bool) (a : TickHasDebtArray) (i m : ℕ) (in_i : i < 16) (in_m : m < 8)
    (index : a.index ≡ i) (bytes : (b : ℕ) → a.children_bits m b < 256)
    (agree : Agrees p a i m) where
  abbrev top : ℕ → ℕ
  top b = 7 - leading_zeros_u8 (a.children_bits m b)

  abbrev place : ℕ → ℕ
  place b = 2048 * i + 256 * m + (b * 8 + top b)

  tick_of_byte-tick_at : (b : ℕ) → b < 32 → tick_of_byte a m b ≡ ok (tick_at (place b), true)
  unfolding tick_of_byte
  tick_of_byte-tick_at b hb =
      rw
        (
          index,
          first_tick_of_map i m in_i in_m,
          add_i32-tick_at (2048 * i + 256 * m) (b * 8 + top b) (omega arith),
        )
        refl

  zero_byte_passed :
      (b : ℕ)
      → b < 32
      → a.children_bits m b ≡ 0
      → highest p (first_of_byte i m (suc b)) ≡ highest p (first_of_byte i m b)
  zero_byte_passed b hb zeros =
      highest-skip p (first_of_byte i m b) (first_of_byte i m (suc b)) (omega arith) (λ g lo hi.
        let off = zero_byte (g - first_of_byte i m b) (omega arith) in
        let at = agree b g hb lo (omega arith) in at ∙ rw zeros off)

  top_is_here : (b : ℕ) → b < 32 → a.children_bits m b ≢ 0 → p (place b) ≡ true
  top_is_here b hb bits =
      let t = top_bit (a.children_bits m b) 0 (bytes b) bits (omega arith) in
      let at = agree b (place b) hb (omega arith) (omega arith) in
      let same : place b - first_of_byte i m b ≡ top b = omega arith in at ∙ rw same t.1

  none_above :
      (b g : ℕ)
      → b < 32
      → a.children_bits m b ≢ 0
      → place b < g
      → g < first_of_byte i m (suc b)
      → p g ≡ false
  none_above b g hb bits lo hi =
      let t =
        top_bit (a.children_bits m b) (g - first_of_byte i m b) (bytes b) bits (omega arith) in
      let at = agree b g hb (omega arith) (omega arith) in ground (arith, t, at)

  byte_here :
      (b : ℕ)
      → b < 32
      → a.children_bits m b ≢ 0
      → highest p (first_of_byte i m (suc b)) ≡ some (place b)
  byte_here b hb bits =
      highest-hit p (place b) (first_of_byte i m (suc b)) (omega arith) (top_is_here b hb bits)
        (λ g lo hi. none_above b g hb bits lo hi)

  next_tick_below-Finds :
      (n : ℕ)
      → n ≤ 32
      → Finds p
          (first_of_byte i m 0)
          (first_of_byte i m n)
          (ok (cold_tick, false))
          (next_tick_below a m n)
  unfolding next_tick_below
  next_tick_below-Finds zero h = passed refl refl
  next_tick_below-Finds (suc n) h = elim (dec_le (a.children_bits m n) 0) [
    | yes none_set ↦
        let zeros : a.children_bits m n ≡ 0 = omega arith in
        elim (next_tick_below-Finds n (omega arith)) [
          | here g at found ↦ here g (zero_byte_passed n (omega arith) zeros ∙ at) (rw zeros found)
          | passed below found ↦
              passed (zero_byte_passed n (omega arith) zeros ∙ below) (rw zeros found)
        ]
    | no some_set ↦
        let bits : a.children_bits m n ≢ 0 = omega arith in
        here (place n) (byte_here n (omega arith) bits)
          (ground (arith, tick_of_byte-tick_at n (omega arith), bits))
  ]

  -- A map without a bit.
  any_byte_passed :
      (n : ℕ)
      → n ≤ 32
      → any_byte (a.children_bits m) n ≡ false
      → highest p (first_of_byte i m n) ≡ highest p (first_of_byte i m 0)
  unfolding any_byte
  any_byte_passed zero h none_set = refl
  any_byte_passed (suc n) h none_set =
      zero_byte_passed n (omega arith) (ground arith)
      ∙ any_byte_passed n (omega arith) (ground arith)

  pub or_lower-Finds :
      (lower : Result (ℤ × Bool))
      → Finds p (first_of_byte i m 0) (first_of_byte i m 32) lower (or_lower a m lower)
  unfolding or_lower has_bits get_next_tick
  or_lower-Finds lower = elim (Bool-cases (any_byte (a.children_bits m) 32)) [
    | inl some_set ↦ elim (next_tick_below-Finds 32 (omega arith)) [
      | here g at found ↦ here g at (ground (arith, found, some_set))
      | passed below found ↦ passed below (ground (arith, found, some_set))
    ]
    | inr none_set ↦ passed (any_byte_passed 32 (omega arith) none_set) (ground (arith, none_set))
  ]

-- The search of an array from a map downwards.
module _ (p : ℕ → Bool) (a : TickHasDebtArray) (i : ℕ) (in_i : i < 16) (index : a.index ≡ i)
    (bytes : (m b : ℕ) → a.children_bits m b < 256) (agree : (m : ℕ) → m < 8 → Agrees p a i m) where
  pub fetch_in_array-Finds :
      (m : ℕ)
      → m < 8
      → Finds p (2048 * i) (2048 * i + 256 * m + 256) (ok (cold_tick, i == 0)) (fetch_in_array a m)
  unfolding fetch_in_array
  fetch_in_array-Finds zero h =
      elim (or_lower-Finds p a i 0 in_i h index (bytes 0) (agree 0 h)
        (ok (cold_tick, a.index == 0))) [
          | here g at found ↦
              here g
                (cong_highest p (2048 * i + 256 * 0 + 256) (first_of_byte i 0 32) (omega arith)
                  ∙ at)
                found
          | passed below found ↦
              passed
                (cong_highest p (2048 * i + 256 * 0 + 256) (first_of_byte i 0 32) (omega arith)
                  ∙ below
                  ∙ cong_highest p (first_of_byte i 0 0) (2048 * i) (omega arith))
                (found ∙ rw index refl)
        ]
  fetch_in_array-Finds (suc m) h =
      let same =
        cong_highest p (2048 * i + 256 * suc m + 256) (first_of_byte i (suc m) 32) (omega arith) in
      let next =
        cong_highest p (first_of_byte i (suc m) 0) (2048 * i + 256 * m + 256) (omega arith) in
      elim (or_lower-Finds p a i (suc m) in_i h index (bytes (suc m)) (agree (suc m) h)
        (fetch_in_array a m)) [
          | here g at found ↦ here g (same ∙ at) found
          | passed below found ↦ elim (fetch_in_array-Finds m (omega arith)) [
            | here g at below_found ↦ here g (same ∙ below ∙ next ∙ at) (found ∙ below_found)
            | passed lower below_found ↦ passed (same ∙ below ∙ next ∙ lower) (found ∙ below_found)
          ]
        ]
