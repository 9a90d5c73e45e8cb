-- ===== src/Vaults/TickSet/Highest.antt =====
-- The greatest member of a set below a place, over a run of places that are not in it.
use fluid_solana_programs.Base.{
  ℕ, zero, suc, ◌≤◌, ◌<◌, ◌≡◌, refl, arith, Bool, true, false, none, some,
}
use native.Mathlib.Decide.{dec_le}
use fluid_solana_programs.Vaults.TickSet.{highest}

pub cong_highest : (p : ℕ → Bool) (m n : ℕ) → m ≡ n → highest p m ≡ highest p n
cong_highest p m n eq = cc

pub highest-skip :
    (p : ℕ → Bool) (lo hi : ℕ)
    → lo ≤ hi
    → ((j : ℕ) → lo ≤ j → j < hi → p j ≡ false)
    → highest p hi ≡ highest p lo
unfolding highest
highest-skip p lo zero le h = cong_highest p zero lo (omega arith)
highest-skip p lo (suc hi) le h = elim (dec_le lo hi) [
  | yes below ↦
      let rest = highest-skip p lo hi below (λ j a b. h j a (omega arith)) in
      ground (arith, h hi below (omega arith), rest)
  | no above ↦ cong_highest p (suc hi) lo (omega arith)
]

pub highest-hit :
    (p : ℕ → Bool) (t hi : ℕ)
    → t < hi
    → p t ≡ true
    → ((j : ℕ) → t < j → j < hi → p j ≡ false)
    → highest p hi ≡ some t
unfolding highest
highest-hit p t hi below here above =
    let skip = highest-skip p (suc t) hi (omega arith) (λ j a b. above j (omega arith) b) in
    ground (arith, skip, here)

pub highest-cong :
    (p q : ℕ → Bool) (n : ℕ) → ((j : ℕ) → j < n → p j ≡ q j) → highest p n ≡ highest q n
unfolding highest
highest-cong p q zero h = refl
highest-cong p q (suc n) h =
    rw (h n (omega arith), highest-cong p q n (λ j lt. h j (omega arith))) refl

-- What is found is a member below the place.
pub highest-member : (p : ℕ → Bool) (n g : ℕ) → highest p n ≡ some g → (g < n) × (p g ≡ true)
unfolding highest
highest-member p zero g h = absurd (ground (arith, h))
highest-member p (suc n) g h = ground (arith, highest-member p n g)

-- No member is between it and the place.
highest-greatest : (p : ℕ → Bool) (n g j : ℕ) → highest p n ≡ some g → g < j → j < n → p j ≡ false
unfolding highest
highest-greatest p zero g j h above below = absurd (omega arith)
highest-greatest p (suc n) g j h above below = ground (arith, highest-greatest p n g j)

highest-none : (p : ℕ → Bool) (n j : ℕ) → highest p n ≡ none → j < n → p j ≡ false
unfolding highest
highest-none p zero j h below = absurd (omega arith)
highest-none p (suc n) j h below = ground (arith, highest-none p n j)
