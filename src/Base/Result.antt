-- ===== src/Base/Result.antt =====
-- `Result<T>` and the `?` operator. A failed instruction is rolled back as a whole by the runtime,
-- so an error carries no state.
use mathlib.Core.Path.{◌≡◌, refl}
use mathlib.Core.Bool.{Bool, true, false}
use fluid_solana_programs.Base.Tests.{if◌then◌else◌}
use fluid_solana_programs.Base.Errors.{Error}

pub data Result {u} (T : Type u) : Type u where
  err : Error → Result T
  ok : T → Result T

-- `Ensures P r`: if the call returns, what it returns satisfies `P`.
abbrev pub Ensures {u v} : {T : Type u} → (T → Type v) → Result T → Type v
Ensures P (err code) = Unit
Ensures P (ok value) = P value

-- `if fails { return Err(code) }`
abbrev pub fail_if : Bool → Error → Result (Unit {0})
fail_if false code = ok tt
fail_if true code = err code

infixl 5 ◌>>=◌
abbrev pub ◌>>=◌ {u v} : {S : Type u} {T : Type v} → Result S → (S → Result T) → Result T
err code >>= rest = err code
ok value >>= rest = rest value

infixl 5 ◌>>◌
abbrev pub ◌>>◌ {v} : {T : Type v} → Result (Unit {0}) → Result T → Result T
check >> rest = check >>= (λ _. rest)

-- The branch of a test that a run has taken.
pub run_if {u} :
    {A : Type u} (b : Bool) (x y : A) {z : A} → b ≡ true → (if b then x else y) ≡ z → x ≡ z
run_if true x y h k = k
run_if false x y h k = cc

pub run_else {u} :
    {A : Type u} (b : Bool) (x y : A) {z : A} → b ≡ false → (if b then x else y) ≡ z → y ≡ z
run_else true x y h k = cc
run_else false x y h k = k

-- A check that a run has passed.
pub passed {v} :
    {T : Type v} (fails : Bool) (code : Error) {r : Result T} {value : T}
    → (fail_if fails code >> r) ≡ ok value
    → (fails ≡ false) × (r ≡ ok value)
passed true code h = cc
passed false code h = (refl, h)

-- The components of two equal outcomes.
pub ok-pair {u v} :
    {A : Type u} {B : Type v} {a c : A} {b d : B}
    → ◌≡◌ {A = Result (A × B)} (ok (a, b)) (ok (c, d))
    → (a ≡ c) × (b ≡ d)
ok-pair h = (cc, cc)

pub ok-triple {u v w} :
    {A : Type u} {B : Type v} {C : Type w} {a d : A} {b e : B} {c f : C}
    → ◌≡◌ {A = Result (A × B × C)} (ok (a, b, c)) (ok (d, e, f))
    → (a ≡ d) × (b ≡ e) × (c ≡ f)
ok-triple h = (cc, cc, cc)

module _ {u v} {S : Type u} where
  -- Inversion of a successful `?`.
  pub >>=-eq-ok :
      {T : Type v} (call : Result S) (rest : S → Result T) {value : T}
      → (call >>= rest) ≡ ok value
      → (s : S) × (call ≡ ok s) × (rest s ≡ ok value)
  >>=-eq-ok (err code) rest h = cc
  >>=-eq-ok (ok s) rest h = (s, refl, h)

  -- What holds of every value that a call can return.
  pub ensures : (P : S → Type v) (call : Result S) → ((s : S) → call ≡ ok s → P s) → Ensures P call
  ensures P (err code) all = tt
  ensures P (ok s) all = all s refl
