-- ===== src/Vaults/Operate/Tracked.antt =====
-- What `add_debt_to_tick` (`programs/vaults/src/utils/operate.rs`) leaves: the debt is in the tick, and the
-- tick is in the bitmap.
use fluid_solana_programs.Base.{
  ℕ, ◌+◌, ◌/◌, ◌≤◌, ◌<◌, ◌≡◌, ◌∙◌, ap, sym, refl, arith, leb, ltb, ◌==◌, if◌then◌else◌, Bool, true,
  false, Bool-cases, inl, inr,
}
use fluid_solana_programs.Base.Int.{ℤ}
use fluid_solana_programs.Base.Errors.{
  panic, vault, vault_user_debt_too_low, vault_tick_debt_too_low,
}
use fluid_solana_programs.Base.Result.{
  Result, ok, err, >>=-eq-ok, run_if, run_else, passed, ok-pair,
}
use fluid_solana_programs.Math.Words.{u32_max, u128_max}
use fluid_solana_programs.Math.SafeMath.{safe_add, safe_sub, safe_add-eq-ok}
use fluid_solana_programs.Math.Casting.{cast}
use fluid_solana_programs.Vaults.TickHasDebt.{TickHasDebtAccounts, update_tick_has_debt}
use fluid_solana_programs.Vaults.TickHasDebt.Places.{tick_at, last_place}
use fluid_solana_programs.Vaults.TickSet.{has_debt, IsArray}
use fluid_solana_programs.Vaults.TickSet.Update.{update_tick_has_debt-members}
use fluid_solana_programs.Vaults.Tick.{Tick, validate, get_raw_debt, set_raw_debt}
use fluid_solana_programs.Vaults.Operate.AddDebt.{
  TickState, is_live, debt_at_next_tick, add_to_live_tick, start_tick, keep_status, reset_tick,
  add_debt_to_tick,
}

-- Of the debt at the tick, what is more than the position's own debt is its dust debt.
debt_at_next_tick-dust :
    (col net : ℕ) {tick : ℤ} {user dust : ℕ}
    → debt_at_next_tick col net ≡ ok (tick, user, dust)
    → user ≡ net + dust
unfolding debt_at_next_tick safe_sub
debt_at_next_tick-dust col net run = ground arith

-- The debt that a tick holds for its present id.
abbrev pub live_debt : Tick → ℕ
live_debt t = if is_live t then t.raw_debt else 0

live_positive : (t : Tick) → is_live t ≡ true → 0 < t.raw_debt → 0 < live_debt t
live_positive t live p = rw live p

live_ids : (t : Tick) → is_live t ≡ true → 0 < t.total_ids
live_ids t live = ground (arith, live)

next_id :
    (ids : ℕ) {id : ℕ}
    → (if leb (ids + 1) u32_max then ok (ids + 1) else err panic) ≡ ok id
    → 0 < id
next_id ids run = ground (arith, run)

not_zero : (m : ℕ) → (m == 0) ≡ false → 0 < m
not_zero m h = ground (arith, h)

module _ (n : ℕ) (in_range : n ≤ last_place) where
  -- Every tick but `n` is in the bitmap as before.
  abbrev pub SameElsewhere : TickHasDebtAccounts → TickHasDebtAccounts → Type 0
  SameElsewhere before after = (p : ℕ) → (p == n) ≡ false → has_debt after p ≡ has_debt before p

  abbrev Tracked : TickHasDebtAccounts → TickHasDebtAccounts → Type 0
  Tracked before after = (has_debt after n ≡ true) × SameElsewhere before after

  set-Tracked :
      (before : TickHasDebtAccounts) {after : TickHasDebtAccounts}
      → IsArray (n / 2048) (before (n / 2048))
      → update_tick_has_debt (tick_at n) true before ≡ ok after
      → Tracked before after
  set-Tracked before {after} loaded run =
      (member n ∙ rw (same n) refl, λ (p : ℕ) (apart : (p == n) ≡ false). member p ∙ rw apart refl)
    where
      member : (p : ℕ) → has_debt after p ≡ (if p == n then true else has_debt before p)
      member p =
          let updated = update_tick_has_debt-members before true n p in_range loaded in
          let stored : ◌≡◌ {A = Result Bool} (ok (has_debt after p))
              (ok (if p == n then true else has_debt before p)) =
            rw run at updated in
          cc

      same : (p : ℕ) → (p == p) ≡ true
      same p = ground arith

  -- What has become of the accounts before the debt is written: the new debt of the tick, its id and the
  -- bitmap.
  abbrev Added : TickState → ℕ → ℕ → TickState → Type 0
  Added s user debt t =
      (debt ≡ live_debt s.tick_data + user)
      × (0 < t.tick_data.total_ids)
      × Tracked s.bitmap t.bitmap

  arrived :
      (s : TickState) (user sum : ℕ) (u : TickState) {debt : ℕ} {t : TickState}
      → Added s user sum u
      → ◌≡◌ {A = Result (ℕ × TickState)} (ok (sum, u)) (ok (debt, t))
      → Added s user debt t
  arrived s user sum u added last =
      let (same_debt, same_state) = ok-pair last in rw (← same_debt, ← same_state) added

  maybe-Tracked :
      (before : TickHasDebtAccounts) (raw_debt : ℕ) {after : TickHasDebtAccounts}
      → IsArray (n / 2048) (before (n / 2048))
      → (0 < raw_debt → has_debt before n ≡ true)
      → (if raw_debt == 0 then update_tick_has_debt (tick_at n) true before else ok before)
        ≡ ok after
      → Tracked before after
  maybe-Tracked before raw_debt {after} loaded tracked run = elim (Bool-cases (raw_debt == 0)) [
    | inl empty ↦ set-Tracked before loaded (run_if (raw_debt == 0) _ _ empty run)
    | inr some_debt ↦
        let kept = run_else (raw_debt == 0) _ _ some_debt run in
        let same : before ≡ after = cc in
        let held = tracked (not_zero raw_debt some_debt) in
        rw (← same) (held, λ (p : ℕ) (apart : (p == n) ≡ false). refl)
  ]

  live-Added :
      (s : TickState) (user : ℕ) {debt : ℕ} {t : TickState}
      → is_live s.tick_data ≡ true
      → IsArray (n / 2048) (s.bitmap (n / 2048))
      → (0 < live_debt s.tick_data → has_debt s.bitmap n ≡ true)
      → add_to_live_tick (tick_at n) user s ≡ ok (debt, t)
      → Added s user debt t
  unfolding add_to_live_tick
  live-Added s user live loaded tracked run =
      let (sum, run_sum, run₁) =
        >>=-eq-ok (safe_add u128_max (get_raw_debt s.tick_data) user) _ run in
      let (bitmap, run_bitmap, last) =
        >>=-eq-ok
          (if s.tick_data.raw_debt == 0
            then update_tick_has_debt (tick_at n) true s.bitmap
            else ok s.bitmap)
          _ run₁ in
      let (is_sum, _) = safe_add-eq-ok u128_max s.tick_data.raw_debt user run_sum in
      let member =
        maybe-Tracked s.bitmap s.tick_data.raw_debt loaded
          (λ (some_debt : 0 < s.tick_data.raw_debt).
            tracked (live_positive s.tick_data live some_debt))
          run_bitmap in
      let total : sum ≡ live_debt s.tick_data + user = rw live is_sum in
      arrived s user sum (record s { bitmap = bitmap }) (total, live_ids s.tick_data live, member)
        last

  start-Added :
      (s : TickState) (user : ℕ) {debt : ℕ} {t : TickState}
      → is_live s.tick_data ≡ false
      → IsArray (n / 2048) (s.bitmap (n / 2048))
      → start_tick (tick_at n) user s ≡ ok (debt, t)
      → Added s user debt t
  unfolding start_tick
  start-Added s user live loaded run =
      let (kept, _, run₁) = >>=-eq-ok (keep_status (tick_at n) s) _ run in
      let (bitmap, run_bitmap, run₂) =
        >>=-eq-ok (update_tick_has_debt (tick_at n) true s.bitmap) _ run₁ in
      let (id, run_id, last) =
        >>=-eq-ok
          (if leb (s.tick_data.total_ids + 1) u32_max
            then ok (s.tick_data.total_ids + 1)
            else err panic)
          _ run₂ in
      let tracked = set-Tracked s.bitmap loaded run_bitmap in
      let total : user ≡ live_debt s.tick_data + user = rw live (omega arith) in
      let positive = next_id s.tick_data.total_ids run_id in
      arrived s user user
        (record {
          tick_data = record s.tick_data { total_ids = id };
          tick_id_liquidation = kept;
          bitmap = bitmap;
        })
        (total, positive, tracked) last

  set_raw_debt-live :
      (debt : ℕ) (t : Tick) {u : Tick}
      → 0 < t.total_ids
      → set_raw_debt debt (reset_tick t) ≡ ok u
      → (live_debt u ≡ debt) × (u.total_ids ≡ t.total_ids) × (u.raw_debt ≡ debt)
  unfolding set_raw_debt reset_tick cast
  set_raw_debt-live debt t ids run = ground (arith, ids)

  branch-Added :
      (s : TickState) (user : ℕ) {debt : ℕ} {t : TickState}
      → IsArray (n / 2048) (s.bitmap (n / 2048))
      → (0 < live_debt s.tick_data → has_debt s.bitmap n ≡ true)
      → (if is_live s.tick_data
          then add_to_live_tick (tick_at n) user s
          else start_tick (tick_at n) user s)
        ≡ ok (debt, t)
      → Added s user debt t
  branch-Added s user loaded tracked run = elim (Bool-cases (is_live s.tick_data)) [
    | inl live ↦ live-Added s user live loaded tracked (run_if (is_live s.tick_data) _ _ live run)
    | inr not_live ↦
        start-Added s user not_live loaded (run_else (is_live s.tick_data) _ _ not_live run)
  ]

  -- The debt of the position is its own and dust, the tick holds it beside what it held, and the bitmap
  -- has the tick.
  abbrev pub IsTracked : ℕ → ℕ → ℕ → ℕ → TickState → ℕ → TickState → Type 0
  IsTracked min_debt net user dust s id t =
      (user ≡ net + dust)
      × (min_debt ≤ net)
      × (live_debt t.tick_data ≡ live_debt s.tick_data + user)
      × (t.tick_data.total_ids ≡ id)
      × (has_debt t.bitmap n ≡ true)
      × SameElsewhere s.bitmap t.bitmap

  written :
      (min_debt net user dust debt : ℕ) (s u : TickState) (data_of : Tick) {id : ℕ} {t : TickState}
      → user ≡ net + dust
      → min_debt ≤ net
      → Added s user debt u
      → set_raw_debt debt (reset_tick u.tick_data) ≡ ok data_of
      → u.tick_data.total_ids ≡ id
      → record u { tick_data = data_of } ≡ t
      → IsTracked min_debt net user dust s id t
  written min_debt net user dust debt s u data_of parts enough (total, ids, tracked) run same_id
        same =
      let (live, kept, _) = set_raw_debt-live debt u.tick_data ids run in
      rw (← same) (parts, enough, live ∙ total, kept ∙ same_id, tracked.0, tracked.1)

  returned :
      (tick : ℤ) (min_debt net user dust debt : ℕ) (s u : TickState) (data_of : Tick)
      {id user' dust' : ℕ} {t : TickState}
      → IsArray (n / 2048) (s.bitmap (n / 2048))
      → (0 < live_debt s.tick_data → has_debt s.bitmap n ≡ true)
      → user ≡ net + dust
      → min_debt ≤ net
      → (if is_live s.tick_data then add_to_live_tick tick user s else start_tick tick user s)
        ≡ ok (debt, u)
      → set_raw_debt debt (reset_tick u.tick_data) ≡ ok data_of
      → ◌≡◌ {A = Result (ℤ × ℕ × ℕ × ℕ × TickState)}
          (ok (tick, u.tick_data.total_ids, user, dust, record u { tick_data = data_of }))
          (ok (tick_at n, id, user', dust', t))
      → IsTracked min_debt net user' dust' s id t
  returned tick min_debt net user dust debt s u data_of {id} {user'} {dust'} {t} loaded tracked
        parts enough run_branch run_write last =
      let same_tick : tick ≡ tick_at n = cc in
      let same_id : u.tick_data.total_ids ≡ id = cc in
      let same_user : user ≡ user' = cc in
      let same_dust : dust ≡ dust' = cc in
      let same : record u { tick_data = data_of } ≡ t = cc in
      let at_place =
        ap
          (λ (i : ℤ).
            if is_live s.tick_data then add_to_live_tick i user s else start_tick i user s)
          (sym same_tick)
        ∙ run_branch in
      let added = branch-Added s user loaded tracked at_place in
      rw (← same_user, ← same_dust)
        (written min_debt net user dust debt s u data_of parts enough added run_write same_id same)

  -- If the debt of a position is added to the tick at place `n`, where the place is in the range, its
  -- array is loaded, and the tick is in the bitmap if it already holds debt that is not liquidated: the
  -- debt of the position there is its own debt, which is at least the minimum, and its dust debt; the
  -- tick is not liquidated and holds this debt beside what it held before that was not liquidated;
  -- the position gets the present id of the tick; the tick is in the bitmap, and no other tick of the
  -- bitmap has changed.
  pub add_debt_to_tick-IsTracked :
      (col net min_debt : ℕ) (s : TickState) {id user dust : ℕ} {t : TickState}
      → IsArray (n / 2048) (s.bitmap (n / 2048))
      → (0 < live_debt s.tick_data → has_debt s.bitmap n ≡ true)
      → add_debt_to_tick col net min_debt s ≡ ok (tick_at n, id, user, dust, t)
      → IsTracked min_debt net user dust s id t
  unfolding add_debt_to_tick
  add_debt_to_tick-IsTracked col net min_debt s {id} {user} {dust} {t} loaded tracked run =
      let (enough, run₁) = passed (ltb net min_debt) (vault vault_user_debt_too_low) run in
      let ((tick, user', dust'), run_debt, run₂) = >>=-eq-ok (debt_at_next_tick col net) _ run₁ in
      let (_, _, run₃) = >>=-eq-ok (validate tick s.tick_data) _ run₂ in
      let ((debt, u), run_branch, run₄) =
        >>=-eq-ok
          (if is_live s.tick_data then add_to_live_tick tick user' s else start_tick tick user' s) _
          run₃ in
      let (_, run₅) = passed (ltb debt min_debt) (vault vault_tick_debt_too_low) run₄ in
      let (data_of, run_write, last) =
        >>=-eq-ok (set_raw_debt debt (reset_tick u.tick_data)) _ run₅ in
      returned tick min_debt net user' dust' debt s u data_of loaded tracked
        (debt_at_next_tick-dust col net run_debt) (ground (arith, enough)) run_branch run_write last
