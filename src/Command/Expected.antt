-- ===== src/Command/Expected.antt =====
-- src/main.rs: the position that a journal implies is its fills away from where the plan began.
use hype_trigger_twap.Prelude.{
  ℕ, ◌+◌, ◌≡◌, refl, arith, true, false, not, Option, none, some, ok, [], ◌∷◌, Map, lookup, ok_or,
  ok_or-eq-ok, map_err, map_err-eq-ok, fail_if-eq-ok, >>=-eq-ok, ok-injective, not-false, sym,
}
use mathlib.Core.Path.{subst, ap}
use hype_trigger_twap.Decimal.{DecimalApi}
use hype_trigger_twap.Decimal.Laws.{DecimalLaws}
use hype_trigger_twap.Types.{Side, long, short}
use hype_trigger_twap.Journal.Records.{CloidState, prepared_only, submitted, known, closed}
use hype_trigger_twap.Journal.Summary.{ValidatedJournalReplay}
use hype_trigger_twap.Position.{
  PositionExecutionPlan, apply_signed_fill, is_between_frozen_endpoints,
}
use hype_trigger_twap.Position.Phases.{IsFilled, apply_signed_fill_value}
use hype_trigger_twap.Command.{
  expected_side, moves_away, expected_from, expected_position_from_replay,
}

kept_side : (side other : Side) → moves_away (some side) other ≡ false → other ≡ side
kept_side long long h = refl
kept_side long short h = absurd cc
kept_side short long h = absurd cc
kept_side short short h = refl

module _ (D : DecimalApi) where
  open D use {Decimal, plus, minus, parse}

  abbrev units_read : Option Decimal → ℕ
  units_read none = 0
  units_read (some d) = plus d

  -- The closed fills of a journal, in units of 10^-28.
  abbrev pub filled_units : Map CloidState → ℕ
  filled_units [] = 0
  filled_units ((cloid, closed filled_sz avg_px) ∷ rest) =
      units_read (parse filled_sz) + filled_units rest
  filled_units ((cloid, prepared_only) ∷ rest) = filled_units rest
  filled_units ((cloid, submitted) ∷ rest) = filled_units rest
  filled_units ((cloid, known) ∷ rest) = filled_units rest

  -- `end` is `n` units from `start`, in the direction of `side`.
  abbrev pub IsMovedBy : Side → Decimal → ℕ → Decimal → Type 0
  IsMovedBy long start n end = plus end + minus start ≡ minus end + plus start + n
  IsMovedBy short start n end = plus end + minus start + n ≡ minus end + plus start

module _ (D : DecimalApi) (L : DecimalLaws D) (v : ValidatedJournalReplay D)
    (frozen : PositionExecutionPlan D) where
  open D use {Decimal, plus, minus, parse}

  abbrev IsWithinEnds : Decimal → Type 0
  IsWithinEnds d = is_between_frozen_endpoints D d frozen.current_szi frozen.target_szi ≡ true

  one_move :
      (side : Side) (start fill next end : Decimal) (n : ℕ)
      → (minus fill ≡ 0) × IsFilled D L side start fill next
      → IsMovedBy D side next n end
      → IsMovedBy D side start (plus fill + n) end
  one_move long start fill next end n (p, q) h = omega arith
  one_move short start fill next end n (p, q) h = omega arith

  expected_from-IsMovedBy :
      (side : Side) (start end : Decimal) (cloids : Map CloidState)
      → IsWithinEnds start
      → expected_from D v frozen (some side) start cloids ≡ ok end
      → IsMovedBy D side start (filled_units D cloids) end × IsWithinEnds end
  unfolding expected_from
  expected_from-IsMovedBy long start end [] b h =
      let same = ap (λ d. plus d) (ok-injective h) in
      let same' = ap (λ d. minus d) (ok-injective h) in
      (omega arith, subst IsWithinEnds (ok-injective h) b)
  expected_from-IsMovedBy short start end [] b h =
      let same = ap (λ d. plus d) (ok-injective h) in
      let same' = ap (λ d. minus d) (ok-injective h) in
      (omega arith, subst IsWithinEnds (ok-injective h) b)
  expected_from-IsMovedBy side start end ((cloid, prepared_only) ∷ rest) b h =
      expected_from-IsMovedBy side start end rest b h
  expected_from-IsMovedBy side start end ((cloid, submitted) ∷ rest) b h =
      expected_from-IsMovedBy side start end rest b h
  expected_from-IsMovedBy side start end ((cloid, known) ∷ rest) b h =
      expected_from-IsMovedBy side start end rest b h
  expected_from-IsMovedBy side start end ((cloid, closed filled_sz avg_px) ∷ rest) b h =
      let (intent, _, h1) = >>=-eq-ok (ok_or (lookup cloid v.prepared) _) _ h in
      let (stays, h2) = fail_if-eq-ok (moves_away (some side) intent.side) _ _ h1 in
      let (fill, read, h3) = >>=-eq-ok (ok_or (parse filled_sz) _) _ h2 in
      let (next, moved, h4) =
        >>=-eq-ok (map_err _ (apply_signed_fill D start intent.side fill)) _ h3 in
      let (inside, h5) =
        fail_if-eq-ok
          (not (is_between_frozen_endpoints D next frozen.current_szi frozen.target_szi)) _ _ h4 in
      let (later, ends) = expected_from-IsMovedBy side next end rest (not-false _ inside) h5 in
      let is_read = ok_or-eq-ok (parse filled_sz) _ read in
      let filled = apply_signed_fill_value D L start fill side (
        subst (λ s. apply_signed_fill D start s fill ≡ ok next) (kept_side side intent.side stays)
          (map_err-eq-ok _ _ moved)) in
      (
        subst (λ r. IsMovedBy D side start (units_read D r + filled_units D rest) end) (sym is_read)
            (one_move side start fill next end (filled_units D rest) filled later),
        ends,
      )

  start_within : IsWithinEnds frozen.current_szi
  unfolding is_between_frozen_endpoints
  start_within = ground arith

  -- Where the plan moves the position to one side, the position that an accepted journal implies is
  -- the sum of its closed fills away from the frozen start, to that side, and between the frozen
  -- start and the frozen target.
  pub expected_position_from_replay-IsMovedBy :
      (side : Side) (end : Decimal)
      → expected_side D frozen ≡ some side
      → expected_position_from_replay D v frozen ≡ ok end
      → IsMovedBy D side frozen.current_szi (filled_units D v.summary.cloids) end
        × (is_between_frozen_endpoints D end frozen.current_szi frozen.target_szi ≡ true)
  unfolding expected_position_from_replay
  expected_position_from_replay-IsMovedBy side end e h =
      expected_from-IsMovedBy side frozen.current_szi end v.summary.cloids start_within
        (subst (λ s. expected_from D v frozen s frozen.current_szi v.summary.cloids ≡ ok end) e h)
