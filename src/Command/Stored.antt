-- ===== src/Command/Stored.antt =====
-- src/main.rs: the sizing that a resume takes from the journal fits its slices.
use hype_trigger_twap.Prelude.{
  ℕ, ◌*◌, ◌≤◌, ◌<◌, ◌≡◌, refl, sym, ◌∙◌, arith, Bool, true, false, not, ◌||◌, some, ok, String,
  ok_or, ok_or-eq-ok, >>=-eq-ok, fail_if-eq-ok, fail_if-ok, ok-injective, ◌==◌,
}
use mathlib.Core.Path.{subst, ap}
use hype_trigger_twap.Decimal.{DecimalApi, from_nat, le, eq}
use hype_trigger_twap.Decimal.Laws.{DecimalLaws}
use hype_trigger_twap.Format.{round_size}
use hype_trigger_twap.Journal.Records.{ExecutionPlanFingerprint}
use hype_trigger_twap.Twap.Sizing.Bounds.{minus_of_pos}
use hype_trigger_twap.Command.{
  parse_canonical_fingerprint_decimal, expected_total_adjusted, validate_fingerprint_sizing,
  differs,
}
use hype_trigger_twap.Command.Fitting.{IsFitting, IsOnGrid, fits_on_grid, per_slice_nonneg}

module _ (D : DecimalApi) (L : DecimalLaws D) where
  open D use {Decimal, plus, minus, div, parse, checked_mul}
  open L use {checked_mul_nat}

  parsed :
      (value : String) (d : Decimal)
      → parse_canonical_fingerprint_decimal D value ≡ ok d
      → parse value ≡ some d
  unfolding parse_canonical_fingerprint_decimal
  parsed value d h =
      let (d', e, h1) = >>=-eq-ok (ok_or (parse value) _) _ h in
      let (_, same) = fail_if-eq-ok _ _ _ h1 in
      ok_or-eq-ok (parse value) _ e ∙ ap (λ x. some x) (ok-injective same)

  -- The total that is expected fits the slices that are expected.
  expected-IsFitting :
      (requested total : Decimal) (slices sz_decimals : ℕ) (exact : Bool)
      → minus requested ≡ 0
      → (exact ≡ true → IsOnGrid D requested slices sz_decimals)
      → let per_slice = round_size D (div requested (from_nat D slices)) sz_decimals in
        expected_total_adjusted D requested per_slice slices exact ≡ ok total
        → IsFitting D per_slice total slices
  unfolding expected_total_adjusted
  expected-IsFitting requested total slices sz_decimals true nonneg grid h =
      subst
        (λ t. IsFitting D (round_size D (div requested (from_nat D slices)) sz_decimals) t slices)
        (ok-injective h)
        (record {
          slice_nonneg = per_slice_nonneg D L requested slices sz_decimals nonneg;
          total_nonneg = nonneg;
          slices_fit = fits_on_grid D L requested slices sz_decimals nonneg (grid refl);
        })
  expected-IsFitting requested total slices sz_decimals false nonneg grid h =
      let per_slice : Decimal = round_size D (div requested (from_nat D slices)) sz_decimals in
      let none_below = per_slice_nonneg D L requested slices sz_decimals nonneg in
      let (value, below) = checked_mul_nat per_slice slices (ok_or-eq-ok _ _ h) in
      let vanish : minus per_slice * slices ≡ 0 = rw none_below (omega arith) in
      record {
        slice_nonneg = none_below;
        total_nonneg = below ∙ vanish;
        slices_fit = omega (arith, value);
      }

  -- Of two decimals of one value, where none is negative, the positive parts are the same.
  same_plus : (a b : Decimal) → minus a ≡ 0 → minus b ≡ 0 → eq D a b ≡ true → plus a ≡ plus b
  same_plus a b p q h = ground arith

  equal-IsFitting :
      (per_slice total per_slice' total' : Decimal) (slices : ℕ)
      → le D per_slice (from_nat D 0) ≡ false
      → le D total (from_nat D 0) ≡ false
      → eq D per_slice per_slice' ≡ true
      → eq D total total' ≡ true
      → IsFitting D per_slice' total' slices
      → IsFitting D per_slice total slices
  equal-IsFitting per_slice total per_slice' total' slices p q e e' f =
      let (a, _) = minus_of_pos D L per_slice p in
      let (b, _) = minus_of_pos D L total q in
      record {
        slice_nonneg = a;
        total_nonneg = b;
        slices_fit =
            subst (λ x. x * slices ≤ plus total)
              (sym (same_plus per_slice per_slice' a f.slice_nonneg e))
              (subst (λ y. plus per_slice' * slices ≤ y)
                (sym (same_plus total total' b f.total_nonneg e')) f.slices_fit);
      }

  -- Of a stored sizing that a resume accepts, both decimals are read, the slices are positive in
  -- number, and they fit their total. Where the total of a position phase is kept, the requested
  -- total is on the grid of sizes, and the slices and 10^-27 of the total, in units of 10^-28,
  -- are together fewer than two of its steps.
  pub validate_fingerprint_sizing-IsFitting :
      (fp : ExecutionPlanFingerprint) (requested : Decimal) (reduce_only : Bool) (sz_decimals : ℕ)
      (exact : Bool)
      → (exact ≡ true → IsOnGrid D requested fp.slices sz_decimals)
      → validate_fingerprint_sizing D fp requested reduce_only sz_decimals exact ≡ ok tt
      → (per_slice : Decimal) × (total : Decimal) × (parse fp.per_slice ≡ some per_slice)
        × (parse fp.total_adjusted ≡ some total)
        × (0 < fp.slices)
        × IsFitting D per_slice total fp.slices
  unfolding validate_fingerprint_sizing
  validate_fingerprint_sizing-IsFitting fp requested reduce_only sz_decimals exact grid h =
      let (some_slices, h1) = fail_if-eq-ok (fp.slices == 0) _ _ h in
      let (per_slice, e2, h2) =
        >>=-eq-ok (parse_canonical_fingerprint_decimal D fp.per_slice) _ h1 in
      let (total, e3, h3) =
        >>=-eq-ok (parse_canonical_fingerprint_decimal D fp.total_adjusted) _ h2 in
      let (total_requested, e4, h4) =
        >>=-eq-ok (parse_canonical_fingerprint_decimal D fp.total_requested) _ h3 in
      let (positive, h5) =
        fail_if-eq-ok
          (le D requested (from_nat D 0)
            || (le D per_slice (from_nat D 0)
                || (le D total (from_nat D 0) || le D total_requested (from_nat D 0))))
          _ _ h4 in
      let expected : Decimal = round_size D (div requested (from_nat D fp.slices)) sz_decimals in
      let (expected_total, e6, h6) =
        >>=-eq-ok (expected_total_adjusted D requested expected fp.slices exact) _ h5 in
      let equal =
        fail_if-ok
          (not (eq D total_requested requested)
            || (not (eq D per_slice expected)
                || (not (eq D total expected_total) || differs fp.reduce_only reduce_only)))
          _ h6 in
      let (nonneg, _) = minus_of_pos D L requested (ground arith) in
      (
        per_slice,
        total,
        parsed fp.per_slice per_slice e2,
        parsed fp.total_adjusted total e3,
        ground arith,
        equal-IsFitting per_slice total expected expected_total fp.slices (ground arith)
            (ground arith) (ground arith) (ground arith)
            (expected-IsFitting requested expected_total fp.slices sz_decimals exact nonneg grid
              e6),
      )
