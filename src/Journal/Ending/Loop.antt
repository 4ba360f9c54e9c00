-- ===== src/Journal/Ending/Loop.antt =====
-- src/journal.rs: the loop of the replay, from the header to the last record.
use hype_trigger_twap.Prelude.{
  is_some, ℕ, ◌+◌, ◌≡◌, refl, sym, ap, ◌∙◌, Bool, true, false, not, ◌||◌, List, [], ◌∷◌, ◌++◌, ok,
  fail_if-eq-ok, >>=-eq-ok, ok-injective, arith, not-false,
}
use mathlib.Core.Path.{subst}
use hype_trigger_twap.Decimal.{DecimalApi}
use hype_trigger_twap.Journal.Records.{JournalRecord}
use hype_trigger_twap.Journal.Replay.{ReplayState, empty_state}
use hype_trigger_twap.Journal.Replay.Transitions.Closing.{
  is_header, step, replay_from, replay_records,
}
use hype_trigger_twap.Journal.Ending.{
  ends, IsConsistent, IsFinal, Effect-IsFinal, step-Effect, Effect-header,
}

-- Whether the last record is one that ends.
unfoldable pub ends_with : List JournalRecord → Bool
ends_with [] = false
ends_with (r ∷ []) = ends r
ends_with (r ∷ y ∷ ys) = ends_with (y ∷ ys)

or_right : (a b : Bool) → b ≡ true → a || b ≡ true
or_right a b h = ground arith

or_false : (a b : Bool) → a ≡ false → b ≡ false → a || b ≡ false
or_false a b h k = ground arith

module _ (D : DecimalApi) where
  replay_from-IsFinal :
      (index : ℕ) (r : JournalRecord) (rs : List JournalRecord) (s : ReplayState D)
      {t : ReplayState D}
      → IsConsistent D s
      → is_header D r || is_some s.header ≡ true
      → replay_from D index (r ∷ rs) s ≡ ok t
      → IsFinal D (ends_with (r ∷ rs)) t
  unfolding replay_from ends_with
  replay_from-IsFinal index r [] s same head e =
      let (m, e1, q) = >>=-eq-ok (step D index r s) _ e in
      let (na, nc, eff) = step-Effect D index r s e1 in
      subst (IsFinal D (ends r)) (ok-injective q)
        (Effect-IsFinal D s r m (na, nc, same) (Effect-header D s r m head eff) eff)
  replay_from-IsFinal index r (y ∷ ys) s same head e =
      let (m, e1, rest) = >>=-eq-ok (step D index r s) _ e in
      let (na, nc, eff) = step-Effect D index r s e1 in
      let seen = Effect-header D s r m head eff in
      let (closed, _, _) = Effect-IsFinal D s r m (na, nc, same) seen eff in
      replay_from-IsFinal (1 + index) y ys m closed.consistent (or_right _ _ seen) rest

  -- A record that a further one follows does not end the journal.
  followed :
      (index : ℕ) (r next : JournalRecord) (after : List JournalRecord) (s : ReplayState D)
      {t : ReplayState D}
      → IsConsistent D s
      → is_header D r || is_some s.header ≡ true
      → replay_from D index (r ∷ next ∷ after) s ≡ ok t
      → ends r ≡ false
  unfolding replay_from
  followed index r next after s same head e =
      let (m, e1, rest) = >>=-eq-ok (step D index r s) _ e in
      let (na, nc, eff) = step-Effect D index r s e1 in
      let (_, over, _) =
        Effect-IsFinal D s r m (na, nc, same) (Effect-header D s r m head eff) eff in
      let (m2, e2, _) = >>=-eq-ok (step D (1 + index) next m) _ rest in
      let (na2, nc2, _) = step-Effect D (1 + index) next m e2 in sym over ∙ or_false _ _ na2 nc2

  followed_later :
      (index : ℕ) (before : List JournalRecord) (r next : JournalRecord)
      (after : List JournalRecord) (s : ReplayState D) {t : ReplayState D}
      → IsConsistent D s
      → is_some s.header ≡ true
      → replay_from D index (before ++ r ∷ next ∷ after) s ≡ ok t
      → ends r ≡ false
  unfolding replay_from
  followed_later index [] r next after s same head e =
      followed index r next after s same (or_right _ _ head) e
  followed_later index (b ∷ before) r next after s same head e =
      let (m, e1, rest) = >>=-eq-ok (step D index b s) _ e in
      let (na, nc, eff) = step-Effect D index b s e1 in
      let seen = Effect-header D s b m (or_right _ _ head) eff in
      let (closed, _, _) = Effect-IsFinal D s b m (na, nc, same) seen eff in
      followed_later (1 + index) before r next after m closed.consistent seen rest

  pub replay_records-IsFinal :
      (records : List JournalRecord) {s : ReplayState D}
      → replay_records D records ≡ ok s
      → IsFinal D (ends_with records) s
  unfolding replay_records
  replay_records-IsFinal [] e = cc
  replay_records-IsFinal (r ∷ rs) e =
      let (head, e1) = fail_if-eq-ok (not (is_header D r)) _ _ e in
      replay_from-IsFinal 0 r rs (empty_state D) refl (ap (λ b. b || false) (not-false _ head)) e1

  -- In an accepted journal nothing follows a completed report, and nothing follows the record of
  -- abandonment: a record that another one follows is neither.
  pub replay_records-ends :
      (before : List JournalRecord) (r next : JournalRecord) (after : List JournalRecord)
      {s : ReplayState D}
      → replay_records D (before ++ r ∷ next ∷ after) ≡ ok s
      → ends r ≡ false
  unfolding replay_records replay_from
  replay_records-ends [] r next after e =
      let (head, e1) = fail_if-eq-ok (not (is_header D r)) _ _ e in
      followed 0 r next after (empty_state D) refl (ap (λ b. b || false) (not-false _ head)) e1
  replay_records-ends (b ∷ before) r next after e =
      let (head, e1) = fail_if-eq-ok (not (is_header D b)) _ _ e in
      let (m, e2, rest) = >>=-eq-ok (step D 0 b (empty_state D)) _ e1 in
      let (na, nc, eff) = step-Effect D 0 b (empty_state D) e2 in
      let seen =
        Effect-header D (empty_state D) b m (ap (λ c. c || false) (not-false _ head)) eff in
      let (closed, _, _) = Effect-IsFinal D (empty_state D) b m (na, nc, refl) seen eff in
      followed_later 1 before r next after m closed.consistent seen rest
