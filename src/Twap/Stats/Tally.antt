-- ===== src/Twap/Stats/Tally.antt =====
-- src/twap.rs: the tally of a run, by its log alone: what its orders have filled, and which rests.
use hype_trigger_twap.Prelude.{
  ◌≡◌, refl, Option, none, some, Result, ok, err, List, [], ◌∷◌, ◌++◌, ok-injective, sym, ap, Bool,
  true, ◌⊎◌,
}
use mathlib.Core.Path.{subst}
use hype_trigger_twap.Prelude.Runs.{Logged, follow, lift, ◌>>=◌}
use hype_trigger_twap.Prelude.Ensures.{err-injective}
use hype_trigger_twap.Decimal.{DecimalApi}
use hype_trigger_twap.Types.{OrderIntent}
use hype_trigger_twap.Twap.Place.{Event}
use hype_trigger_twap.Twap.Alo.{RestingChild}
use hype_trigger_twap.Twap.Stats.{
  FillStats, OrderOutcome, gave, gave_nothing, left_resting, left_unsettled, OrderEvent, did, ended,
  RunEvent, label, of_order,
}

module _ (D : DecimalApi) where
  open D use {add, mul}

  pub record Tally : Type 0 where
    pub stats : FillStats D
    pub held : Option (RestingChild D)

  -- A fill is added to the size and, at its price, to the notional; an order that is settled is
  -- held no more, and one that could not be settled still is.
  abbrev pub after_outcome : Tally → OrderOutcome D → Tally
  after_outcome t (gave o) = record {
    stats = record t.stats {
      filled = add t.stats.filled o.sz;
      notional = add t.stats.notional (mul o.sz o.px);
    };
    held = none;
  }
  after_outcome t gave_nothing = record t { held = none }
  after_outcome t (left_resting child) = record t { held = some child }
  after_outcome t left_unsettled = t

  abbrev pub after_event : Tally → OrderEvent D → Tally
  after_event t (did v) = t
  after_event t (ended o) = after_outcome t o

  abbrev pub tally : Tally → List (RunEvent D) → Tally
  tally t [] = t
  tally t (e ∷ es) = tally (after_event t e.event) es

  -- At each event the run's own count of its fills is the tally of the log before it.
  abbrev pub IsCounted : Tally → List (RunEvent D) → Type 0
  IsCounted t [] = Unit
  IsCounted t (e ∷ es) = (e.stats ≡ t.stats) × IsCounted (after_event t e.event) es

  IsCounted-append :
      (t : Tally) (es fs : List (RunEvent D))
      → IsCounted t es
      → IsCounted (tally t es) fs
      → IsCounted t (es ++ fs)
  IsCounted-append t [] fs a b = b
  IsCounted-append t (e ∷ es) fs a b = (a.0, IsCounted-append (after_event t e.event) es fs a.1 b)

  tally-append :
      (t : Tally) (es fs : List (RunEvent D)) → tally (tally t es) fs ≡ tally t (es ++ fs)
  tally-append t [] fs = refl
  tally-append t (e ∷ es) fs = tally-append (after_event t e.event) es fs

  -- The events of one order do not change the tally before its end.
  label-tally :
      (t : Tally) (intent : OrderIntent D) (vs : List Event) (o : OrderOutcome D)
      → let log =
          label D t.stats intent vs
          ++ (record { stats = t.stats; intent = intent; event = ended o } ∷ []) in
        IsCounted t log × (tally t log ≡ after_outcome t o)
  label-tally t intent [] o = ((refl, tt), refl)
  label-tally t intent (v ∷ vs) o =
      let (counted, same) = label-tally t intent vs o in ((refl, counted), same)

  -- From a tally, the log counts each order, and what is left agrees with the tally after the log.
  pub record Counts {E A : Type 0} (t : Tally) (m : Logged (RunEvent D) E A)
      (Post : Tally → A → Type 0) (Left : Tally → E → Type 0) : Type 0 where
    pub counted : IsCounted t m.events
    pub post : (a : A) → m.result ≡ ok a → Post (tally t m.events) a
    pub left : (e : E) → m.result ≡ err e → Left (tally t m.events) e

  module _ {E : Type 0} (Left : Tally → E → Type 0) where
    pub counts-ok :
        {A : Type 0} {Post : Tally → A → Type 0} (t : Tally) (a : A)
        → Post t a
        → Counts t (lift (ok a)) Post Left
    counts-ok {A} {Post} t a p = record {
      counted = tt;
      post = λ b h. subst (Post t) (ok-injective h) p;
      left = λ e h. absurd cc;
    }

    pub counts-err :
        {A : Type 0} {Post : Tally → A → Type 0} (t : Tally) (e : E)
        → Left t e
        → Counts {A = A} t (lift (err e)) Post Left
    counts-err t e l = record {
      counted = tt;
      post = λ b h. absurd cc;
      left = λ d h. subst (Left t) (err-injective h) l;
    }

    counts_follow :
        {A B : Type 0} {Mid : Tally → A → Type 0} {Post : Tally → B → Type 0} (t : Tally)
        (log : List (RunEvent D)) (r : Result E A) (k : A → Logged (RunEvent D) E B)
        → IsCounted t log
        → ((a : A) → r ≡ ok a → Mid (tally t log) a)
        → ((e : E) → r ≡ err e → Left (tally t log) e)
        → ((u : Tally) (a : A) → Mid u a → Counts u (k a) Post Left)
        → Counts t (follow log r k) Post Left
    counts_follow {Post = P} t log (ok a) k counted mid left next =
        let rest = next (tally t log) a (mid a refl) in
        let joined = tally-append t log (k a).events in
        record {
          counted = IsCounted-append t log (k a).events counted rest.counted;
          post = λ b h. subst (λ u. P u b) joined (rest.post b h);
          left = λ e h. subst (λ u. Left u e) joined (rest.left e h);
        }
    counts_follow t log (err e) k counted mid left next = record {
      counted = counted;
      post = λ b h. absurd cc;
      left = λ d h. left d (same h);
    }
      where
        same :
            {A B : Type 0} {a b : E}
            → ◌≡◌ {A = Result E A} (err a) (err b)
            → ◌≡◌ {A = Result E B} (err a) (err b)
        same h = cc

    -- One part after another.
    pub counts_bind :
        {A B : Type 0} {Mid : Tally → A → Type 0} {Post : Tally → B → Type 0} (t : Tally)
        (m : Logged (RunEvent D) E A) (k : A → Logged (RunEvent D) E B)
        → Counts t m Mid Left
        → ((u : Tally) (a : A) → Mid u a → Counts u (k a) Post Left)
        → Counts t (m >>= k) Post Left
    counts_bind t m k first next =
        counts_follow t m.events m.result k first.counted first.post first.left next

    -- One order.
    pub order-Counts :
        {F A : Type 0} (t : Tally) (stats : FillStats D) (intent : OrderIntent D)
        (leaves : Result F A → OrderOutcome D) (m : Logged Event F A)
        → stats ≡ t.stats
        → Counts t (of_order D stats intent leaves m) (λ u r. u ≡ after_outcome t (leaves r)) Left
    order-Counts {F} {A} t stats intent leaves m e =
        subst
          (λ s.
            Counts t (of_order D s intent leaves m) (λ u r. u ≡ after_outcome t (leaves r)) Left)
          (sym e)
          (let (counted, same) = label-tally t intent m.events (leaves m.result) in
            record {
              counted = counted;
              post = λ r h.
                  subst
                    (λ x.
                      tally t (of_order D {F = E} t.stats intent leaves m).events
                      ≡ after_outcome t (leaves x))
                    (ok-injective h) same;
              left = λ d h. absurd cc;
            })

  -- An order that is not placed changes nothing where none rests.
  pub untouched : (t : Tally) → t.held ≡ none → t ≡ after_outcome t gave_nothing
  untouched t e = ap (λ h. record t { held = h }) e

  -- The state of a loop agrees with the tally.
  abbrev pub IsBook : Tally → FillStats D → Option (RestingChild D) → Type 0
  IsBook t stats resting = (stats ≡ t.stats) × (resting ≡ t.held)

  -- A loop that is left may have failed, and an order that it could not settle is then held.
  abbrev pub IsLeft : Tally → FillStats D → Option (RestingChild D) → Bool → Type 0
  IsLeft t stats resting is_failed =
      (stats ≡ t.stats) × ((resting ≡ t.held) ⊎ ((resting ≡ none) × (is_failed ≡ true)))
