-- ===== src/Query/ResultCollector/Tally.antt =====
-- Lemmas on tallies.
use vec_fetch.Prelude.{
  ℕ, ◌+◌, ◌≤◌, ◌<◌, ◌≡◌, refl, ◌∙◌, arith, Bool, true, List, [], ◌∷◌, ltb, length,
}
use vec_fetch.Query.ResultCollector.{CollectorEntry, tally, reverse_onto}

abbrev pub below : ℕ → CollectorEntry → Bool
below t e = ltb e.distance t

pub tally-le_length :
    (p : CollectorEntry → Bool) (es : List CollectorEntry) → tally p es ≤ length es
unfolding tally
tally-le_length p [] = omega arith
tally-le_length p (e ∷ es) = ground (arith, tally-le_length p es)

pub tally-all : (es : List CollectorEntry) → tally (λ _. true) es ≡ length es
unfolding tally
tally-all [] = refl
tally-all (e ∷ es) = omega (arith, tally-all es)

-- If no entry exceeds `m`, all are below what exceeds `m`.
pub tally-below_max :
    (m t : ℕ) (es : List CollectorEntry)
    → tally (λ f. ltb m f.distance) es ≡ 0
    → m < t
    → tally (below t) es ≡ length es
unfolding tally
tally-below_max m t [] h lt = refl
tally-below_max m t (e ∷ es) h lt = ground (arith, tally-below_max m t es)

pub tally-reverse :
    (p : CollectorEntry → Bool) (es acc : List CollectorEntry)
    → tally p (reverse_onto es acc) ≡ tally p es + tally p acc
unfolding tally reverse_onto
tally-reverse p [] acc = omega arith
tally-reverse p (e ∷ es) acc = omega (arith, tally-reverse p es (e ∷ acc))

pub tally-reverse_nil :
    (p : CollectorEntry → Bool) (es : List CollectorEntry)
    → tally p (reverse_onto es []) ≡ tally p es
tally-reverse_nil p es = tally-reverse p es [] ∙ unfold tally in omega arith
