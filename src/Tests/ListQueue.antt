-- ===== src/Tests/ListQueue.antt =====
-- A priority queue on a list, to run the collector with.
use mathlib.Core.Option.{some-injective}
use vec_fetch.Prelude.{
  ℕ, ◌+◌, ◌≤◌, ◌≡◌, refl, sym, ap, ◌∙◌, arith, Bool, Bool-cases, inl, inr, List, [], ◌∷◌, Option,
  none, some, ltb, if◌then◌else◌,
}
use vec_fetch.Query.ResultCollector.{CollectorEntry, tally, PriorityQueue}

abbrev pub Pulled : Type 0
Pulled = CollectorEntry × List CollectorEntry

-- The farthest entry, and the others.
unfoldable pub pull : List CollectorEntry → Option Pulled
pull [] = none
pull (e ∷ es) = elim (pull es) [
  | none ↦ some (e, es)
  | some (m, rest) ↦ if ltb m.distance e.distance then some (e, es) else some (m, e ∷ rest)
]

abbrev pub IsPulled : List CollectorEntry → Option Pulled → Type 0
IsPulled es none = es ≡ []
IsPulled es (some (m, rest)) =
    (tally (λ f. ltb m.distance f.distance) es ≡ 0)
    × ((p : CollectorEntry → Bool) → tally p rest + (if p m then 1 else 0) ≡ tally p es)

over_less :
    (a b : ℕ) (es : List CollectorEntry)
    → a ≤ b
    → tally (λ f. ltb a f.distance) es ≡ 0
    → tally (λ f. ltb b f.distance) es ≡ 0
unfolding tally
over_less a b [] h z = refl
over_less a b (e ∷ es) h z = ground (arith, over_less a b es)

pull-step :
    (e : CollectorEntry) (es : List CollectorEntry) (r : Option Pulled)
    → pull es ≡ r
    → IsPulled es r
    → IsPulled (e ∷ es) (pull (e ∷ es))
unfolding pull tally
pull-step e es none run h =
    let none_over : tally (λ f. ltb e.distance f.distance) es ≡ 0 =
      ap (tally (λ f. ltb e.distance f.distance)) h in
    rw run (ground (arith, none_over), λ p. omega arith)
pull-step e es (some (m, rest)) run (z, t) = elim (Bool-cases (ltb m.distance e.distance)) [
  | inl far ↦ rw (run, far) (ground (arith, over_less m.distance e.distance es), λ p. omega arith)
  | inr near ↦ rw (run, near) (ground arith, λ p. omega (arith, t p))
]

pub pull_lem : (es : List CollectorEntry) → IsPulled es (pull es)
pull_lem [] = unfold pull in refl
pull_lem (e ∷ es) = pull-step e es (pull es) refl (pull_lem es)

abbrev pub pulled_top : Option Pulled → Option CollectorEntry
pulled_top none = none
pulled_top (some (m, rest)) = some m

abbrev pub pulled_rest : Option Pulled → List CollectorEntry
pulled_rest none = []
pulled_rest (some (m, rest)) = rest

pub none-pulled :
    (es : List CollectorEntry) (r : Option Pulled) → IsPulled es r → pulled_top r ≡ none → es ≡ []
none-pulled es none h e = h
none-pulled es (some (m, rest)) h e = cc

pub max-pulled :
    (es : List CollectorEntry) (r : Option Pulled) (e : CollectorEntry)
    → IsPulled es r
    → pulled_top r ≡ some e
    → tally (λ f. ltb e.distance f.distance) es ≡ 0
max-pulled es none e h t = cc
max-pulled es (some (m, rest)) e (z, u) t =
    let same : m ≡ e = some-injective m e t in
    ap (λ (x : CollectorEntry). tally (λ f. ltb x.distance f.distance) es) (sym same) ∙ z

pub tally-pulled :
    (es : List CollectorEntry) (r : Option Pulled) (e : CollectorEntry) (p : CollectorEntry → Bool)
    → IsPulled es r
    → pulled_top r ≡ some e
    → tally p (pulled_rest r) + (if p e then 1 else 0) ≡ tally p es
tally-pulled es none e p h t = cc
tally-pulled es (some (m, rest)) e p (z, u) t =
    let same : m ≡ e = some-injective m e t in
    ap (λ (x : CollectorEntry). tally p rest + (if p x then 1 else 0)) (sym same) ∙ u p

pub tally-added :
    (p : CollectorEntry → Bool) (e : CollectorEntry) (q : List CollectorEntry)
    → tally p (e ∷ q) ≡ (if p e then 1 else 0) + tally p q
unfolding tally
tally-added p e q = refl

abbrev pub list_queue : PriorityQueue
list_queue = record {
  Queue = List CollectorEntry;
  empty = [];
  push = λ e q. e ∷ q;
  top = λ q. pulled_top (pull q);
  pop = λ q. pulled_rest (pull q);
  entries = λ q. q;
  entries-empty = refl;
  tally-push = tally-added;
  top_none = λ q h. none-pulled q (pull q) (pull_lem q) h;
  top_max = λ q e h. max-pulled q (pull q) e (pull_lem q) h;
  tally-pop = λ q e p h. tally-pulled q (pull q) e p (pull_lem q) h;
}
