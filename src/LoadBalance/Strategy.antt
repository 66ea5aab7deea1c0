-- ===== src/LoadBalance/Strategy.antt =====
-- What the four strategies share (conreg-client/src/lb/weight_round.rs and the files beside it).
-- `found` is what `AppDiscovery::get_instances` returned; `Fastrand` is the random generator: a number
-- below its bound, on a bound that is not 0. `usize` has 64 bits.
use conreg.Prelude.{
  ℕ, ◌+◌, ◌%◌, ◌<◌, String, Option, none, some, List, [], ◌∷◌, string_eq, nat_eq, ltb,
  if◌then◌else◌, Result, ok, err, get_elem?,
}
use conreg.Prelude.Int.{two_64}
use conreg.LoadBalance.Instance.{Instance, get_weight, LoadBalanceError, Answer}

pub record Fastrand : Type 0 where
  pub below : ℕ → ℕ
  pub below-lt : (n : ℕ) → 0 < n → below n < n

-- `instances[i].clone()`
unfoldable pub at : List Instance → ℕ → Answer
at is i = elim (get_elem? is i) [ none ↦ Answer.panicked | some x ↦ Answer.returned x ]

-- What the four have in common: a failed request, no instance, and a single one, which is returned
-- without a choice. `choice` goes on from two instances or more.
abbrev pub among :
    {S : Type 0}
    → String
    → Result (List Instance) String
    → S
    → (List Instance → Answer × S)
    → Answer × S
among service_id (err e) s choice = (Answer.failed (LoadBalanceError.get_instances_error e), s)
among service_id (ok []) s choice =
    (Answer.failed (LoadBalanceError.no_available_instance service_id), s)
among service_id (ok (i ∷ [])) s choice = (Answer.returned i, s)
among service_id (ok (i ∷ j ∷ is)) s choice = choice (i ∷ j ∷ is)

-- The sum of the weights, as a `u64`.
unfoldable pub total_weight : List Instance → Option ℕ
unfolding get_weight
total_weight [] = some 0
total_weight (i ∷ is) =
    let rest = total_weight is in
    elim (get_weight i) [
      | none ↦ none
      | some w ↦ elim rest [ none ↦ none | some t ↦ some ((w + t) % two_64) ]
    ]

-- The loop that adds the weights up until they pass the position, and `instances[0]` behind it.
unfoldable pub choose : ℕ → ℕ → Instance → List Instance → Answer
unfolding get_weight
choose position current_weight first [] = Answer.returned first
choose position current_weight first (i ∷ is) = elim (get_weight i) [
  | none ↦ Answer.panicked
  | some weight ↦
      let sum = (current_weight + weight) % two_64 in
      let rest = choose position sum first is in
      if ltb position sum then Answer.returned i else rest
]
