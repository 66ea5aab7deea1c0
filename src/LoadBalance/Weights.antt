-- ===== src/LoadBalance/Weights.antt =====
-- The weighted strategies against a list of slots, in which each instance stands as often as its weight
-- says (conreg-client/src/lb/weight_round.rs, conreg-client/src/lb/weight_random.rs).
use conreg.Prelude.{
  ℕ, zero, suc, ◌+◌, ◌-◌, ◌%◌, ◌<◌, ◌≤◌, String, some, List, [], ◌∷◌, ◌++◌, string_eq, nat_eq, ltb,
  if◌then◌else◌, ok, length, get_elem?, unwrap_or, All, ◌≡◌, refl, arith, length-append,
}
use conreg.Prelude.Int.{two_64}
use conreg.DashMap
use conreg.DashMap.{DashMap}
use conreg.LoadBalance.Instance.{Instance, get_weight, Answer}
use conreg.LoadBalance.Strategy.{Fastrand, at, total_weight, choose}
use conreg.LoadBalance.WeightRound
use conreg.LoadBalance.WeightRandom

-- The instance's weight, 0 where the source stops.
abbrev pub weight : Instance → ℕ
weight i = unwrap_or (get_weight i) 0

abbrev pub repeat : ℕ → Instance → List Instance
repeat zero i = []
repeat (suc n) i = i ∷ repeat n i

unfoldable pub slots : List Instance → List Instance
slots [] = []
slots (i ∷ is) = repeat (weight i) i ++ slots is

-- The instance has a weight that the source can read.
abbrev pub IsWeighted : Instance → Type 0
IsWeighted i = get_weight i ≡ some (weight i)

length-repeat : (n : ℕ) (i : Instance) → length (repeat n i) ≡ n
length-repeat zero i = refl
length-repeat (suc n) i = ground (arith, length-repeat n i)

get_elem?-repeat :
    (n p : ℕ) (i : Instance) (ys : List Instance)
    → get_elem? (repeat n i ++ ys) p ≡ (if ltb p n then some i else get_elem? ys (p - n))
get_elem?-repeat zero p i ys = ground arith
get_elem?-repeat (suc n) zero i ys = ground arith
get_elem?-repeat (suc n) (suc p) i ys = ground (arith, get_elem?-repeat n p i ys)

length-slots :
    (i : Instance) (is : List Instance) → length (slots (i ∷ is)) ≡ weight i + length (slots is)
unfolding slots
length-slots i is =
    ground (arith, length-append (repeat (weight i) i) (slots is), length-repeat (weight i) i)

pub total_weight-slots :
    (is : List Instance)
    → All IsWeighted is
    → length (slots is) < two_64
    → total_weight is ≡ some (length (slots is))
unfolding total_weight
total_weight-slots [] h b = unfold slots in refl
total_weight-slots (i ∷ is) h b = ground (arith, length-slots i is, total_weight-slots is h.1, h.0)

at-slots :
    (i : Instance) (is : List Instance) (p : ℕ)
    → at (slots (i ∷ is)) p
      ≡ (if ltb p (weight i) then Answer.returned i else at (slots is) (p - weight i))
unfolding at slots
at-slots i is p = ground (arith, get_elem?-repeat (weight i) p i (slots is))

pub choose-slots :
    (position sum : ℕ) (first : Instance) (is : List Instance)
    → All IsWeighted is
    → sum + length (slots is) < two_64
    → sum ≤ position
    → position < sum + length (slots is)
    → choose position sum first is ≡ at (slots is) (position - sum)
unfolding choose
choose-slots position sum first [] h b c d = absurd (unfold slots in ground arith)
choose-slots position sum first (i ∷ is) h b c d = ground (
  arith,
  length-slots i is,
  h.0,
  choose-slots position (sum + weight i) first is h.1,
  at-slots i is (position - sum),
)

choose-start :
    (position : ℕ) (first : Instance) (is : List Instance)
    → All IsWeighted is
    → length (slots is) < two_64
    → position < length (slots is)
    → choose position 0 first is ≡ at (slots is) position
choose-start position first is h b c =
    ground (
      arith,
      choose-slots position 0 first is h (omega (arith, b)) (omega arith) (omega (arith, c)),
    )

module _ (service_id : String) (i j : Instance) (is : List Instance) where
  -- A call of the weighted round robin among two instances or more, whose weights are readable and add
  -- up to a positive number below 2 ^ 64, returns the instance of the slot at the counter's remainder;
  -- the counter moves by one, round 2 ^ 64. The loop never runs to its end.
  pub weight_round-slots :
      (s : DashMap String ℕ)
      → All IsWeighted (i ∷ j ∷ is)
      → 0 < length (slots (i ∷ j ∷ is))
      → length (slots (i ∷ j ∷ is)) < two_64
      → WeightRound.get_instance service_id (ok (i ∷ j ∷ is)) s ≡ (
        at
            (slots (i ∷ j ∷ is))
            (unwrap_or (DashMap.get service_id s) 0 % length (slots (i ∷ j ∷ is))),
        DashMap.insert service_id ((unwrap_or (DashMap.get service_id s) 0 + 1) % two_64) s,
      )
  unfolding WeightRound.get_instance
  weight_round-slots s h p b =
      let n = length (slots (i ∷ j ∷ is)) in
      let c = unwrap_or (DashMap.get service_id s) 0 in
      ground (
        arith,
        total_weight-slots (i ∷ j ∷ is) h b,
        choose-start (c % n) i (i ∷ j ∷ is) h b (omega (arith, p)),
      )

  -- A call of the weighted random strategy among such instances returns the instance of the slot that
  -- the random generator drew: one slot of an instance is as likely as any other.
  pub weight_random-slots :
      (random : Fastrand)
      → All IsWeighted (i ∷ j ∷ is)
      → 0 < length (slots (i ∷ j ∷ is))
      → length (slots (i ∷ j ∷ is)) < two_64
      → (WeightRandom.get_instance random service_id (ok (i ∷ j ∷ is))
          ≡ at (slots (i ∷ j ∷ is)) (random.below (length (slots (i ∷ j ∷ is)))))
        × (random.below (length (slots (i ∷ j ∷ is))) < length (slots (i ∷ j ∷ is)))
  unfolding WeightRandom.get_instance
  weight_random-slots random h p b =
      let n = length (slots (i ∷ j ∷ is)) in
      (
        ground (
          arith,
          total_weight-slots (i ∷ j ∷ is) h b,
          random.below-lt n p,
          choose-start (random.below n) i (i ∷ j ∷ is) h b (random.below-lt n p),
        ),
        random.below-lt n p,
      )

  -- Where every weight is 0, both weighted strategies panic: one divides by 0, the other draws from an
  -- empty range.
  pub get_instance-weightless :
      (random : Fastrand) (s : DashMap String ℕ)
      → All IsWeighted (i ∷ j ∷ is)
      → length (slots (i ∷ j ∷ is)) ≡ 0
      → ((WeightRound.get_instance service_id (ok (i ∷ j ∷ is)) s).0 ≡ Answer.panicked)
        × (WeightRandom.get_instance random service_id (ok (i ∷ j ∷ is)) ≡ Answer.panicked)
  unfolding WeightRound.get_instance WeightRandom.get_instance
  get_instance-weightless random s h z =
      let total = total_weight-slots (i ∷ j ∷ is) h (omega (arith, z)) in
      (ground (arith, total), ground (arith, total))
