-- ===== src/LoadBalance/Bounds.antt =====
-- The places that the strategies without weights read (conreg-client/src/lb/random.rs,
-- conreg-client/src/lb/round.rs).
use conreg.Prelude.{
  ℕ, ◌<◌, String, some, List, [], ◌∷◌, ◌≡◌, refl, arith, ok, length, get_elem?, get_elem?-some,
  string_eq,
}
use conreg.LoadBalance.Client.{LoadBalanceStrategy, LoadBalanceClient, get_instance}
use conreg.LoadBalance.Instance.{Instance, Answer}
use conreg.LoadBalance.Random
use conreg.LoadBalance.Round
use conreg.LoadBalance.Strategy.{Fastrand, at}

-- An answer is an instance that stands in the list.
abbrev pub IsIn : List Instance → Answer → Type 0
IsIn is a =
    (k : ℕ) × (k < length is) × (i : Instance) × (a ≡ Answer.returned i) × (get_elem? is k ≡ some i)

at-IsIn : (is : List Instance) (k : ℕ) → k < length is → IsIn is (at is k)
unfolding at
at-IsIn is k h = let (i, e) = get_elem?-some is k h in (k, h, i, ground (arith, e), e)

-- A strategy that does not look at weights.
unfoldable pub Unweighted : LoadBalanceStrategy → Type 0
Unweighted LoadBalanceStrategy.random = Unit
Unweighted LoadBalanceStrategy.round_robin = Unit
Unweighted LoadBalanceStrategy.weighted_random = ⊥
Unweighted LoadBalanceStrategy.weighted_round_robin = ⊥

module _ (random : Fastrand) (service_id : String) (s : LoadBalanceClient) where
  -- The random choice and the round robin, whatever was asked before, return an instance of each list
  -- that is not empty: the place that they read is below the length of the list, so that they do not panic.
  pub get_instance-IsIn :
      (strategy : LoadBalanceStrategy) (i : Instance) (is : List Instance)
      → Unweighted strategy
      → IsIn (i ∷ is) (get_instance random service_id (ok (i ∷ is)) (some strategy) s).0
  unfolding get_instance Random.get_instance Round.get_instance Unweighted
  get_instance-IsIn LoadBalanceStrategy.random i [] u = (0, omega arith, i, refl, refl)
  get_instance-IsIn LoadBalanceStrategy.random i (j ∷ is) u =
      at-IsIn (i ∷ j ∷ is) (random.below (length (i ∷ j ∷ is)))
        (random.below-lt (length (i ∷ j ∷ is)) (omega arith))
  get_instance-IsIn LoadBalanceStrategy.round_robin i [] u = (0, omega arith, i, refl, refl)
  get_instance-IsIn LoadBalanceStrategy.round_robin i (j ∷ is) u =
      at-IsIn (i ∷ j ∷ is) _ (grind arith)
  get_instance-IsIn LoadBalanceStrategy.weighted_random i is u = absurd u
  get_instance-IsIn LoadBalanceStrategy.weighted_round_robin i is u = absurd u
