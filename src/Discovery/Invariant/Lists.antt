-- ===== src/Discovery/Invariant/Lists.antt =====
-- How the list operations of conreg-server/src/discovery/discovery.rs treat ids and well-formed
-- instances.
use conreg.Prelude.{
  ℕ, ◌≡◌, refl, String, Bool, false, List, [], ◌∷◌, ◌++◌, map, arith, ◌==◌, string_eq, not, ◌||◌,
  retain, eq_iff, All, NoRepeat, contains,
}
use conreg.Discovery.Instance.{ServiceInstance}
use conreg.Discovery.Registry.{update_first, beat, check_instance}
use conreg.Discovery.Invariant.{ids, Fits}

pub contains-retain :
    (j : String) (p : ServiceInstance → Bool) (is : List ServiceInstance)
    → contains (ids is) j ≡ false
    → contains (ids (retain p is)) j ≡ false
contains-retain j p [] h = h
contains-retain j p (x ∷ is) h = ground (arith, contains-retain j p is)

pub retain-NoRepeat :
    (p : ServiceInstance → Bool) (is : List ServiceInstance)
    → NoRepeat (ids is)
    → NoRepeat (ids (retain p is))
retain-NoRepeat p [] h = h
retain-NoRepeat p (x ∷ is) h = ground (arith, retain-NoRepeat p is, contains-retain x.id p is)

pub contains-retain_ne :
    (k : String) (is : List ServiceInstance)
    → contains (ids (retain (λ item. not (item.id == k)) is)) k ≡ false
contains-retain_ne k [] = refl
contains-retain_ne k (x ∷ is) = ground (arith, contains-retain_ne k is)

pub contains-snoc :
    (j : String) (i : ServiceInstance) (is : List ServiceInstance)
    → contains (ids (is ++ (i ∷ []))) j ≡ (contains (ids is) j || i.id == j)
contains-snoc j i [] = ground arith
contains-snoc j i (x ∷ is) = ground (arith, contains-snoc j i is)

pub snoc-NoRepeat :
    (i : ServiceInstance) (is : List ServiceInstance)
    → contains (ids is) i.id ≡ false
    → NoRepeat (ids is)
    → NoRepeat (ids (is ++ (i ∷ [])))
snoc-NoRepeat i [] h n = (refl, tt)
snoc-NoRepeat i (x ∷ is) h n =
    ground (arith, snoc-NoRepeat i is, contains-snoc x.id i is, eq_iff i.id x.id, eq_iff x.id i.id)

pub ids-beat : (now : ℕ) (k : String) (is : List ServiceInstance) → ids (beat now k is).1 ≡ ids is
unfolding beat
ids-beat now k [] = refl
ids-beat now k (x ∷ is) = ground (arith, ids-beat now k is)

pub beat-Fits :
    (s : String) (now : ℕ) (k : String) (is : List ServiceInstance)
    → All (Fits s) is
    → All (Fits s) (beat now k is).1
unfolding beat
beat-Fits s now k [] h = h
beat-Fits s now k (x ∷ is) h = ground (arith, beat-Fits s now k is)

pub ids-update_first :
    (p : ServiceInstance → Bool) (f : ServiceInstance → ServiceInstance) (is : List ServiceInstance)
    → ((i : ServiceInstance) → (f i).id ≡ i.id)
    → ids (update_first p f is) ≡ ids is
unfolding update_first
ids-update_first p f [] keep = refl
ids-update_first p f (x ∷ is) keep = ground (arith, ids-update_first p f is keep, keep x)

pub update_first-Fits :
    (s : String) (p : ServiceInstance → Bool) (f : ServiceInstance → ServiceInstance)
    (is : List ServiceInstance)
    → ((i : ServiceInstance) → Fits s i → Fits s (f i))
    → All (Fits s) is
    → All (Fits s) (update_first p f is)
unfolding update_first
update_first-Fits s p f [] keep h = h
update_first-Fits s p f (x ∷ is) keep h =
    ground (arith, update_first-Fits s p f is keep, keep x h.0)

pub ids-check :
    (now timeout : ℕ) (is : List ServiceInstance)
    → ids (map (check_instance now timeout) is) ≡ ids is
unfolding check_instance
ids-check now timeout [] = refl
ids-check now timeout (x ∷ is) = ground (arith, ids-check now timeout is)

pub check-Fits :
    (s : String) (now timeout : ℕ) (is : List ServiceInstance)
    → All (Fits s) is
    → All (Fits s) (map (check_instance now timeout) is)
unfolding check_instance
check-Fits s now timeout [] h = h
check-Fits s now timeout (x ∷ is) h = ground (arith, check-Fits s now timeout is)
