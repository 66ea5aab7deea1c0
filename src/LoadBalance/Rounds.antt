-- ===== src/LoadBalance/Rounds.antt =====
-- A whole period of calls of the two strategies that go round (conreg-client/src/lb/round.rs and
-- conreg-client/src/lb/weight_round.rs), while the list of instances stays the same.
use conreg.Prelude.{
  ℕ, zero, suc, ◌+◌, ◌%◌, ◌<◌, String, some, List, [], ◌∷◌, ◌++◌, string_eq, nat_eq, ok, length,
  get_elem?, unwrap_or, All, ◌≡◌, refl, arith, length-append, map, ap, sym, ◌∙◌,
}
use conreg.Prelude.Int.{two_64}
use conreg.DashMap
use conreg.DashMap.{DashMap, get-insert_self}
use conreg.LoadBalance.Instance.{Instance, Answer}
use conreg.LoadBalance.Strategy.{at}
use conreg.LoadBalance.Round
use conreg.LoadBalance.WeightRound
use conreg.LoadBalance.Weights.{slots, IsWeighted, weight_round-slots}

-- The answers of `n` calls one after the other, and the state after them.
unfoldable pub calls {ℓ} : {S : Type ℓ} → (S → Answer × S) → ℕ → S → List Answer × S
calls f zero s = ([], s)
calls f (suc n) s = let (answer, t) = f s in let (answers, u) = calls f n t in (answer ∷ answers, u)

calls-suc {ℓ} :
    {S : Type ℓ} (f : S → Answer × S) (n : ℕ) (s t : S) (a : Answer)
    → f s ≡ (a, t)
    → calls f (suc n) s ≡ (a ∷ (calls f n t).0, (calls f n t).1)
unfolding calls
calls-suc f n s t a h = ap (λ r. (r.0 ∷ (calls f n r.1).0, (calls f n r.1).1)) h

calls-snoc {ℓ} :
    {S : Type ℓ} (f : S → Answer × S) (n : ℕ) (s u : S) (a : Answer)
    → f (calls f n s).1 ≡ (a, u)
    → calls f (suc n) s ≡ ((calls f n s).0 ++ (a ∷ []), u)
unfolding calls
calls-snoc f zero s u a h = ap (λ r. (r.0 ∷ [], r.1)) h
calls-snoc f (suc n) s u a h = ap (λ r. ((f s).0 ∷ r.0, r.1)) (calls-snoc f n (f s).1 u a h)

map-snoc :
    (is : List Instance) (i : Instance)
    → map Answer.returned (is ++ (i ∷ [])) ≡ map Answer.returned is ++ (Answer.returned i ∷ [])
map-snoc [] i = refl
map-snoc (j ∷ is) i = ap (◌∷◌ (Answer.returned j)) (map-snoc is i)

get_elem?-middle :
    (pre : List Instance) (x : Instance) (post : List Instance)
    → get_elem? (pre ++ (x ∷ post)) (length pre) ≡ some x
get_elem?-middle [] x post = refl
get_elem?-middle (p ∷ pre) x post = get_elem?-middle pre x post

append-snoc :
    (pre : List Instance) (x : Instance) (post : List Instance)
    → pre ++ (x ∷ post) ≡ (pre ++ (x ∷ [])) ++ post
append-snoc [] x post = refl
append-snoc (p ∷ pre) x post = ap (◌∷◌ p) (append-snoc pre x post)

at-middle :
    (pre : List Instance) (x : Instance) (post : List Instance)
    → at (pre ++ (x ∷ post)) (length pre) ≡ Answer.returned x
unfolding at
at-middle pre x post = ground (arith, get_elem?-middle pre x post)

length-snoc : (pre : List Instance) (x : Instance) → length (pre ++ (x ∷ [])) ≡ suc (length pre)
length-snoc pre x = omega (arith, length-append pre (x ∷ []))

module _ (service_id : String) (i j : Instance) (is : List Instance) where
  -- the counter of the service
  abbrev pub counter : DashMap String ℕ → ℕ
  counter s = unwrap_or (DashMap.get service_id s) 0

  weighted-rest :
      (pre post : List Instance) (s : DashMap String ℕ)
      → All IsWeighted (i ∷ j ∷ is)
      → length (slots (i ∷ j ∷ is)) < two_64
      → slots (i ∷ j ∷ is) ≡ pre ++ post
      → counter s ≡ length pre
      → ((calls (WeightRound.get_instance service_id (ok (i ∷ j ∷ is))) (length post) s).0
          ≡ map Answer.returned post)
        × (counter (calls (WeightRound.get_instance service_id (ok (i ∷ j ∷ is))) (length post) s).1
            ≡ length pre + length post)
  unfolding calls
  weighted-rest pre [] s h b e c = (refl, omega (arith, c))
  weighted-rest pre (x ∷ post) s h b e c =
      let t = DashMap.insert service_id ((counter s + 1) % two_64) s in
      let n : length (slots (i ∷ j ∷ is)) ≡ length pre + suc (length post) =
        ap length e ∙ length-append pre (x ∷ post) in
      let place : counter s % length (slots (i ∷ j ∷ is)) ≡ length pre = grind (arith, n, c) in
      let one : WeightRound.get_instance service_id (ok (i ∷ j ∷ is)) s ≡ (Answer.returned x, t) =
        weight_round-slots service_id i j is s h (omega (arith, n)) b
        ∙ ap (λ a. (a, t))
            (ap (at (slots (i ∷ j ∷ is))) place
              ∙ (ap (λ l. at l (length pre)) e ∙ at-middle pre x post)) in
      let t_counter : counter t ≡ length (pre ++ (x ∷ [])) = ground (
        arith,
        get-insert_self service_id ((counter s + 1) % two_64) s,
        length-snoc pre x,
        c,
        n,
        b,
      ) in
      let rest =
        weighted-rest (pre ++ (x ∷ [])) post t h b (e ∙ append-snoc pre x post) t_counter in
      let step =
        calls-suc (WeightRound.get_instance service_id (ok (i ∷ j ∷ is))) (length post) s t
          (Answer.returned x) one in
      (
        ap (λ r. r.0) step ∙ ap (◌∷◌ (Answer.returned x)) rest.0,
        ap (λ r. counter r.1) step ∙ (rest.1 ∙ omega (arith, length-snoc pre x)),
      )

  -- For two or more instances whose weights can be read and add up to less than 2 ^ 64: from a counter at 0, as
  -- many calls of the weighted round robin as the weights add up to return every instance exactly as often as its
  -- weight says, in the order of the list. The counter stands at the sum of the weights then.
  pub weight_round-period :
      (s : DashMap String ℕ)
      → All IsWeighted (i ∷ j ∷ is)
      → length (slots (i ∷ j ∷ is)) < two_64
      → counter s ≡ 0
      → ((calls
            (WeightRound.get_instance service_id (ok (i ∷ j ∷ is)))
            (length (slots (i ∷ j ∷ is)))
            s).0
          ≡ map Answer.returned (slots (i ∷ j ∷ is)))
        × (counter
              (calls
                (WeightRound.get_instance service_id (ok (i ∷ j ∷ is)))
                (length (slots (i ∷ j ∷ is)))
                s).1
            ≡ length (slots (i ∷ j ∷ is)))
  weight_round-period s h b c =
      let run = weighted-rest [] (slots (i ∷ j ∷ is)) s h b refl c in (run.0, omega (arith, run.1))

  round-one :
      (pre : List Instance) (x y : Instance) (post : List Instance) (s : DashMap String ℕ)
      → i ∷ j ∷ is ≡ pre ++ (x ∷ y ∷ post)
      → counter s ≡ length pre
      → Round.get_instance service_id (ok (i ∷ j ∷ is)) s
        ≡ (Answer.returned y, DashMap.insert service_id (length pre + 1) s)
  unfolding Round.get_instance
  round-one pre x y post s e c =
      let n : suc (suc (length is)) ≡ length pre + suc (suc (length post)) =
        ap length e ∙ length-append pre (x ∷ y ∷ post) in
      let place : (counter s + 1) % suc (suc (length is)) ≡ length pre + 1 = grind (arith, n, c) in
      let split : i ∷ j ∷ is ≡ (pre ++ (x ∷ [])) ++ (y ∷ post) = e ∙ append-snoc pre x (y ∷ post) in
      let end : length (pre ++ (x ∷ [])) ≡ length pre + 1 = omega (arith, length-snoc pre x) in
      ap (λ k. (at (i ∷ j ∷ is) k, DashMap.insert service_id k s)) place
      ∙ ap (λ a. (a, DashMap.insert service_id (length pre + 1) s))
          (ap (λ l. at l (length pre + 1)) split
            ∙ (ap (at ((pre ++ (x ∷ [])) ++ (y ∷ post))) (sym end)
                ∙ at-middle (pre ++ (x ∷ [])) y post))

  round-rest :
      (pre : List Instance) (x : Instance) (post : List Instance) (s : DashMap String ℕ)
      → i ∷ j ∷ is ≡ pre ++ (x ∷ post)
      → counter s ≡ length pre
      → ((calls (Round.get_instance service_id (ok (i ∷ j ∷ is))) (length post) s).0
          ≡ map Answer.returned post)
        × (counter (calls (Round.get_instance service_id (ok (i ∷ j ∷ is))) (length post) s).1
            ≡ length pre + length post)
  unfolding calls
  round-rest pre x [] s e c = (refl, omega (arith, c))
  round-rest pre x (y ∷ post) s e c =
      let t = DashMap.insert service_id (length pre + 1) s in
      let t_counter : counter t ≡ length (pre ++ (x ∷ [])) =
        ground (arith, get-insert_self service_id (length pre + 1) s, length-snoc pre x) in
      let rest =
        round-rest (pre ++ (x ∷ [])) y post t (e ∙ append-snoc pre x (y ∷ post)) t_counter in
      let step =
        calls-suc (Round.get_instance service_id (ok (i ∷ j ∷ is))) (length post) s t
          (Answer.returned y) (round-one pre x y post s e c) in
      (
        ap (λ r. r.0) step ∙ ap (◌∷◌ (Answer.returned y)) rest.0,
        ap (λ r. counter r.1) step ∙ (rest.1 ∙ omega (arith, length-snoc pre x)),
      )

  -- The call behind the last instance starts over.
  round-wrap :
      (s : DashMap String ℕ)
      → counter s ≡ length (j ∷ is)
      → Round.get_instance service_id (ok (i ∷ j ∷ is)) s
        ≡ (Answer.returned i, DashMap.insert service_id 0 s)
  unfolding Round.get_instance at
  round-wrap s c =
      let place : (counter s + 1) % suc (suc (length is)) ≡ 0 = grind (arith, c) in
      ap (λ k. (at (i ∷ j ∷ is) k, DashMap.insert service_id k s)) place

  -- From an index at 0, which a service starts with, as many calls of the round robin as there are
  -- instances, two or more, return each of them once: the second one first, and the first one last.
  -- The index is at 0 again then, so that the next calls go the same round.
  pub round-period :
      (s : DashMap String ℕ)
      → counter s ≡ 0
      → ((calls (Round.get_instance service_id (ok (i ∷ j ∷ is))) (length (i ∷ j ∷ is)) s).0
          ≡ map Answer.returned ((j ∷ is) ++ (i ∷ [])))
        × (counter
              (calls (Round.get_instance service_id (ok (i ∷ j ∷ is))) (length (i ∷ j ∷ is)) s).1
            ≡ 0)
  round-period s c =
      let f = Round.get_instance service_id (ok (i ∷ j ∷ is)) in
      let run = round-rest [] i (j ∷ is) s refl c in
      let t = (calls f (length (j ∷ is)) s).1 in
      let last = round-wrap t (run.1 ∙ omega arith) in
      let all =
        calls-snoc f (length (j ∷ is)) s (DashMap.insert service_id 0 t) (Answer.returned i) last in
      (
        ap (λ r. r.0) all
            ∙ (ap (λ l. l ++ (Answer.returned i ∷ [])) run.0 ∙ sym (map-snoc (j ∷ is) i)),
        ap (λ r. counter r.1) all ∙ ap (λ o. unwrap_or o 0) (get-insert_self service_id 0 t),
      )
