-- ===== src/Cmt/Members.antt =====
-- What the commands make of the members of the cluster (conreg-cmt/src/main.rs).
use conreg.Prelude.{
  ℕ, String, Bool, false, some, List, [], ◌∷◌, ◌++◌, Anyhow, ok, err, ◌≡◌, refl, ap, arith, ◌==◌,
  nat_eq, not, ◌&&◌, ◌||◌, contains, retain, Bool-cases, inl, inr, ◌⊎◌,
}
use conreg.Cmt.Commands.{
  RaftMetrics, Cluster, Said, End, first, existing, get_status, promote_nodes, remove_node,
}

-- The members, as the metrics tell them.
unfoldable pub is_member : {W : Type 0} → Cluster W → W → ℕ → Bool
unfolding get_status
is_member c w x = elim (get_status c w) [ err e ↦ false | ok m ↦ contains (first m.configs) x ]

-- What the tool relies on: a change that the cluster has taken makes the given nodes its members.
pub record IsKept {W : Type 0} (c : Cluster W) : Type 0 where
  pub kept :
      (ids : List ℕ) (w : W)
      → (c.change_membership ids w).0 ≡ ok tt
      → (m : RaftMetrics) × (c.metrics (c.change_membership ids w).1 ≡ ok (some m))
        × ((x : ℕ) → contains (first m.configs) x ≡ contains ids x)

contains-append :
    (xs ys : List ℕ) (x : ℕ) → contains (xs ++ ys) x ≡ (contains xs x || contains ys x)
contains-append [] ys x = refl
contains-append (z ∷ xs) ys x = ground (arith, contains-append xs ys x)

contains-retain :
    (n : ℕ) (xs : List ℕ) (x : ℕ)
    → contains (retain (λ id. not (id == n)) xs) x ≡ (contains xs x && not (x == n))
contains-retain n [] x = refl
contains-retain n (z ∷ xs) x = ground (arith, contains-retain n xs x)

-- A request is answered, or fails; the metrics are there, or are not.
taken-cases : (r : Anyhow (Unit {0})) → (r ≡ ok tt) ⊎ ((e : String) × (r ≡ err e))
taken-cases (ok tt) = inl refl
taken-cases (err e) = inr (e, refl)

status-cases :
    {W : Type 0} (c : Cluster W) (w : W)
    → ((m : RaftMetrics) × (get_status c w ≡ ok m)) ⊎ ((e : String) × (get_status c w ≡ err e))
status-cases c w =
    elim (get_status c w)
      as (λ r. ((m : RaftMetrics) × (r ≡ ok m)) ⊎ ((e : String) × (r ≡ err e))) [
        | ok m ↦ inl (m, refl)
        | err e ↦ inr (e, refl)
      ]

module _ {W : Type 0} (c : Cluster W) (sound : IsKept c) (w : W) where
  -- What the metrics tell after a change.
  is_member-changed :
      (ids : List ℕ) (x : ℕ)
      → (c.change_membership ids w).0 ≡ ok tt
      → is_member c (c.change_membership ids w).1 x ≡ contains ids x
  unfolding is_member get_status
  is_member-changed ids x h = let (m, e, same) = sound.kept ids w h in ground (arith, e, same x)

  -- A promotion that is said to have been made adds the given nodes, and no others.
  pub promote_nodes-is_member :
      (ids : List ℕ) (x : ℕ)
      → (promote_nodes c ids w).0 ≡ End.said (Said.promoted ids)
      → is_member c (promote_nodes c ids w).1 x ≡ (is_member c w x || contains ids x)
  unfolding promote_nodes is_member
  promote_nodes-is_member ids x h = elim (status-cases c w) [
    | inr (e, s) ↦ absurd (ground (arith, h, s))
    | inl (m, s) ↦
        let new = first m.configs ++ ids in
        elim (taken-cases (c.change_membership new w).0) [
          | inr (e, r) ↦ absurd (ground (arith, h, s, r))
          | inl r ↦
              ground
                (arith, h, s, r, is_member-changed new x r, contains-append (first m.configs) ids x)
        ]
  ]

  -- A removal that is said to have been made removes the given node, and no other.
  pub remove_node-is_member :
      (n x : ℕ)
      → (remove_node c n w).0 ≡ End.said (Said.removed n)
      → is_member c (remove_node c n w).1 x ≡ (is_member c w x && not (x == n))
  unfolding remove_node is_member
  remove_node-is_member n x h = elim (status-cases c w) [
    | inr (e, s) ↦ absurd (ground (arith, h, s))
    | inl (m, s) ↦
        let new = retain (λ id. not (id == n)) (first m.configs) in
        elim (taken-cases (c.change_membership new w).0) [
          | inr (e, r) ↦ absurd (ground (arith, h, s, r))
          | inl r ↦
              ground
                (arith, h, s, r, is_member-changed new x r, contains-retain n (first m.configs) x)
        ]
  ]

  -- Only a node that is no member is promoted.
  promote_nodes-new :
      (n : ℕ)
      → (promote_nodes c (n ∷ []) w).0 ≡ End.said (Said.promoted (n ∷ []))
      → is_member c w n ≡ false
  unfolding promote_nodes is_member existing
  promote_nodes-new n h = elim (status-cases c w) [
    | inr (e, s) ↦ absurd (ground (arith, h, s))
    | inl (m, s) ↦ elim (Bool-cases (contains (first m.configs) n)) [
      | inl old ↦ absurd (ground (arith, h, s, old))
      | inr new ↦ ground (arith, s, new)
    ]
  ]

-- A node that was promoted and then removed leaves the members of the cluster as they were.
pub remove_node-promote_nodes :
    {W : Type 0} (c : Cluster W) (w : W) (n x : ℕ)
    → IsKept c
    → (promote_nodes c (n ∷ []) w).0 ≡ End.said (Said.promoted (n ∷ []))
    → (remove_node c n (promote_nodes c (n ∷ []) w).1).0 ≡ End.said (Said.removed n)
    → is_member c (remove_node c n (promote_nodes c (n ∷ []) w).1).1 x ≡ is_member c w x
remove_node-promote_nodes c w n x sound promoted removed =
    let w' = (promote_nodes c (n ∷ []) w).1 in
    elim (Bool-cases (x == n)) [
      | inl same ↦ ground (
        arith,
        remove_node-is_member c sound w' n x removed,
        same,
        nat_eq.beq_iff x n,
        ap (is_member c w) ((nat_eq.beq_iff x n).0 same),
        promote_nodes-new c sound w n promoted,
      )
      | inr other ↦ ground (
        arith,
        remove_node-is_member c sound w' n x removed,
        promote_nodes-is_member c sound w (n ∷ []) x promoted,
        other,
        nat_eq.beq_iff n x,
        nat_eq.beq_iff x n,
      )
    ]
