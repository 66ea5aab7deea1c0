-- ===== src/Raft/Log.antt =====
-- What the log holds after each operation, and what a reader gets of it
-- (conreg-server/src/raft/store/sled_log_store.rs, lines 66 to 268).
use conreg.Prelude.{
  ℕ, ◌+◌, ◌≤◌, ◌<◌, Bool, false, Option, none, some, List, [], ◌∷◌, nat_eq, ltb, leb, not,
  if◌then◌else◌, retain, ◌≡◌, refl, arith, inl, inr, Bool-cases, Option-cases, ap, ◌∙◌,
}
use conreg.Raft.LogStore.{
  LogId, Entry, Bound, LogStore, tree_insert, start_of, end_of, in_range, read_entries,
  try_get_log_entries, append, truncate, purge,
}

-- The keys grow from `lo` on, and every entry stands under its index.
unfoldable pub From : ℕ → List (ℕ × Entry) → Type 0
From lo [] = Unit
From lo ((k, e) ∷ rest) = (lo ≤ k) × (k ≡ e.log_id.index) × From (k + 1) rest

abbrev pub IsLog : LogStore → Type 0
IsLog s = From 0 s.logs

From-weaken : (a b : ℕ) (l : List (ℕ × Entry)) → a ≤ b → From b l → From a l
unfolding From
From-weaken a b [] h f = tt
From-weaken a b ((k, e) ∷ rest) h f = (omega (arith, f.0), f.1, f.2)

From-tree_insert :
    (lo : ℕ) (e : Entry) (l : List (ℕ × Entry))
    → lo ≤ e.log_id.index
    → From lo l
    → From lo (tree_insert e.log_id.index e l)
unfolding From tree_insert
From-tree_insert lo e [] h f = (h, refl, tt)
From-tree_insert lo e ((j, g) ∷ rest) h f = elim (Bool-cases (ltb e.log_id.index j)) [
  | inl below ↦ rw below (h, refl, (ground arith, f.1, f.2))
  | inr other ↦ elim (Bool-cases (nat_eq.beq e.log_id.index j)) [
    | inl same ↦
        rw (other, same) (h, refl, From-weaken (e.log_id.index + 1) (j + 1) rest (ground arith) f.2)
    | inr above ↦ rw (other, above) (f.0, f.1, From-tree_insert (j + 1) e rest (ground arith) f.2)
  ]
]

From-retain :
    (keep : ℕ → Bool) (lo : ℕ) (l : List (ℕ × Entry))
    → From lo l
    → From lo (retain (λ r. keep r.0) l)
unfolding From
From-retain keep lo [] f = tt
From-retain keep lo ((k, e) ∷ rest) f = elim (Bool-cases (keep k)) [
  | inl kept ↦ rw kept (f.0, f.1, From-retain keep (k + 1) rest f.2)
  | inr gone ↦ rw gone (
      From-weaken lo (k + 1) (retain (λ r. keep r.0) rest) (omega (arith, f.0))
        (From-retain keep (k + 1) rest f.2))
]

From-append : (es : List Entry) (s : LogStore) → IsLog s → IsLog (append es s)
unfolding append
From-append [] s f = f
From-append (e ∷ es) s f =
    From-append es (record s { logs = tree_insert e.log_id.index e s.logs })
      (From-tree_insert 0 e s.logs (omega arith) f)

-- The entry that the log holds under an index.
unfoldable pub entry_at : ℕ → List (ℕ × Entry) → Option Entry
entry_at i [] = none
entry_at i ((k, e) ∷ rest) = if nat_eq.beq k i then some e else entry_at i rest

-- The last of the entries that has the index, if one has it, and otherwise what was there.
unfoldable pub newest : ℕ → List Entry → Option Entry → Option Entry
newest i [] old = old
newest i (e ∷ es) old = newest i es (if nat_eq.beq e.log_id.index i then some e else old)

entry_at-tree_insert :
    (i k : ℕ) (e : Entry) (l : List (ℕ × Entry))
    → entry_at i (tree_insert k e l) ≡ (if nat_eq.beq k i then some e else entry_at i l)
unfolding entry_at tree_insert
entry_at-tree_insert i k e [] = refl
entry_at-tree_insert i k e ((j, f) ∷ rest) = ground (arith, entry_at-tree_insert i k e rest)

entry_at-retain :
    (keep : ℕ → Bool) (i : ℕ) (l : List (ℕ × Entry))
    → entry_at i (retain (λ r. keep r.0) l) ≡ (if keep i then entry_at i l else none)
unfolding entry_at
entry_at-retain keep i [] = ground arith
entry_at-retain keep i ((k, e) ∷ rest) = elim (Bool-cases (nat_eq.beq k i)) [
  | inl same ↦
      let eq : k ≡ i = ground arith in ground (arith, entry_at-retain keep i rest, ap keep eq)
  | inr other ↦ ground (arith, entry_at-retain keep i rest)
]

entry_at-append :
    (es : List Entry) (i : ℕ) (s : LogStore)
    → entry_at i (append es s).logs ≡ newest i es (entry_at i s.logs)
unfolding append newest
entry_at-append [] i s = refl
entry_at-append (e ∷ es) i s =
    entry_at-append es i (record s { logs = tree_insert e.log_id.index e s.logs })
    ∙ ap (newest i es) (entry_at-tree_insert i e.log_id.index e s.logs)

-- Appending writes every entry under its index, over what was there; truncating removes the given index
-- and all above it, purging the given index and all below it, and both leave the rest. All three keep
-- the log ordered, with every entry under its index.
pub IsLog-entry_at :
    (es : List Entry) (id : LogId) (s : LogStore)
    → IsLog s
    → ((i : ℕ) → entry_at i (append es s).logs ≡ newest i es (entry_at i s.logs))
      × ((i : ℕ)
          → entry_at i (truncate id s).logs ≡ (if ltb i id.index then entry_at i s.logs else none))
      × ((i : ℕ)
          → entry_at i (purge id s).logs ≡ (if ltb id.index i then entry_at i s.logs else none))
      × IsLog (append es s)
      × IsLog (truncate id s)
      × IsLog (purge id s)
unfolding truncate purge
IsLog-entry_at es id s f = (
  λ i. entry_at-append es i s,
  λ i. ground (arith, entry_at-retain (λ k. not (leb id.index k)) i s.logs),
  λ i. ground (arith, entry_at-retain (λ k. not (leb k id.index)) i s.logs),
  From-append es s f,
  From-retain (λ k. not (leb id.index k)) 0 s.logs f,
  From-retain (λ k. not (leb k id.index)) 0 s.logs f,
)

-- The entries whose index is in the range, in the order of the log.
unfoldable pub selected : Bound → Bound → List (ℕ × Entry) → List Entry
selected from to [] = []
selected from to ((k, e) ∷ rest) =
    let more = selected from to rest in if in_range from to k then e ∷ more else more

past-in_range :
    (from to : Bound) (end k : ℕ) → end_of to ≡ some end → end ≤ k → in_range from to k ≡ false
unfolding end_of in_range
past-in_range from (Bound.included x) end k e h = ground arith
past-in_range from (Bound.excluded x) end k e h = ground arith
past-in_range from Bound.unbounded end k e h = absurd (ground arith)

start-in_range : (from to : Bound) (k : ℕ) → k < start_of from → in_range from to k ≡ false
unfolding start_of in_range
start-in_range (Bound.included x) to k h = ground arith
start-in_range (Bound.excluded x) to k h = ground arith
start-in_range Bound.unbounded to k h = absurd (omega arith)

past-selected :
    (from to : Bound) (end lo : ℕ) (l : List (ℕ × Entry))
    → From lo l
    → end_of to ≡ some end
    → end ≤ lo
    → selected from to l ≡ []
unfolding From selected
past-selected from to end lo [] f e h = refl
past-selected from to end lo ((k, x) ∷ rest) f e h = ground (
  arith,
  past-in_range from to end k e (omega (arith, f.0)),
  past-selected from to end (k + 1) rest f.2 e (omega (arith, f.0)),
)

start-selected :
    (from to : Bound) (l : List (ℕ × Entry))
    → selected from to (retain (λ r. leb (start_of from) r.0) l) ≡ selected from to l
unfolding selected
start-selected from to [] = refl
start-selected from to ((k, e) ∷ rest) =
    ground (arith, start-selected from to rest, start-in_range from to k)

read_entries-selected :
    (from to : Bound) (lo : ℕ) (l : List (ℕ × Entry))
    → From lo l
    → read_entries from to l ≡ some (selected from to l)
unfolding From selected read_entries
read_entries-selected from to lo [] f = refl
read_entries-selected from to lo ((k, e) ∷ rest) f = elim (Option-cases (end_of to)) [
  | inl endless ↦ ground (arith, read_entries-selected from to (k + 1) rest f.2, f.1)
  | inr (end, closed) ↦ ground (
    arith,
    read_entries-selected from to (k + 1) rest f.2,
    f.1,
    past-in_range from to end k closed,
    past-selected from to end (k + 1) rest f.2 closed,
  )
]

-- A reader gets exactly the entries whose index is in the range that it asks for, in the order of the
-- log, and the assertion of the loop holds.
pub try_get_log_entries-selected :
    (from to : Bound) (s : LogStore)
    → IsLog s
    → try_get_log_entries from to s ≡ some (selected from to s.logs)
unfolding try_get_log_entries
try_get_log_entries-selected from to s f =
    read_entries-selected from to 0 (retain (λ r. leb (start_of from) r.0) s.logs)
      (From-retain (λ k. leb (start_of from) k) 0 s.logs f)
    ∙ ap some (start-selected from to s.logs)
