-- ===== src/Namespace/Access.antt =====
-- What a namespace's cache, its table and its token decide
-- (conreg-server/src/namespace/server/mod.rs, lines 52 to 157 and 256 to 266).
use conreg.Prelude.{
  String, true, Option, none, some, List, [], ◌∷◌, ◌==◌, string_eq, if◌then◌else◌, ok, ◌≡◌, ◌↔◌,
  refl, arith, eq_iff, inl, inr, Option-cases, find, retain, not, ap, ◌∙◌,
}
use conreg.DashMap
use conreg.DashMap.{get-insert, get-remove}
use conreg.Sql.{fetch_optional, update_where, delete_where, insert_row, find-snoc}
use conreg.App.{App}
use conreg.Namespace.Entry.{Namespace}
use conreg.Namespace.Manager.{
  has_id, get_namespace, renewed, write_namespace, upsert_namespace, delete_namespace, passes, auth,
  same_token,
}

abbrev pub stored : App → String → Option Namespace
stored s id = fetch_optional (has_id id) s.namespace

-- Every cached namespace is the one that the table holds.
pub record IsCoherent (s : App) : Type 0 where
  pub at_id :
      (id : String) (n : Namespace)
      → DashMap.get id s.namespace_cache ≡ some n
      → stored s id ≡ some n

find-has_id :
    (id : String) (rows : List Namespace) (n : Namespace)
    → find (has_id id) rows ≡ some n
    → n.id ≡ id
find-has_id id [] n h = absurd (ground arith)
find-has_id id (r ∷ rows) n h = ground (arith, find-has_id id rows n, eq_iff r.id id)

-- A read returns what the table holds, changes no table, and keeps the cache coherent.
pub get_namespace-stored :
    (id : String) (s : App)
    → IsCoherent s
    → ((get_namespace id s).0 ≡ ok (stored s id))
      × ((get_namespace id s).1.namespace ≡ s.namespace)
      × ((get_namespace id s).1.config ≡ s.config)
      × IsCoherent (get_namespace id s).1
unfolding get_namespace
get_namespace-stored id s c = elim (Option-cases (DashMap.get id s.namespace_cache)) [
  | inr (n, hit) ↦ (
    ground (arith, c.at_id id n hit),
    ground arith,
    ground arith,
    record { at_id = λ j m p. ground (arith, c.at_id j m) },
  )
  | inl miss ↦ elim (Option-cases (stored s id)) [
    | inl e ↦ (
      ground arith,
      ground arith,
      ground arith,
      record { at_id = λ j m p. ground (arith, c.at_id j m) },
    )
    | inr (n, e) ↦ (
      ground arith,
      ground arith,
      ground arith,
      record {
        at_id = λ j m p. ground (
          arith,
          get-insert n.id j n s.namespace_cache,
          find-has_id id s.namespace n e,
          c.at_id j m,
          eq_iff n.id j,
        );
      },
    )
  ]
]

find-renewed :
    (n : Namespace) (id : String) (rows : List Namespace)
    → find (has_id id) (update_where (has_id n.id) (renewed n) rows)
      ≡ elim (find (has_id id) rows) [
        | none ↦ none
        | some r ↦ some (if n.id == id then renewed n r else r)
      ]
unfolding renewed
find-renewed n id [] = refl
find-renewed n id (r ∷ rows) =
    ground (arith, find-renewed n id rows, eq_iff r.id id, eq_iff r.id n.id, eq_iff n.id id)

-- What the table holds after an upsert: a namespace that was there keeps its creation time.
unfoldable pub merged : Namespace → Option Namespace → Namespace
unfolding renewed
merged n none = n
merged n (some old) = renewed n old

write_namespace-stored :
    (n : Namespace) (s : App)
    → IsCoherent s
    → ((write_namespace n (stored s n.id) s).0 ≡ ok tt)
      × ((id : String)
          → stored (write_namespace n (stored s n.id) s).1 id
            ≡ (if n.id == id then some (merged n (stored s n.id)) else stored s id))
      × IsCoherent (write_namespace n (stored s n.id) s).1
unfolding write_namespace insert_row merged
write_namespace-stored n s c = elim (Option-cases (stored s n.id)) [
  | inl e ↦ (
    ground arith,
    λ id. ground (arith, find-snoc (has_id id) s.namespace n, eq_iff n.id id),
    record {
      at_id = λ j m p. ground (
        arith,
        find-snoc (has_id j) s.namespace n,
        get-remove n.id j s.namespace_cache,
        c.at_id j m,
      );
    },
  )
  | inr (old, e) ↦ (
    ground arith,
    λ id. ground (arith, find-renewed n id s.namespace, eq_iff n.id id),
    record {
      at_id = λ j m p.
          ground
            (arith, find-renewed n j s.namespace, get-remove n.id j s.namespace_cache, c.at_id j m);
    },
  )
]

write-read :
    (n : Namespace) (s : App)
    → IsCoherent s
    → upsert_namespace n s ≡ write_namespace n (stored s n.id) (get_namespace n.id s).1
unfolding upsert_namespace
write-read n s c = let read = get_namespace-stored n.id s c in ground (arith, read.0)

-- From a coherent cache an upsert succeeds, whether the namespace is new or not; the table then holds
-- it, with its first creation time, and holds every other namespace as before; the cache is coherent.
pub upsert_namespace-stored :
    (n : Namespace) (s : App)
    → IsCoherent s
    → ((upsert_namespace n s).0 ≡ ok tt)
      × ((id : String)
          → stored (upsert_namespace n s).1 id
            ≡ (if n.id == id then some (merged n (stored s n.id)) else stored s id))
      × IsCoherent (upsert_namespace n s).1
upsert_namespace-stored n s c =
    let read = get_namespace-stored n.id s c in
    let t = (get_namespace n.id s).1 in
    let same : (id : String) → stored t id ≡ stored s id =
      λ id. ap (λ rows. find (has_id id) rows) read.1 in
    let wrote = write_namespace-stored n t read.3 in
    rw (write-read n s c, ← same n.id) (wrote.0, λ id. wrote.1 id ∙ rw (same id), wrote.2)

find-deleted :
    (id j : String) (rows : List Namespace)
    → find (has_id j) (delete_where (has_id id) rows)
      ≡ (if id == j then none else find (has_id j) rows)
find-deleted id j [] = ground arith
find-deleted id j (r ∷ rows) =
    ground (arith, find-deleted id j rows, eq_iff r.id id, eq_iff r.id j, eq_iff id j)

-- A deletion removes the namespace and no other from table and cache, and all configurations of the
-- namespace; the configurations of other namespaces stay. The history of the removed configurations
-- and the cache of configurations stay too.
pub delete_namespace-stored :
    (id : String) (s : App)
    → IsCoherent s
    → ((delete_namespace id s).0 ≡ ok tt)
      × ((j : String) → stored (delete_namespace id s).1 j ≡ (if id == j then none else stored s j))
      × ((delete_namespace id s).1.config ≡ retain (λ e. not (e.namespace_id == id)) s.config)
      × ((delete_namespace id s).1.config_history ≡ s.config_history)
      × ((delete_namespace id s).1.config_cache ≡ s.config_cache)
      × IsCoherent (delete_namespace id s).1
unfolding delete_namespace
delete_namespace-stored id s c = (
  refl,
  λ j. find-deleted id j s.namespace,
  refl,
  refl,
  refl,
  record {
    at_id = λ j m p.
        ground
          (arith, find-deleted id j s.namespace, get-remove id j s.namespace_cache, c.at_id j m);
  },
)

same_token_iff : (a b : Option String) → (same_token a b ≡ true) ↔ (a ≡ b)
same_token_iff none none = (λ h. refl, λ h. refl)
same_token_iff none (some b) = (λ h. cc, λ h. cc)
same_token_iff (some a) none = (λ h. cc, λ h. cc)
same_token_iff (some a) (some b) =
    (λ h. ground (arith, eq_iff a b), λ h. ground (arith, eq_iff a b))

-- A request is let into a namespace that is unknown, or needs no token, or has just the token that
-- came with the request; it is refused by every other namespace.
pub auth_iff :
    (id : String) (token : Option String) (s : App)
    → IsCoherent s
    → ((auth id token s).0 ≡ ok true)
      ↔ ((n : Namespace) → stored s id ≡ some n → n.is_auth ≡ true → n.auth_token ≡ token)
unfolding auth passes
auth_iff id token s c =
    let read = get_namespace-stored id s c in
    (
      λ h n e need. ground (arith, read.0, same_token_iff n.auth_token token),
      λ h. elim (Option-cases (stored s id)) [
        | inl e ↦ ground (arith, read.0)
        | inr (n, e) ↦ ground (arith, read.0, same_token_iff n.auth_token token, h n e)
      ],
    )
