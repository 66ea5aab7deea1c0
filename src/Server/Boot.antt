-- ===== src/Server/Boot.antt =====
-- What the start of a node needs and leaves (conreg-server/src/main.rs).
use conreg.Prelude.{
  ℕ, String, true, none, some, ok, err, is_some, ◌≡◌, sym, ap, ◌∙◌, arith, Result-cases, inl, inr,
}
use conreg.Cache.Global
use conreg.Run.{Run}
use conreg.Server.Args.{Args, validate}
use conreg.Server.Files.{init_dir}
use conreg.Server.Start.{
  Machine, Node, Start, ◌>>◌, check_args, on_files, db_init, cache_init, app_init,
  start_http_server, cleanup, set_pool, main, db_url,
}

-- A step that is followed by others, where all of them return.
returned-then :
    {S B : Type 0} (m : Start S (Unit {0})) (k : Start S B) (s : S) (b : B)
    → ((m >> k) s).0 ≡ Run.returned b
    → ((m s).0 ≡ Run.returned tt) × ((k (m s).1).0 ≡ Run.returned b) × ((m >> k) s ≡ k (m s).1)
returned-then m k s b h = (ground arith, ground arith, ground arith)

module _ {D W : Type 0} (m : Machine D W) (a : Args) (n : Node D W) where
  -- What the cells are behind each step that returned.
  check_args-ok : (check_args m a n).0 ≡ Run.returned tt → validate m.is_ip a ≡ ok tt
  check_args-ok h = ground arith

  db_init-set :
      (db_init m a n).0 ≡ Run.returned tt
      → (n.db_pool ≡ none)
        × ((db_init m a n).1.db_pool ≡ some (db_url a))
        × ((db_init m a n).1.cache ≡ n.cache)
        × ((db_init m a n).1.app ≡ n.app)
  unfolding db_init set_pool
  db_init-set h = elim (Result-cases (m.connect (db_url a) n.files).0) [
    | inr (e, r) ↦ absurd (ground arith)
    | inl (_, r) ↦ (ground arith, ground arith, ground arith, ground arith)
  ]

  cache_init-set :
      (now : ℕ)
      → (cache_init m now a n).0 ≡ Run.returned tt
      → (n.cache ≡ none)
        × (is_some (cache_init m now a n).1.cache ≡ true)
        × ((cache_init m now a n).1.db_pool ≡ n.db_pool)
        × ((cache_init m now a n).1.app ≡ n.app)
  unfolding cache_init Global.init
  cache_init-set now h = (ground arith, ground arith, ground arith, ground arith)

  app_init-set :
      (app_init m a n).0 ≡ Run.returned tt
      → (is_some (app_init m a n).1.app ≡ true)
        × ((app_init m a n).1.db_pool ≡ n.db_pool)
        × ((app_init m a n).1.cache ≡ n.cache)
  unfolding app_init
  app_init-set h = (ground arith, ground arith, ground arith)

  served-kept :
      ((start_http_server m a n).1.db_pool ≡ n.db_pool)
      × ((start_http_server m a n).1.cache ≡ n.cache)
      × (is_some (start_http_server m a n).1.app ≡ is_some n.app)
  unfolding start_http_server
  served-kept = (ground arith, ground arith, ground arith)

  cleanup-kept :
      ((cleanup m n).1.db_pool ≡ n.db_pool)
      × ((cleanup m n).1.cache ≡ n.cache)
      × (is_some (cleanup m n).1.app ≡ is_some n.app)
  unfolding cleanup
  cleanup-kept = (ground arith, ground arith, ground arith)

-- The rest of the start, from the last step back.
module _ {D W : Type 0} (m : Machine D W) (a : Args) where
  abbrev serving : Start (Node D W) (Unit {0})
  serving = do start_http_server m a; cleanup m

  abbrev parting : Start (Node D W) (Unit {0})
  parting = do app_init m a; serving

  abbrev caching : ℕ → Start (Node D W) (Unit {0})
  caching now = do cache_init m now a; parting

  abbrev storing : ℕ → Start (Node D W) (Unit {0})
  storing now = do db_init m a; caching now

  serving-kept :
      (n : Node D W)
      → (serving n).0 ≡ Run.returned tt
      → ((serving n).1.db_pool ≡ n.db_pool)
        × ((serving n).1.cache ≡ n.cache)
        × (is_some (serving n).1.app ≡ is_some n.app)
  serving-kept n h =
      let (_, go, e) = returned-then (start_http_server m a) (cleanup m) n tt h in
      let n' = (start_http_server m a n).1 in
      let (p, c, w) = served-kept m a n in
      let (p', c', w') = cleanup-kept m a n' in
      (
        ap (λ r. r.1.db_pool) e ∙ p' ∙ p,
        ap (λ r. r.1.cache) e ∙ c' ∙ c,
        ap (λ r. is_some r.1.app) e ∙ w' ∙ w,
      )

  parting-set :
      (n : Node D W)
      → (parting n).0 ≡ Run.returned tt
      → ((parting n).1.db_pool ≡ n.db_pool)
        × ((parting n).1.cache ≡ n.cache)
        × (is_some (parting n).1.app ≡ true)
  parting-set n h =
      let (r, go, e) = returned-then (app_init m a) serving n tt h in
      let (w, p, c) = app_init-set m a n r in
      let (p', c', w') = serving-kept (app_init m a n).1 go in
      (
        ap (λ x. x.1.db_pool) e ∙ p' ∙ p,
        ap (λ x. x.1.cache) e ∙ c' ∙ c,
        ap (λ x. is_some x.1.app) e ∙ w' ∙ w,
      )

  caching-set :
      (now : ℕ) (n : Node D W)
      → (caching now n).0 ≡ Run.returned tt
      → (n.cache ≡ none)
        × ((caching now n).1.db_pool ≡ n.db_pool)
        × (is_some (caching now n).1.cache ≡ true)
        × (is_some (caching now n).1.app ≡ true)
  caching-set now n h =
      let (r, go, e) = returned-then (cache_init m now a) parting n tt h in
      let (none', c, p, w) = cache_init-set m a n now r in
      let (p', c', w') = parting-set (cache_init m now a n).1 go in
      (
        none',
        ap (λ x. x.1.db_pool) e ∙ p' ∙ p,
        ap (λ x. is_some x.1.cache) e ∙ ap is_some c' ∙ c,
        ap (λ x. is_some x.1.app) e ∙ w',
      )

  storing-set :
      (now : ℕ) (n : Node D W)
      → (storing now n).0 ≡ Run.returned tt
      → (n.db_pool ≡ none)
        × (n.cache ≡ none)
        × ((storing now n).1.db_pool ≡ some (db_url a))
        × (is_some (storing now n).1.cache ≡ true)
        × (is_some (storing now n).1.app ≡ true)
  storing-set now n h =
      let (r, go, e) = returned-then (db_init m a) (caching now) n tt h in
      let (none', p, c, w) = db_init-set m a n r in
      let (none'', p', c', w') = caching-set now (db_init m a n).1 go in
      (
        none',
        sym c ∙ none'',
        ap (λ x. x.1.db_pool) e ∙ p' ∙ p,
        ap (λ x. is_some x.1.cache) e ∙ c',
        ap (λ x. is_some x.1.app) e ∙ w',
      )

-- A node stops with the error of its arguments before it touches its files or sets a cell. Where `main` comes
-- to its end, the arguments were valid and the cells of the database and of the cache empty; then the database
-- is the one in the folder of the arguments, and the cache and the node's parts are set.
pub main-returned :
    {D W : Type 0} (m : Machine D W) (now : ℕ) (a : Args) (n : Node D W)
    → ((e : String) → validate m.is_ip a ≡ err e → main m now a n ≡ (Run.failed e, n))
      × ((main m now a n).0 ≡ Run.returned tt
          → (validate m.is_ip a ≡ ok tt)
            × (n.db_pool ≡ none)
            × (n.cache ≡ none)
            × ((main m now a n).1.db_pool ≡ some (db_url a))
            × (is_some (main m now a n).1.cache ≡ true)
            × (is_some (main m now a n).1.app ≡ true))
unfolding main
main-returned {D} {W} m now a n = (
  λ e h. ground (arith, h),
  λ h.
      let filing : Start (Node D W) (Unit {0}) =
        on_files m (init_dir m.disk a) >> storing m a now in
      let (valid, go, e) = returned-then (check_args m a) filing n tt h in
      let (_, go', e') = returned-then (on_files m (init_dir m.disk a)) (storing m a now) n tt go in
      let (pool, cell, p, c, w) = storing-set m a now (on_files m (init_dir m.disk a) n).1 go' in
      let whole = e ∙ e' in
      (
        check_args-ok m a n valid,
        pool,
        cell,
        ap (λ x. x.1.db_pool) whole ∙ p,
        ap (λ x. is_some x.1.cache) whole ∙ c,
        ap (λ x. is_some x.1.app) whole ∙ w,
      ),
)
