-- ===== src/Client/Reload.antt =====
-- What the application reads after a change of a configuration, and after failures of the server
-- (conreg-client/src/config.rs).
use conreg.Prelude.{
  ℕ, String, Option, none, some, List, [], ◌∷◌, ◌++◌, map, ok, ◌≡◌, refl, ap, ◌∙◌, arith, unwrap_or,
  string_eq, append_assoc, append_nil, sym, Option-cases, Result-cases, inl, inr, err, ◌⊎◌, ◌↔◌,
}
use conreg.Client.Config.{
  Server, fetch_config, fetch_all, fetch_some, reload_changed, watch_round, compensate_round,
}
use conreg.Client.Configs
use conreg.Client.Configs.{Configs, Merge, from_contents, to_mapping, flattened, sources}
use conreg.Client.Leaves.{leaves_of, last_or, get-flatten_fields}
use conreg.Client.Flatten.{flatten_yaml_value}
use conreg.Client.Network.{Reply, Run, receive}
use conreg.Client.State.{Client, reload, call_all, notify_config_change}
use conreg.DashMap
use conreg.DashMap.{DashMap}
use conreg.Values.{Value}

-- A key of a flattened configuration has the value of the last leaf of the merged configuration that
-- stands under this key, and no value where there is no such leaf.
pub get-flattened :
    (merged : DashMap String Value) (key : String)
    → Configs.get key (flattened merged) ≡ last_or none key (leaves_of "" (to_mapping merged))
unfolding Configs.get flattened flatten_yaml_value DashMap.get
get-flattened merged key = get-flatten_fields key "" (to_mapping merged) []

-- The listeners of a configuration, in their order.
abbrev pub listeners_of : String → Client → List ℕ
listeners_of config_id s = unwrap_or (DashMap.get config_id s.listeners) []

call_all-calls :
    (handlers : List ℕ) (changed : DashMap String Value) (s : Client)
    → call_all handlers changed s
      ≡ record s { calls = s.calls ++ map (λ h. (h, changed, s.configs)) handlers }
unfolding call_all
call_all-calls [] changed s = ap (λ c. record s { calls = c }) (sym (append_nil s.calls))
call_all-calls (h ∷ hs) changed s =
    call_all-calls hs changed (record s { calls = s.calls ++ ((h, changed, s.configs) ∷ []) })
    ∙ ap (λ c. record s { calls = c })
        (append_assoc s.calls ((h, changed, s.configs) ∷ [])
          (map (λ g. (g, changed, s.configs)) hs))

notify_config_change-calls :
    (config_id : String) (changed : DashMap String Value) (s : Client)
    → notify_config_change config_id changed s ≡ record s {
      calls = s.calls ++ map (λ h. (h, changed, s.configs)) (listeners_of config_id s);
    }
unfolding notify_config_change
notify_config_change-calls config_id changed s =
    elim (Option-cases (DashMap.get config_id s.listeners)) [
      | inl e ↦ ground (arith, e, append_nil s.calls)
      | inr (handlers, e) ↦ ground (arith, e, call_all-calls handlers changed s)
    ]

Run-cases :
    {T : Type 0} (r : Run T)
    → ((x : T) × (r ≡ Run.returned x)) ⊎ ((e : String) × (r ≡ Run.failed e)) ⊎ (r ≡ Run.panicked)
Run-cases (Run.returned x) = inl (x, refl)
Run-cases (Run.failed e) = inr (inl (e, refl))
Run-cases Run.panicked = inr (inr refl)

returned-injective : {s t : Client} → Run.returned s ≡ Run.returned t → s ≡ t
returned-injective h = ground (arith, h)

module _ (server : Server) (merge : Merge) (ids : List String) (old : Configs) (s : Client) where
  -- What a round of the watch should leave behind: every configuration is fetched and they are merged, the
  -- application has the new configurations, and the listeners of the changed one, in their order and no others,
  -- were called with the new flat view while the application already read the new configurations.
  abbrev pub Renewed : String → Client → Type 0
  Renewed changed t =
      (contents : List (String × String)) × (new : Configs) × (fetch_all server ids
        ≡ Run.returned contents)
      × (from_contents merge contents ≡ ok new)
      × (t ≡ record s {
        configs = some new;
        calls = s.calls ++ map (λ h. (h, new.flatten_config, some new)) (listeners_of changed s);
      })

  reload_changed-Renewed :
      (changed : String) (contents : List (String × String)) (new : Configs)
      → s.configs ≡ some old
      → fetch_all server ids ≡ Run.returned contents
      → from_contents merge contents ≡ ok new
      → reload_changed server merge ids changed s
        ≡ Run.returned (record s {
          configs = some new;
          calls = s.calls ++ map (λ h. (h, new.flatten_config, some new)) (listeners_of changed s);
        })
  unfolding reload_changed reload
  reload_changed-Renewed changed contents new e fetched merged = ground (
    arith,
    e,
    fetched,
    merged,
    notify_config_change-calls changed new.flatten_config (record s { configs = some new }),
  )

  reload_changed-panics :
      (changed : String)
      → ((contents : List (String × String)) → ¬ (fetch_all server ids ≡ Run.returned contents))
      → reload_changed server merge ids changed s ≡ Run.panicked
  unfolding reload_changed
  reload_changed-panics changed none_fetched = elim (Run-cases (fetch_all server ids)) [
    | inl (contents, f) ↦ absurd (none_fetched contents f)
    | inr (inl (e, f)) ↦ ground (arith, f)
    | inr (inr f) ↦ ground (arith, f)
  ]

  reload_changed-unmerged :
      (changed e : String) (contents : List (String × String))
      → fetch_all server ids ≡ Run.returned contents
      → from_contents merge contents ≡ err e
      → reload_changed server merge ids changed s ≡ Run.panicked
  unfolding reload_changed
  reload_changed-unmerged changed e contents f m = ground (arith, f, m)

  -- The two ways out of a change, where one is known.
  reload_changed-panicked :
      (changed : String)
      → reload_changed server merge ids changed s ≡ Run.panicked
      → ¬ (
          (contents : List (String × String)) × (new : Configs) × (fetch_all server ids
            ≡ Run.returned contents)
          × (from_contents merge contents ≡ ok new))
      → ((reload_changed server merge ids changed s ≡ Run.panicked)
          ⊎ ((t : Client) × (reload_changed server merge ids changed s ≡ Run.returned t)))
        × ((t : Client)
            → (reload_changed server merge ids changed s ≡ Run.returned t) ↔ Renewed changed t)
  reload_changed-panicked changed p never = (
    inl p,
    λ t. (
      λ h. absurd (ground (arith, p, h)),
      λ (contents, new, f, m, q). absurd (never (contents, new, f, m)),
    ),
  )

  reload_changed_iff :
      (changed : String)
      → s.configs ≡ some old
      → ((reload_changed server merge ids changed s ≡ Run.panicked)
          ⊎ ((t : Client) × (reload_changed server merge ids changed s ≡ Run.returned t)))
        × ((t : Client)
            → (reload_changed server merge ids changed s ≡ Run.returned t) ↔ Renewed changed t)
  reload_changed_iff changed e = elim (Run-cases (fetch_all server ids)) [
    | inl (contents, f) ↦ elim (Result-cases (from_contents merge contents)) [
      | inl (new, m) ↦
          let done = reload_changed-Renewed changed contents new e f m in
          (
            inr (_, done),
            λ t. (
              λ h. (contents, new, f, m, returned-injective (sym h ∙ done)),
              λ (contents', new', f', m', q).
                  reload_changed-Renewed changed contents' new' e f' m' ∙ ap Run.returned (sym q),
            ),
          )
      | inr (x, m) ↦
          reload_changed-panicked changed (reload_changed-unmerged changed x contents f m)
            (λ (contents', new', f', m'). ground (arith, f, m, f', m'))
    ]
    | inr (inl (x, f)) ↦
        reload_changed-panicked changed
          (reload_changed-panics changed (λ c h. ground (arith, f, h)))
          (λ (contents', new', f', m'). ground (arith, f, f'))
    | inr (inr f) ↦
        reload_changed-panicked changed
          (reload_changed-panics changed (λ c h. ground (arith, f, h)))
          (λ (contents', new', f', m'). ground (arith, f, f'))
  ]

  watch_round-told :
      (reply : Reply (Option String)) (changed : String)
      → receive none reply ≡ Run.returned (some changed)
      → watch_round server merge ids reply s ≡ reload_changed server merge ids changed s
  unfolding watch_round
  watch_round-told reply changed told = ground (arith, told)

  -- In a client with configurations, a round of the watch that is told of a change panics, or it goes on. It
  -- goes on exactly if every configuration can be fetched and they can be merged, and then the application has
  -- the new configurations, and the listeners of the changed one, in their order and no others, were called
  -- with the new flat view, when the application already read the new configurations.
  pub watch_round-changed :
      (reply : Reply (Option String)) (changed : String)
      → s.configs ≡ some old
      → receive none reply ≡ Run.returned (some changed)
      → ((watch_round server merge ids reply s ≡ Run.panicked)
          ⊎ ((t : Client) × (watch_round server merge ids reply s ≡ Run.returned t)))
        × ((t : Client)
            → (watch_round server merge ids reply s ≡ Run.returned t) ↔ Renewed changed t)
  watch_round-changed reply changed e told =
      rw (watch_round-told reply changed told) (reload_changed_iff changed e)

  -- The watch does not outlive a failure: where a change is announced and a configuration cannot be
  -- fetched, its task panics.
  pub watch_round-panics :
      (reply : Reply (Option String)) (changed e : String)
      → receive none reply ≡ Run.returned (some changed)
      → fetch_all server ids ≡ Run.failed e
      → watch_round server merge ids reply s ≡ Run.panicked
  unfolding watch_round reload_changed
  watch_round-panics reply changed e told failed = ground (arith, told, failed)

fetch_some-none :
    (server : Server)
    → ((id : String) → (e : String) × (fetch_config server id ≡ Run.failed e))
    → (ids : List String) → fetch_some server ids ≡ Run.returned []
unfolding fetch_some
fetch_some-none server down [] = refl
fetch_some-none server down (id ∷ ids) =
    ground (arith, (down id).1, fetch_some-none server down ids)

-- While the server fails for every configuration, a round of the compensation empties the application's
-- configurations: no key is found any more.
pub compensate_round-empty :
    (server : Server) (merge : Merge) (ids : List String) (old : Configs) (s : Client)
    → ((id : String) → (e : String) × (fetch_config server id ≡ Run.failed e))
    → merge [] ≡ ok []
    → s.configs ≡ some old
    → (new : Configs) × (compensate_round server merge ids s
        ≡ Run.returned (record s { configs = some new }))
      × ((key : String) → Configs.get key new ≡ none)
unfolding compensate_round from_contents sources reload flattened flatten_yaml_value to_mapping
    Configs.get DashMap.get
compensate_round-empty server merge ids old s down nothing e = (
  record { flatten_config = []; merged_config = [] },
  ground (arith, fetch_some-none server down ids, nothing, e),
  λ key. refl,
)
