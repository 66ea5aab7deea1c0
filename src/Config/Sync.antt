-- ===== src/Config/Sync.antt =====
-- From a submission by a user to the row on every node (conreg-server/src/config/server/mod.rs, lines
-- 116 to 171 and 323 to 359, and conreg-server/src/event/mod.rs, lines 78 to 120).
use conreg.Prelude.{
  append-nil, ℕ, ◌+◌, String, Bool, true, false, Option, none, some, List, [], ◌∷◌, ◌++◌, ◌==◌,
  nat_eq, string_eq, pair_eq, if◌then◌else◌, ok, ◌≡◌, refl, arith, eq_iff, inl, inr, Bool-cases,
  find, is_ok, ap, ◌∙◌,
}
use conreg.App.{App, sync}
use conreg.Config.Entry.{ConfigEntry, gen_md5}
use conreg.Config.Manager.{
  at_id, clash, get_config, history_row, insert_config, submit_change, upsert_config_and_sync,
}
use conreg.Config.Reads.{row, IsCoherent, get_config-row}
use conreg.Config.Writes.{event, insert_config-ok, get_config-insert_config}
use conreg.DashMap.{DashMap}
use conreg.Event.{handle_raft_request}
use conreg.Protocol.{is_success}
use conreg.Raft.{RaftRequest}
use conreg.Raft.Write.{Cluster, raft_write}
use conreg.Sql.{insert_row}
use conreg.User.Manager.{Library}

-- The request that a submission should make, given the row that its key has: none if the content's
-- digest is the same, and otherwise the new row, under the old id and creation time if there are any.
unfoldable pub request :
    ℕ
    → ℕ
    → String
    → String
    → String
    → Option String
    → String
    → String
    → Option ConfigEntry
    → Option RaftRequest
request id_ now namespace_id id content description format md5 none = some (
    RaftRequest.set_config (record {
      id_ = id_;
      namespace_id = namespace_id;
      id = id;
      content = content;
      create_time = now;
      update_time = now;
      description = description;
      format = format;
      md5 = md5;
    }))
request id_ now namespace_id id content description format md5 (some old) =
    if old.md5 == md5
    then none
    else some (
        RaftRequest.update_config (record {
          id_ = old.id_;
          namespace_id = namespace_id;
          id = id;
          content = content;
          create_time = old.create_time;
          update_time = now;
          description = description;
          format = format;
          md5 = md5;
        }))

-- What the nodes are handed, and whether the user is told of success.
unfoldable pub handed : Cluster → Option RaftRequest → List RaftRequest × Bool
unfolding raft_write
handed c none = ([], true)
handed c (some req) = (req ∷ [], is_success (raft_write c req))

sync-handed :
    (c : Cluster) (prefix : String) (req : RaftRequest) (s : App)
    → (is_ok (sync c prefix req s).0 ≡ is_success (raft_write c req))
      × ((sync c prefix req s).1.submitted ≡ s.submitted ++ (req ∷ []))
      × ((sync c prefix req s).1.config ≡ s.config)
unfolding sync
sync-handed c prefix req s = (ground arith, ground arith, ground arith)

module _ (c : Cluster) (md5_hex : String → String) (debug : Option String → String) (id_ now : ℕ)
    (n i content : String) (description : Option String) (format : String) where
  submit_change-handed :
      (old : Option ConfigEntry) (s : App)
      → (is_ok (submit_change c md5_hex debug id_ now n i content description format old s).0
          ≡ (handed c (
              request id_ now n i content description format
                (gen_md5 md5_hex debug content description)
                old)).1)
        × ((submit_change c md5_hex debug id_ now n i content description format old s).1.submitted
            ≡ s.submitted
              ++ (handed c (
                  request id_ now n i content description format
                    (gen_md5 md5_hex debug content description)
                    old)).0)
        × ((submit_change c md5_hex debug id_ now n i content description format old s).1.config
            ≡ s.config)
  unfolding submit_change request handed
  submit_change-handed none s = sync-handed c _ _ s
  submit_change-handed (some old) s =
      elim (Bool-cases (old.md5 == gen_md5 md5_hex debug content description)) [
        | inl same ↦ (ground arith, ground (arith, append-nil s.submitted), ground arith)
        | inr other ↦ rw other (sync-handed c _ _ s)
      ]

  get_config-submitted : (s : App) → (get_config n i s).1.submitted ≡ s.submitted
  unfolding get_config
  get_config-submitted s = ground arith

  upsert-read :
      (s : App)
      → IsCoherent s
      → upsert_config_and_sync c md5_hex debug id_ now n i content description format s
        ≡ submit_change c md5_hex debug id_ now n i content description format
            (row s n i)
            (get_config n i s).1
  unfolding upsert_config_and_sync
  upsert-read s h = ground (arith, (get_config-row n i s h).0)

  -- From a coherent cache a submission hands the nodes exactly the request that the row of its key
  -- asks for: none if the digest of the content is the row's, an update that keeps id and creation time
  -- if it differs, and an insertion if there is no row. It changes no row itself, and it succeeds
  -- exactly if the request, if there is one, was taken.
  pub upsert_config_and_sync-handed :
      (s : App)
      → IsCoherent s
      → (is_ok (upsert_config_and_sync c md5_hex debug id_ now n i content description format s).0
          ≡ (handed c (
              request id_ now n i content description format
                (gen_md5 md5_hex debug content description)
                (row s n i))).1)
        × ((upsert_config_and_sync c md5_hex debug id_ now n i content description format
              s).1.submitted
            ≡ s.submitted
              ++ (handed c (
                  request id_ now n i content description format
                    (gen_md5 md5_hex debug content description)
                    (row s n i))).0)
        × ((upsert_config_and_sync c md5_hex debug id_ now n i content description format
              s).1.config
            ≡ s.config)
  upsert_config_and_sync-handed s h =
      let t = (get_config n i s).1 in
      let read = get_config-row n i s h in
      let hand = submit_change-handed (row s n i) t in
      (
        ap (λ r. is_ok r.0) (upsert-read s h) ∙ hand.0,
        ap (λ r. r.1.submitted) (upsert-read s h)
            ∙ (hand.1
                ∙ ap
                    (λ l.
                      l
                      ++ (handed c (
                          request id_ now n i content description format
                            (gen_md5 md5_hex debug content description) (row s n i))).0)
                    (get_config-submitted s)),
        ap (λ r. r.1.config) (upsert-read s h) ∙ (hand.2 ∙ read.1),
      )

  -- A submission whose content and description have the digest of the row hands over nothing and
  -- answers success, so that a change of the format alone is dropped.
  pub upsert_config_and_sync-same :
      (s : App) (old : ConfigEntry)
      → IsCoherent s
      → row s n i ≡ some old
      → old.md5 ≡ gen_md5 md5_hex debug content description
      → (is_ok (upsert_config_and_sync c md5_hex debug id_ now n i content description format s).0
          ≡ true)
        × ((upsert_config_and_sync c md5_hex debug id_ now n i content description format
              s).1.submitted
            ≡ s.submitted)
        × (row
              (upsert_config_and_sync c md5_hex debug id_ now n i content description format s).1
              n
              i
            ≡ some old)
  unfolding request handed
  upsert_config_and_sync-same s old h there same =
      let r = upsert_config_and_sync-handed s h in
      let digest = eq_iff old.md5 (gen_md5 md5_hex debug content description) in
      (
        ground (arith, r.0, digest),
        ground (arith, r.1, digest, append-nil s.submitted),
        ground (arith, r.2),
      )

free :
    (e : ConfigEntry) (rows : List ConfigEntry)
    → find (at_id e.namespace_id e.id) rows ≡ none
    → find (λ r. r.id_ == e.id_) rows ≡ none
    → find (λ old. clash old e) rows ≡ none
free e [] h k = refl
free e (r ∷ rows) h k = ground (arith, free e rows)

insert_config-done :
    (e : ConfigEntry) (s : App)
    → find (λ old. clash old e) s.config ≡ none
    → find (λ h. h.id_ == e.id_ + e.update_time) s.config_history ≡ none
    → (insert_config e s).0 ≡ ok tt
unfolding insert_config insert_row
insert_config-done e s h k = ground arith

-- On a node where the key has no row, and neither the id nor the id of the history row is taken, the
-- handler of an insertion makes the entry the row of its key and leaves every other row alone, adds the
-- history row, announces the change and leaves the cache as it is. Where the cache is off, reads return
-- the rows.
pub handle_raft_request-set_config :
    (lib : Library) (to_json : DashMap String String → String) (now : ℕ) (e : ConfigEntry) (s : App)
    → row s e.namespace_id e.id ≡ none
    → find (λ r. r.id_ == e.id_) s.config ≡ none
    → find (λ h. h.id_ == e.id_ + e.update_time) s.config_history ≡ none
    → let t = handle_raft_request lib to_json now (RaftRequest.set_config e) s in
      ((n i : String) → row t n i ≡ (if at_id n i e then some e else row s n i))
      × (t.config_history ≡ s.config_history ++ (history_row e ∷ []))
      × (t.changes ≡ s.changes ++ (event e ∷ []))
      × (t.config_cache ≡ s.config_cache)
      × (s.enable_cache_config ≡ false
          → (n i : String) → (get_config n i t).0 ≡ ok (if at_id n i e then some e else row s n i))
unfolding handle_raft_request
handle_raft_request-set_config lib to_json now e s absent fresh unused =
    let done : (insert_config e s).0 ≡ ok tt =
      insert_config-done e s (free e s.config absent fresh) unused in
    let (none_before, rows, history, changes, cache) = insert_config-ok e s done in
    (rows, history, changes, cache, λ off. get_config-insert_config e s off done)
