-- ===== src/Client/Center.antt =====
-- The client's fetch of a configuration against the server's route (conreg-client/src/config.rs,
-- conreg-server/src/config/server/api.rs): what the client gets is what the tables hold.
use conreg.Prelude.{
  ℕ, String, Bool, Option, none, some, [], ◌∷◌, ok, ◌≡◌, arith, concat, string_eq, Option-cases,
  inl, inr,
}
use conreg.Prelude.Int.{ℤ}
use conreg.Api.Config
use conreg.Api.Reply.{Server}
use conreg.Api.Routes.{Headers, Request, Body, serve}
use conreg.App.{App}
use conreg.Auth.Guard.{Outcome, Status, admit}
use conreg.Client.Config.{Server as ConfigServer, fetch_config}
use conreg.Client.Network.{Reply, Run, receive}
use conreg.Config.Entry.{ConfigEntry}
use conreg.Config.Reads.{row, IsCoherent, get_config-row}
use conreg.DashMap
use conreg.DashMap.{DashMap}
use conreg.Protocol.{success, is_success}
use conreg.Values.{Value, Number}

abbrev count : ℕ → Value
count n = Value.number (Number.int (ℤ.pos n))

-- An entry as the JSON of the server's answer, which the client reads as a map; `date` is the text of a time.
abbrev pub to_map : (ℕ → String) → ConfigEntry → DashMap String Value
to_map date e =
    ("id_", count e.id_)
    ∷ ("namespace_id", Value.string e.namespace_id)
    ∷ ("id", Value.string e.id)
    ∷ ("content", Value.string e.content)
    ∷ ("create_time", Value.string (date e.create_time))
    ∷ ("update_time", Value.string (date e.update_time))
    ∷ ("description", elim e.description [ none ↦ Value.null | some d ↦ Value.string d ])
    ∷ ("format", Value.string e.format)
    ∷ ("md5", Value.string e.md5)
    ∷ []

abbrev opened : (ℕ → String) → Option (Option ConfigEntry) → Option (DashMap String Value)
opened date none = none
opened date (some none) = none
opened date (some (some e)) = some (to_map date e)

-- The HTTP answer to the route, as the client reads it.
abbrev pub to_reply : (ℕ → String) → (Status → String) → Outcome Body → Reply (DashMap String Value)
to_reply date status_text (Outcome.error status) = Reply.refused (status_text status)
to_reply date status_text (Outcome.success (Body.config r)) =
    Reply.answered (record { code = r.code; msg = r.msg; content = opened date r.content })
to_reply date status_text (Outcome.success _) = Reply.unreadable "no configuration"

-- What a client should get, by the guard's outcome and the row.
unfoldable pub expected :
    (Status → String) → String → Outcome (Unit {0}) → Option ConfigEntry → Run String
expected status_text id (Outcome.error status) found = Run.failed (status_text status)
expected status_text id (Outcome.success _) (some e) = Run.returned e.content
expected status_text id (Outcome.success _) none =
    Run.failed (concat "config id [ " (concat id " ] not found in server"))

module _ (server : Server) (now fresh_id : ℕ) (fresh_token : String)
    (like : String → ConfigEntry → Bool) (headers : Headers) (date : ℕ → String)
    (status_text : Status → String) (namespace_id : String) (s : App) where
  -- The node in the state `s`, as a client of a namespace sees it.
  unfoldable pub node : ConfigServer
  unfolding serve
  node id = Run.returned (
      to_reply date status_text
        (serve server now fresh_id fresh_token like headers (Request.config_get namespace_id id)
          s).0)

  -- A client that may read the namespace gets the content of the row of the table, or the error that there
  -- is none; any other gets the status of the refusal. The cache of the node, where there is one, must
  -- agree with its table after the guard.
  pub fetch_config-node :
      (id : String) (o : Outcome (Unit {0})) (s' : App)
      → admit server.codec server.from_value now headers.console headers.token
          (some (ok namespace_id))
          headers.ns_token
          s
        ≡ (o, s')
      → IsCoherent s'
      → fetch_config node id ≡ expected status_text id o (row s' namespace_id id)
  unfolding node serve fetch_config receive expected Config.get success is_success DashMap.get
  fetch_config-node id (Outcome.error status) s' guard coherent = ground (arith, guard)
  fetch_config-node id (Outcome.success u) s' guard coherent =
      let read = (get_config-row namespace_id id s' coherent).0 in
      elim (Option-cases (row s' namespace_id id)) [
        | inl e ↦ ground (arith, guard, read, e)
        | inr (found, e) ↦ ground (arith, guard, read, e)
      ]
