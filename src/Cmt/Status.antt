-- ===== src/Cmt/Status.antt =====
-- The status of a cluster on the screen, and its monitor (`print_status` and `monitor_cluster` of
-- conreg-cmt/src/main.rs). A line of the screen is a text.
use conreg.Prelude.{
  ℕ, zero, suc, ◌-◌, String, Option, none, some, List, [], ◌∷◌, ◌++◌, Anyhow, ok, err, concat,
  to_string, unwrap_or, map,
}
use conreg.Prelude.Text.{size}
use conreg.Cmt.Commands.{RaftMetrics, Cluster, get_status}

abbrev pub blanks : ℕ → String
blanks zero = ""
blanks (suc n) = concat " " (blanks n)

-- `{:<n}`
unfoldable pub pad : ℕ → String → String
pad n s = concat s (blanks (n - size s))

unfoldable pub line : String → ℕ → String → String
unfolding pad
line label n value = concat label (concat (pad n value) " │")

abbrev pub delay : Option ℕ → String
delay none = "-"
delay (some x) = concat (to_string x) " ms"

abbrev pub replicated : Option ℕ → String
replicated none = "N/A"
replicated (some index) = to_string index

unfoldable pub node_line : String × String → String
unfolding line
node_line (id, addr) = line (concat "│   - Node " (concat id "                    : ")) 30 addr

unfoldable pub replication_line : String × Option ℕ → String
unfolding line to_string
replication_line (id, index) =
    line (concat "│   - Node " (concat id "                    : Index ")) 24 (replicated index)

abbrev pub blank_line : String
blank_line = "│                                                                │"

unfoldable pub value_lines : RaftMetrics → List String
unfolding line to_string
value_lines m =
    line "│ Current Node ID               : " 30 (to_string m.id)
    ∷ line "│ Current Node Status           : " 30 m.state
    ∷ line "│ Current Node Term             : " 30 (to_string m.current_term)
    ∷ line "│ Leader                        : " 30 (to_string (unwrap_or m.current_leader 0))
    ∷ line "│ Last Log Index                : " 30 (to_string (unwrap_or m.last_log_index 0))
    ∷ line "│ Last Applied Index            : " 30 (to_string (unwrap_or m.last_applied 0))
    ∷ line "│ Communication delay           : " 30 (delay m.millis_since_quorum_ack)
    ∷ []

-- The lines above the values, and those above each table.
abbrev pub head_lines : List String
head_lines =
    "┌────────────────────────────────────────────────────────────────┐"
    ∷ "│                        Cluster Status                          │"
    ∷ "├────────────────────────────────────────────────────────────────┤" ∷ []

abbrev pub members_lines : List String
members_lines =
    blank_line ∷ "│ Members:                                                       │" ∷ []

abbrev pub replication_lines : List String
replication_lines =
    blank_line ∷ "│ Replication:                                                   │" ∷ []

abbrev pub last_lines : List String
last_lines = "└────────────────────────────────────────────────────────────────┘" ∷ []

unfoldable pub print_status : RaftMetrics → List String
unfolding value_lines node_line replication_line
print_status m =
    head_lines
    ++ (value_lines m
        ++ (members_lines
            ++ (map node_line m.nodes
                ++ (replication_lines
                    ++ (map replication_line (unwrap_or m.replication []) ++ last_lines)))))

-- One round of the monitor: what it prints, and the error of the program that clears the screen, which ends the
-- monitor.
unfoldable pub monitor_round :
    {W : Type 0} → Cluster W → Anyhow (Unit {0}) → W → List String × Anyhow (Unit {0})
unfolding get_status print_status
monitor_round c cleared w = (
  elim (get_status c w) [
    | ok status ↦ print_status status
    | err e ↦ concat "Failed to get cluster status: " e ∷ []
  ],
  cleared,
)
