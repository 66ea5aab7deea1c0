-- ===== src/Cmt/Run.antt =====
-- The tool's program (`Commands` and `main` of conreg-cmt/src/main.rs): one command for a run.
use conreg.Prelude.{ℕ, String, List, ok, err}
use conreg.Cmt.Commands
use conreg.Cmt.Commands.{Cluster, End}
use conreg.Cmt.Status.{print_status}

-- `monitor` goes on until a round fails: it is a loop of rounds of its own.
pub data Command : Type 0 where
  init : List (ℕ × String) → Command
  add_learner : ℕ × String → Command
  promote : List ℕ → Command
  remove_node : ℕ → Command
  status : Command

-- A command's end, or the lines of a status.
pub data Output : Type 0 where
  ended : End → Output
  printed : List String → Output

abbrev ending : {W : Type 0} → End × W → Output × W
ending (e, w) = (Output.ended e, w)

unfoldable pub main : {W : Type 0} → Cluster W → Command → W → Output × W
unfolding Commands.init_cluster Commands.add_learner Commands.promote_nodes Commands.remove_node
    Commands.get_status print_status
main c (Command.init nodes) w = ending (Commands.init_cluster c nodes w)
main c (Command.add_learner node) w = ending (Commands.add_learner c node w)
main c (Command.promote ids) w = ending (Commands.promote_nodes c ids w)
main c (Command.remove_node id) w = ending (Commands.remove_node c id w)
main c Command.status w = elim (Commands.get_status c w) [
  | err e ↦ (Output.ended (End.error e), w)
  | ok metrics ↦ (Output.printed (print_status metrics), w)
]
