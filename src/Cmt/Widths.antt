-- ===== src/Cmt/Widths.antt =====
-- The frame that `print_status` draws (conreg-cmt/src/main.rs).
use conreg.Prelude.{
  ℕ, zero, suc, ◌+◌, ◌-◌, ◌≤◌, ◌<◌, String, Option, none, some, List, [], ◌∷◌, ◌++◌, concat,
  to_string, unwrap_or, map, ◌≡◌, refl, arith, ◌∙◌, All, All-append,
}
use conreg.Prelude.Digits.{size-append, size-to_string}
use conreg.Prelude.Int.{two_64}
use conreg.Prelude.Text.{size}
use conreg.Cmt.Commands.{RaftMetrics}
use conreg.Cmt.Status
use conreg.Cmt.Status.{
  blanks, pad, line, replicated, node_line, replication_line, value_lines, print_status, head_lines,
  members_lines, replication_lines, last_lines,
}

size-blanks : (n : ℕ) → size (blanks n) ≡ n
size-blanks zero = refl
size-blanks (suc n) = size-append " " (blanks n) ∙ omega (arith, size-blanks n)

-- A text that is not too long is filled up to the width.
size-pad : (n : ℕ) (s : String) → size s ≤ n → size (pad n s) ≡ n
unfolding pad
size-pad n s h = size-append s (blanks (n - size s)) ∙ omega (arith, size-blanks (n - size s))

size-line :
    (label : String) (n : ℕ) (value : String)
    → size value ≤ n
    → size (line label n value) ≡ size label + n + 2
unfolding line
size-line label n value h =
    size-append label (concat (pad n value) " │")
    ∙ omega (arith, size-append (pad n value) " │", size-pad n value h)

-- What the tool is told: numbers of 64 bits, a state and addresses of at most 30 characters, and nodes that are
-- named by one character.
pub record IsShort (m : RaftMetrics) : Type 0 where
  pub id : m.id < two_64
  pub term : m.current_term < two_64
  pub last : unwrap_or m.last_log_index 0 < two_64
  pub applied : unwrap_or m.last_applied 0 < two_64
  pub leader : unwrap_or m.current_leader 0 < two_64
  pub delay : unwrap_or m.millis_since_quorum_ack 0 < two_64
  pub state : size m.state ≤ 30
  pub nodes : All (λ (n : String × String). (size n.0 ≡ 1) × (size n.1 ≤ 30)) m.nodes
  pub replication :
      All
        (λ (r : String × Option ℕ). (size r.0 ≡ 1) × (unwrap_or r.1 0 < two_64))
        (unwrap_or m.replication [])

size-delay : (x : Option ℕ) → unwrap_or x 0 < two_64 → size (Status.delay x) ≤ 30
size-delay none h = omega arith
size-delay (some x) h = omega (arith, size-append (to_string x) " ms", size-to_string x h)

size-replicated : (x : Option ℕ) → unwrap_or x 0 < two_64 → size (replicated x) ≤ 24
size-replicated none h = omega arith
size-replicated (some x) h = omega (arith, size-to_string x h)

abbrev Wide : String → Type 0
Wide l = size l ≡ 66

number-Wide :
    (label : String) (n : ℕ) → size label ≡ 34 → n < two_64 → Wide (line label 30 (to_string n))
number-Wide label n e h =
    omega (arith, size-line label 30 (to_string n) (omega (arith, size-to_string n h)))

value_lines-Wide : (m : RaftMetrics) → IsShort m → All Wide (value_lines m)
unfolding value_lines
value_lines-Wide m s = (
  number-Wide _ m.id refl s.id,
  (
    omega (arith, size-line "│ Current Node Status           : " 30 m.state s.state),
    (
      number-Wide _ m.current_term refl s.term,
      (
        number-Wide _ (unwrap_or m.current_leader 0) refl s.leader,
        (
          number-Wide _ (unwrap_or m.last_log_index 0) refl s.last,
          (
            number-Wide _ (unwrap_or m.last_applied 0) refl s.applied,
            (
              omega (
                arith,
                size-line "│ Communication delay           : " 30
                    (Status.delay m.millis_since_quorum_ack)
                    (size-delay m.millis_since_quorum_ack s.delay),
              ),
              tt,
            ),
          ),
        ),
      ),
    ),
  ),
)

nodes-Wide :
    (nodes : List (String × String))
    → All (λ (n : String × String). (size n.0 ≡ 1) × (size n.1 ≤ 30)) nodes
    → All Wide (map node_line nodes)
unfolding node_line
nodes-Wide [] h = tt
nodes-Wide ((id, addr) ∷ rest) ((one, short), h) = (
  omega (
    arith,
    one,
    size-line (concat "│   - Node " (concat id "                    : ")) 30 addr short,
    size-append "│   - Node " (concat id "                    : "),
    size-append id "                    : ",
  ),
  nodes-Wide rest h,
)

replications-Wide :
    (rs : List (String × Option ℕ))
    → All (λ (r : String × Option ℕ). (size r.0 ≡ 1) × (unwrap_or r.1 0 < two_64)) rs
    → All Wide (map replication_line rs)
unfolding replication_line
replications-Wide [] h = tt
replications-Wide ((id, index) ∷ rest) ((one, short), h) = (
  omega (
    arith,
    one,
    size-line (concat "│   - Node " (concat id "                    : Index ")) 24
        (replicated index) (size-replicated index short),
    size-append "│   - Node " (concat id "                    : Index "),
    size-append id "                    : Index ",
  ),
  replications-Wide rest h,
)

-- Every line of the status is as wide as the frame, 66 characters, if the state and the addresses have at most 30
-- characters, the nodes are named by one character and the numbers have 64 bits.
pub print_status-Wide : (m : RaftMetrics) → IsShort m → All (λ l. size l ≡ 66) (print_status m)
unfolding print_status
print_status-Wide m s =
    let rs = unwrap_or m.replication [] in
    let a = map replication_line rs ++ last_lines in
    let b = map node_line m.nodes ++ (replication_lines ++ a) in
    let ends =
      All-append Wide (map replication_line rs) last_lines (replications-Wide rs s.replication)
        (refl, tt) in
    let table = All-append Wide replication_lines a (refl, (refl, tt)) ends in
    let nodes =
      All-append Wide (map node_line m.nodes) (replication_lines ++ a) (nodes-Wide m.nodes s.nodes)
        table in
    let members = All-append Wide members_lines b (refl, (refl, tt)) nodes in
    let values =
      All-append Wide (value_lines m) (members_lines ++ b) (value_lines-Wide m s) members in
    All-append Wide head_lines (value_lines m ++ (members_lines ++ b)) (refl, (refl, (refl, tt)))
      values
