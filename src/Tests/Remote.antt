-- ===== src/Tests/Remote.antt =====
-- Runs of the requests between nodes (conreg-server/src/raft/network/mod.rs).
use conreg.Prelude.{ℕ, ◌+◌, String, Option, none, some, ok, err, Result, ◌≡◌, refl}
use conreg.Raft.Rpc.{Serde, Tags, RpcError, append, snapshot, append_entries, install_snapshot}
use conreg.Raft.Remote.{Link, IsSound, post, url_of, append_entries-told, install_snapshot-told}

-- Bodies: a number, a tagged body, and the page of an error.
data Body : Type 0 where
  number : ℕ → Body
  tagged : Body → Body
  tagged_error : Body → Body
  page : Body

abbrev tag : Body → Option (Result Body Body)
tag (tagged b) = some (ok b)
tag (tagged_error b) = some (err b)
tag _ = none

abbrev tags : Tags Body
tags = record { ok_body = tagged; err_body = tagged_error; tag = tag; error_page = page }

abbrev read : Body → Option ℕ
read (number n) = some n
read _ = none

abbrev numbers : Serde Body ℕ
numbers = record { write = number; read = read }

sound : IsSound tags
sound = record { tag_ok = λ b. refl; tag_page = refl }

-- A node that counts what it took.
abbrev take : ℕ → ℕ → Result ℕ String × ℕ
take n w = (ok n, w + n)

append_entries-told_example :
    append_entries tags
      (post tags numbers numbers
        (record { write = λ (e : String). page; read = λ b. none })
        Link.up
        (url_of "b:1" "append")
        (append take))
      number
      (record { addr = "b:1" })
      read
      3
      4
    ≡ (ok 3, 7)
unfolding append_entries
append_entries-told_example =
    append_entries-told tags sound numbers numbers
      (record { write = λ (e : String). page; read = λ b. none }) take (record { addr = "b:1" }) 3 4
      Link.up (λ n. refl) (λ n. refl)

install_snapshot-told_example :
    install_snapshot tags
      (post tags numbers numbers
        (record { write = λ (e : String). page; read = λ b. none })
        Link.up
        (url_of "b:1" "snapshot")
        (snapshot take))
      number
      (record { addr = "b:1" })
      read
      (λ b. none)
      3
      4
    ≡ (err RpcError.network, 7)
unfolding install_snapshot
install_snapshot-told_example =
    install_snapshot-told tags sound numbers numbers
      (record { write = λ (e : String). page; read = λ b. none }) take (record { addr = "b:1" }) 3 4
      Link.up (λ b. none) (λ n. refl) (λ n. refl)
