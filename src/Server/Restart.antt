-- ===== src/Server/Restart.antt =====
-- A node that starts more than once (conreg-server/src/main.rs).
use conreg.Prelude.{true, false, [], ◌∷◌, ok, ◌≡◌, arith, Result-cases, inl, inr}
use conreg.Server.Args.{Args, Mode}
use conreg.Server.Setup.{
  RaftNode, Banner, own_address, ensure_initialized, stand_alone, after_http_server_start,
}

-- What openraft promises: a node that was initialised is so from then on.
pub record IsLasting {W : Type 0} (raft : RaftNode W) : Type 0 where
  pub lasting :
      (nodes : _) (w : W)
      → (raft.initialize nodes w).0 ≡ ok tt
      → raft.is_initialized (raft.initialize nodes w).1 ≡ ok true

module _ {W : Type 0} (raft : RaftNode W) (a : Args) (w : W) where
  standalone-start :
      a.mode ≡ Mode.standalone → after_http_server_start raft a w ≡ stand_alone raft a w
  unfolding after_http_server_start
  standalone-start e = rw (e, after_http_server_start)

  -- A start on a node that is initialised, and one that initialises it.
  stand_alone-there :
      raft.is_initialized w ≡ ok true → stand_alone raft a w ≡ (ok (Banner.standalone a true), w)
  unfolding stand_alone ensure_initialized
  stand_alone-there h = ground (arith, h)

module _ {W : Type 0} (raft : RaftNode W) (lasts : IsLasting raft) (a : Args) (w : W) where
  stand_alone-new :
      (b : Banner)
      → raft.is_initialized w ≡ ok false
      → (stand_alone raft a w).0 ≡ ok b
      → ((raft.initialize ((a.node_id, own_address a) ∷ []) w).0 ≡ ok tt)
        × ((stand_alone raft a w).1 ≡ (raft.initialize ((a.node_id, own_address a) ∷ []) w).1)
        × (raft.is_initialized (stand_alone raft a w).1 ≡ ok true)
        × (b ≡ Banner.standalone a true)
  unfolding stand_alone ensure_initialized
  stand_alone-new b h s =
      let l = lasts.lasting ((a.node_id, own_address a) ∷ []) w in
      (ground (arith, h), ground (arith, h), ground (arith, h, l), ground (arith, h, l))

  -- A node that stands alone and has started is initialised; starting it again changes nothing, and says the
  -- same. A node that was initialised before keeps its state, whatever its arguments are; any other is
  -- made the one node of its cluster, under its id and the address of its arguments.
  pub after_http_server_start-again :
      (b : Banner)
      → a.mode ≡ Mode.standalone
      → (after_http_server_start raft a w).0 ≡ ok b
      → (b ≡ Banner.standalone a true)
        × (after_http_server_start raft a (after_http_server_start raft a w).1
            ≡ (ok b, (after_http_server_start raft a w).1))
        × (raft.is_initialized w ≡ ok true → (after_http_server_start raft a w).1 ≡ w)
        × (raft.is_initialized w ≡ ok false
            → (after_http_server_start raft a w).1
              ≡ (raft.initialize ((a.node_id, own_address a) ∷ []) w).1)
  after_http_server_start-again b alone started =
      let here = standalone-start raft a w alone in
      let s = (stand_alone raft a w).1 in
      let there = standalone-start raft a s alone in
      elim (Result-cases (raft.is_initialized w)) [
        | inr (e, h) ↦ absurd (unfold stand_alone in ground (arith, h, here))
        | inl (true, h) ↦
            let old = stand_alone-there raft a w h in
            (
              ground (arith, here, old),
              ground (arith, here, old, there),
              λ _. ground (arith, here, old),
              λ no. absurd (ground (arith, h)),
            )
        | inl (false, h) ↦
            let (done, state, set, said) = stand_alone-new b h (ground (arith, here)) in
            let old = stand_alone-there raft a s set in
            (
              said,
              ground (arith, here, there, old),
              λ no. absurd (ground (arith, h)),
              λ _. ground (arith, here, state),
            )
      ]
