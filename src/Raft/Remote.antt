-- ===== src/Raft/Remote.antt =====
-- What a request to another node's Raft does there, and what comes back
-- (conreg-server/src/raft/network/mod.rs over conreg-server/src/raft/api/raft.rs).
use conreg.Prelude.{
  String, string_eq, Option, none, some, Result, ok, err, concat, ◌==◌, if◌then◌else◌, ◌≡◌, arith,
  inl, inr, Result-cases, eq_refl,
}
use conreg.Raft.Rpc.{
  Serde, Tags, RpcError, Sent, Status, Network, vote, append, snapshot, write_result,
  append_entries, send_vote, install_snapshot,
}

-- The connection to a node: there is none, the request or the answer is lost, or both get through.
pub data Link : Type 0 where
  down lost cut up : Link

-- What serde_json does: it finds the tag that it wrote, no error page has one, and a value is read back.
pub record IsSound {B : Type 0} (tags : Tags B) : Type 0 where
  pub tag_ok : (b : B) → tags.tag (tags.ok_body b) ≡ some (ok b)
  pub tag_page : tags.tag tags.error_page ≡ none

abbrev pub ReadsBack : {B A : Type 0} → Serde B A → Type 0
ReadsBack {A} s = (a : A) → s.read (s.write a) ≡ some a

module _ {B W Req Resp E : Type 0} (tags : Tags B) (req : Serde B Req) (resp : Serde B Resp)
    (error : Serde B E) (link : Link) where
  -- A route over HTTP, at the URL of a node: it reads the request from the body, or refuses it.
  abbrev pub serve : String → (Req → W → Result (Result Resp E) Status × W) → String → B → W → B × W
  serve here route url body w =
      if url == here
      then elim (req.read body) [
        | none ↦ (tags.error_page, w)
        | some r ↦
            let (res, w') = route r w in
            (
              elim res [
                | err status ↦ tags.error_page
                | ok x ↦ write_result tags resp.write error.write x
              ],
              w',
            )
      ]
      else (tags.error_page, w)

  abbrev pub over : Link → (B → W → B × W) → B → W → Sent B × W
  over Link.down f b w = (Sent.no_connection, w)
  over Link.lost f b w = (Sent.failed, w)
  over Link.cut f b w = (Sent.failed, (f b w).1)
  over Link.up f b w = (Sent.received (f b w).0, (f b w).1)

  abbrev pub post :
      String → (Req → W → Result (Result Resp E) Status × W) → String → B → W → Sent B × W
  post here route url = over link (serve here route url)

-- What the sender is told of openraft's answer on the other node, and what the other node is then.
abbrev pub told : {Resp E : Type 0} → Link → Result Resp E → Result Resp RpcError
told Link.down r = err RpcError.unreachable
told Link.lost r = err RpcError.network
told Link.cut r = err RpcError.network
told Link.up (ok response) = ok response
told Link.up (err e) = err RpcError.network

abbrev pub reached : {W : Type 0} → Link → W → W → W
reached Link.down w w' = w
reached Link.lost w w' = w
reached Link.cut w w' = w'
reached Link.up w w' = w'

abbrev pub url_of : String → String → String
url_of addr uri = concat "http://" (concat addr (concat "/api/cluster/" uri))

module _ {B W Req Resp E : Type 0} (tags : Tags B) (sound : IsSound tags) (req : Serde B Req)
    (resp : Serde B Resp) (error : Serde B E) (handle : Req → W → Result Resp E × W) (n : Network)
    (r : Req) (w : W) where
  -- Entries that are sent to a node are given to its Raft exactly if they arrive there. The sender is
  -- told the answer if both ways are open and Raft gave one, that the node is unreachable if there is no
  -- connection, and of an error of the network otherwise, also where Raft refused them.
  pub append_entries-told :
      (link : Link)
      → ReadsBack req
      → ReadsBack resp
      → append_entries tags
          (post tags req resp error link (url_of n.addr "append") (append handle))
          req.write
          n
          resp.read
          r
          w
        ≡ (told link (handle r w).0, reached link w (handle r w).1)
  unfolding append_entries append
  append_entries-told link asks answers = elim (Result-cases (handle r w).0) [
    | inl (x, e) ↦
        ground (
          arith,
          asks r,
          answers x,
          e,
          sound.tag_ok (resp.write x),
          eq_refl (url_of n.addr "append"),
        )
    | inr (x, e) ↦ ground (arith, asks r, e, sound.tag_page, eq_refl (url_of n.addr "append"))
  ]

  -- A request for a vote is told of in the same way.
  pub send_vote-told :
      (link : Link)
      → ReadsBack req
      → ReadsBack resp
      → send_vote tags
          (post tags req resp error link (url_of n.addr "vote") (vote handle))
          req.write
          n
          resp.read
          r
          w
        ≡ (told link (handle r w).0, reached link w (handle r w).1)
  unfolding send_vote vote
  send_vote-told link asks answers = elim (Result-cases (handle r w).0) [
    | inl (x, e) ↦
        ground
          (arith, asks r, answers x, e, sound.tag_ok (resp.write x), eq_refl (url_of n.addr "vote"))
    | inr (x, e) ↦ ground (arith, asks r, e, sound.tag_page, eq_refl (url_of n.addr "vote"))
  ]

  -- No node is told that another has taken its snapshot: the answer is read as a result in a result, which
  -- an answer without a tag of its own never is. Over an open connection the other node takes the snapshot,
  -- and the sender is told of an error of the network.
  pub install_snapshot-told :
      (link : Link) (read_error : B → Option RpcError)
      → ReadsBack req
      → ((x : Resp) → tags.tag (resp.write x) ≡ none)
      → install_snapshot tags
          (post tags req resp error link (url_of n.addr "snapshot") (snapshot handle))
          req.write
          n
          resp.read
          read_error
          r
          w
        ≡ (
          err (elim link [ Link.down ↦ RpcError.unreachable | _ ↦ RpcError.network ]),
          reached link w (handle r w).1,
        )
  unfolding install_snapshot snapshot
  install_snapshot-told link read_error asks plain = elim (Result-cases (handle r w).0) [
    | inl (x, e) ↦
        ground (
          arith,
          asks r,
          plain x,
          e,
          sound.tag_ok (resp.write x),
          eq_refl (url_of n.addr "snapshot"),
        )
    | inr (x, e) ↦ ground (arith, asks r, e, sound.tag_page, eq_refl (url_of n.addr "snapshot"))
  ]
