-- ===== src/Server/Args.antt =====
-- The arguments of the server (conreg-server/src/main.rs, lines 30 to 82). `is_ip` says which texts are the
-- address of a host, as `str::parse::<IpAddr>` reads it.
use conreg.Prelude.{
  ℕ, String, Bool, true, false, Anyhow, ok, err, not, ◌&&◌, ◌==◌, nat_eq, if◌then◌else◌, ◌≡◌, ◌≢◌,
  ◌↔◌, arith, ◌⊎◌, inl, inr, refl,
}

pub data Mode : Type 0 where
  standalone cluster : Mode

pub record Args : Type 0 where
  pub address : String
  pub port : ℕ
  pub data_dir : String
  pub node_id : ℕ
  pub mode : Mode
  pub enable_cache_config : Bool

unfoldable pub is_standalone : Mode → Bool
is_standalone Mode.standalone = true
is_standalone Mode.cluster = false

Mode-cases : (m : Mode) → (m ≡ Mode.standalone) ⊎ (m ≡ Mode.cluster)
Mode-cases Mode.standalone = inl refl
Mode-cases Mode.cluster = inr refl

module _ (is_ip : String → Bool) where
  unfoldable pub validate : Args → Anyhow (Unit {0})
  unfolding is_standalone
  validate a =
      if not (is_ip a.address)
      then err "Invalid address format"
      else if a.port == 0
      then err "Port cannot be 0"
      else if is_standalone a.mode && not (a.node_id == 1)
      then err "Node ID is not supported in standalone mode"
      else if a.node_id == 0
      then err "Node ID must be greater than 0"
      else ok tt

  -- A server may start with exactly these arguments: an address of a host, a port and a node's id that are
  -- not 0, and the id 1 if it stands alone.
  pub validate_iff :
      (a : Args)
      → (validate a ≡ ok tt) ↔ (
          (is_ip a.address ≡ true)
          × (a.port ≢ 0)
          × (a.node_id ≢ 0)
          × (a.mode ≡ Mode.standalone → a.node_id ≡ 1))
  unfolding validate
  validate_iff a = (
    λ h. (ground arith, ground arith, ground arith, λ e. ground (arith, e)),
    λ (ip, port, node, alone). elim (Mode-cases a.mode) [
      | inl e ↦ ground (arith, ip, port, alone e)
      | inr e ↦ ground (arith, ip, port, node, e)
    ],
  )
