-- ===== src/HttpTunnel/Discovery/Laws.antt =====
-- What a heartbeat changes, and what a base is answered.
use module_controller.Prelude.{
  ℕ, Bool, true, false, String, ◌≡◌, ◌≢◌, ◌∙◌, refl, ap, sym, some, List, insert, lookup-insert,
  ◌==◌, if◌then◌else◌, eq_iff, eq_refl, eq-false_of_ne,
}
use module_controller.Go.Effect.{returns, Result, ok, err, Error}
use module_controller.Platform.{Platform}
use module_controller.Platform.Vnode.{NodeInfo}
use module_controller.Model.{BaseStatus}
use module_controller.Utils.{convert_base_status_to_node_info}
use module_controller.Tunnel.{call}
use module_controller.HttpTunnel.{HttpTunnel, Running}
use module_controller.HttpTunnel.Nodes.{find, write, with_map, find_base, register_node}
use module_controller.HttpTunnel.Nodes.Laws.{register_node-find}
use module_controller.HttpTunnel.Discovery.{
  Reply, success, method_not_allowed, bad_request, heartbeat, announce, written, replied,
}

announced_name :
    (p : Platform) (status : BaseStatus) (env : String)
    → (convert_base_status_to_node_info p status env).metadata.name
      ≡ p.format_node_name status.base_metadata.identity env
unfolding convert_base_status_to_node_info
announced_name p status env = refl

if_twice :
    {A : Type 0} (b : Bool) (x y : A)
    → (if b then x else (if b then x else y)) ≡ (if b then x else y)
if_twice true x y = refl
if_twice false x y = refl

module _ (p : Platform) {W : Type 0} where
  -- A started tunnel with the status of one base written.
  abbrev pub with_status : HttpTunnel W → List (String × BaseStatus) → BaseStatus → HttpTunnel W
  with_status h m status = record h {
    node_id_to_base_status_map = some (insert status.base_metadata.identity status m);
  }

  announce-eq :
      (status : BaseStatus) (h : HttpTunnel W) (f : NodeInfo → W → W) (w : W)
      → h.callbacks.on_base_discovered ≡ some f
      → announce p status h w ≡ (
        returns success,
        record { tunnel = h; world = f (convert_base_status_to_node_info p status h.env) w },
      )
  unfolding announce
  announce-eq status h f w e =
      ap
        (λ g.
          let (o, w') = call g (convert_base_status_to_node_info p status h.env) w in
          (replied o, record { tunnel = h; world = w' }))
        e

  pub heartbeat-eq :
      (status : BaseStatus) (h : HttpTunnel W) (m : List (String × BaseStatus))
      (f : NodeInfo → W → W) (w : W)
      → h.node_id_to_base_status_map ≡ some m
      → h.callbacks.on_base_discovered ≡ some f
      → heartbeat p "POST" (ok status) (record { tunnel = h; world = w }) ≡ (
        returns success,
        record {
          tunnel = with_status h m status;
          world = f (convert_base_status_to_node_info p status h.env) w;
        },
      )
  unfolding heartbeat write written
  heartbeat-eq status h m f w e c =
      ap
        (λ t.
          written p status (with_map h (write t status.base_metadata.identity status))
            (record { tunnel = h; world = w }))
        e
      ∙ announce-eq status (with_status h m status) f w c

  pub with_status-find :
      (h : HttpTunnel W) (m : List (String × BaseStatus)) (status : BaseStatus) (j : String)
      → h.node_id_to_base_status_map ≡ some m
      → find_base (with_status h m status) j
        ≡ (if status.base_metadata.identity == j then some status else find_base h j)
  unfolding find_base find
  with_status-find h m status j e =
      lookup-insert status.base_metadata.identity j status m
      ∙ ap (λ t. if status.base_metadata.identity == j then some status else find t j) (sym e)

  -- A heartbeat to a started tunnel is answered with success; the tunnel then knows the base by the
  -- status it sent, and what it knows of other bases stays; and the base is announced once, as its
  -- node info. The callback must have been registered.
  pub heartbeat_accepted :
      (status : BaseStatus) (h : HttpTunnel W) (m : List (String × BaseStatus))
      (f : NodeInfo → W → W) (w : W) (j : String)
      → h.node_id_to_base_status_map ≡ some m
      → h.callbacks.on_base_discovered ≡ some f
      → (h' : HttpTunnel W) × (heartbeat p "POST" (ok status) (record { tunnel = h; world = w }) ≡ (
        returns success,
        record { tunnel = h'; world = f (convert_base_status_to_node_info p status h.env) w },
      ))
        × (find_base h' j
            ≡ (if status.base_metadata.identity == j then some status else find_base h j))
  heartbeat_accepted status h m f w j e c =
      (with_status h m status, heartbeat-eq status h m f w e c, with_status-find h m status j e)

  -- A heartbeat to a started tunnel, and then the registration of the node info that it announced:
  -- both succeed, the info was announced once, and in the end the tunnel knows the base by the whole
  -- status that the heartbeat sent, its port and the base's name included, and the other bases as
  -- before. The callback must have been registered, and the node name must give the identity back.
  pub register_after_heartbeat :
      (status : BaseStatus) (h : HttpTunnel W) (m : List (String × BaseStatus))
      (f : NodeInfo → W → W) (w : W) (j : String)
      → h.node_id_to_base_status_map ≡ some m
      → h.callbacks.on_base_discovered ≡ some f
      → p.extract_node_id_from_node_name (p.format_node_name status.base_metadata.identity h.env)
        ≡ status.base_metadata.identity
      → (info : NodeInfo) × (h' : HttpTunnel W) × (heartbeat p "POST"
            (ok status)
            (record { tunnel = h; world = w })
          ≡ (returns success, record { tunnel = h'; world = f info w }))
        × (h'' : HttpTunnel W) × (register_node p info h' ≡ returns h'')
        × (find_base h'' j
            ≡ (if status.base_metadata.identity == j then some status else find_base h j))
  register_after_heartbeat status h m f w j e c x =
      let id = status.base_metadata.identity in
      let info = convert_base_status_to_node_info p status h.env in
      let h' = with_status h m status in
      let known : find_base h' id ≡ some status =
        with_status-find h m status id e ∙ rw (eq_refl id) in
      let (h'', registered, found) = register_node-find p info h' (insert id status m) j refl in
      (
        info,
        h',
        heartbeat-eq status h m f w e c,
        h'',
        registered,
        found
            ∙ rw (announced_name p status h.env, x)
                (rw (known, with_status-find h m status j e) (if_twice (id == j) _ _)),
      )

-- A request that the handler of a path turns away, with the status of the answer.
data Rejected {ℓ} {A : Type ℓ} (method : String) (body : Result A) (status : ℕ) : Type ℓ where
  wrong_method : method ≢ "POST" → status ≡ 405 → Rejected method body status
  undecodable :
      (e : Error) → method ≡ "POST" → body ≡ err e → status ≡ 400 → Rejected method body status

module _ (p : Platform) {W : Type 0} where
  -- A heartbeat with another method, or whose body cannot be decoded, is answered with 405 or 400,
  -- and neither the tunnel nor anything else changes.
  heartbeat_turned_away :
      (method : String) (body : Result BaseStatus) (status : ℕ) (r : Running W)
      → Rejected method body status
      → (reply : Reply) × (heartbeat p method body r ≡ (returns reply, r)) × (reply.status ≡ status)
  unfolding heartbeat
  heartbeat_turned_away method body status r (wrong_method n s) =
      (method_not_allowed, rw (eq-false_of_ne _ _ n), sym s)
  heartbeat_turned_away method body status r (undecodable e m b s) =
      (bad_request e, rw ((eq_iff method "POST").1 m) (rw b), sym s)
