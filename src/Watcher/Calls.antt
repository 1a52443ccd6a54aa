-- ===== src/Watcher/Calls.antt =====
-- cmd/k8s-watcher/main.go: the calls of the management API that the watcher makes.
use distributed_service_mesh.Base.Int.{ℤ}
use distributed_service_mesh.Base.Text.{codes, Text}
use distributed_service_mesh.Base.{leb, not, some, none, false, ◌++◌, Bool, ℕ, Option}

-- The keys of the map that `register` marshals.
pub record RegistrationBody : Type 0 where
  pub service_name : Text
  pub instance_id : Text
  pub address : Text
  pub port : ℤ

pub record HttpCall : Type 0 where
  pub method : Text
  pub url : Text
  pub body : Option RegistrationBody

-- What answers the calls: `Do` of the HTTP client, with the status of the response, or `none` where
-- it, or the making of the request, returns an error.
pub record Network : Type 1 where
  pub World : Type 0
  pub send : HttpCall → World → Option ℕ × World

-- The fields of the watcher that stay as they are.
pub record Watcher : Type 0 where
  pub service : Text
  pub cp_addr : Text
  pub port : ℤ

-- The end of `post` and `deregister`: whether they return no error.
unfoldable pub is_success : Option ℕ → Bool
is_success none = false
is_success (some status) = not (leb 300 status)

module _ (net : Network) (w : Watcher) where
  unfoldable pub post : Text → Option RegistrationBody → net.World → Bool × net.World
  unfolding is_success
  post path body world =
      let (status, world') =
        net.send (record { method = codes "POST"; url = w.cp_addr ++ path; body = body }) world in
      (is_success status, world')

  -- `register`: whether it returns no error.
  unfoldable pub register_pod : Text → Text → net.World → Bool × net.World
  unfolding post
  register_pod id addr =
      post (codes "/v1/services") (
        some (record { service_name = w.service; instance_id = id; address = addr; port = w.port }))

  unfoldable pub heartbeat_path_of : Text → Text
  heartbeat_path_of id =
      codes "/v1/services/" ++ (w.service ++ (codes "/instances/" ++ (id ++ codes "/heartbeat")))

  -- `heartbeat`
  unfoldable pub heartbeat_pod : Text → net.World → Bool × net.World
  unfolding post heartbeat_path_of
  heartbeat_pod id = post (heartbeat_path_of id) none

  unfoldable pub instance_path_of : Text → Text
  instance_path_of id = codes "/v1/services/" ++ (w.service ++ (codes "/instances/" ++ id))

  -- `deregister`
  unfoldable pub deregister_pod : Text → net.World → Bool × net.World
  unfolding is_success instance_path_of
  deregister_pod id world =
      let (status, world') =
        net.send
          (record { method = codes "DELETE"; url = w.cp_addr ++ instance_path_of id; body = none })
          world in
      (is_success status, world')
