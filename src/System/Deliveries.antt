-- ===== src/System/Deliveries.antt =====
-- A checkpoint file from one sidecar to another: `TransferCheckpoint` of
-- internal/sidecar/checkpoint_manager.go, and the server of internal/sidecar/http_server.go on the
-- other node.
use pod_checkpoint_controlle.Prelude.{String, ◌<>◌, ◌≡◌, refl, true, inl, inr, some, none}
use pod_checkpoint_controlle.Go.Errors.{ok}
use pod_checkpoint_controlle.Kube.Client.{Kube}
use pod_checkpoint_controlle.Sidecar.Host.{HttpRequest, HttpResponse, Form, Host}
use pod_checkpoint_controlle.Sidecar.Transfer.{upload_client, accepted, transfer_checkpoint}
use pod_checkpoint_controlle.Sidecar.Transfer.Receipt.{
  IsPosted, IsTaken, listed, transfer_checkpoint-IsTaken,
}
use pod_checkpoint_controlle.Sidecar.Server.{Server, route}
use pod_checkpoint_controlle.Sidecar.Server.Uploads.{IsReceived, upload_handler-Tells}

abbrev upload_url : String → String → String
upload_url ip port = "http://" <> ip <> ":" <> port <> "/upload"

-- A network: if a POST to a sidecar's upload path is answered, the answer's status is that of the
-- sidecar's server, by its address and port, which took the request in some state of its node.
pub record Connects {S T : Type 0} (H : Host S) (R : Host T) (server : String → String → Server)
    : Type 0 where
  pub arrives : String → String → HttpRequest → S → T
  pub answers :
      (ip port : String) (form : Form) (req : HttpRequest) (t : S) (resp : HttpResponse)
      → H.new_request "POST" (upload_url ip port) (some form) ≡ ok req
      → (H.send upload_client (some req) t).0 ≡ ok resp
      → resp.status_code ≡ (route R (server ip port) "/upload" req (arrives ip port req t)).0.code

accepted_ok : accepted 200 ≡ true
accepted_ok = refl

accepted_created : accepted 201 ≡ true
accepted_created = refl

module _ {T : Type 0} (K : Kube) (H : Host K.State) (R : Host T) (server : String → String → Server)
    (N : Connects H R server) (src target : String) where
  -- The file was opened and sent, from its start, to the first sidecar listed that runs on the target
  -- node, and the server there received it.
  pub record IsDelivered (s : K.State) : Type 0 where
    pub taken : IsTaken K H src target s
    pub request : HttpRequest
    pub posted :
        IsPosted H taken.file src
          (listed K H src taken.file s)
          (upload_url taken.sidecar.status.pod_ip taken.port)
          request
    pub state : T
    pub received : IsReceived R (server taken.sidecar.status.pod_ip taken.port) request state

  -- Between sidecars on a network that passes the status of the server's answer on: if
  -- `TransferCheckpoint` returns nil, the file was opened, the first pod listed that is running on the
  -- target node has an address, a form into which the file was copied from its start was posted to that
  -- address, and the server there copied every byte of the form's file to a new file in its checkpoint
  -- directory.
  pub transfer_checkpoint-IsDelivered :
      (s : K.State) → (transfer_checkpoint K H src target s).0 ≡ none → IsDelivered s
  unfolding route
  transfer_checkpoint-IsDelivered s h =
      let taken = transfer_checkpoint-IsTaken K H src target s h in
      let there = taken.accepted_there in
      let ip : String = taken.sidecar.status.pod_ip in
      let u : T = N.arrives ip taken.port there.request there.before in
      let status =
        N.answers ip taken.port _ there.request there.before there.response there.posted.built
          there.replies in
      elim (upload_handler-Tells R (server ip taken.port) there.request u) [
        | inl (received, _, _) ↦ record {
          taken = taken;
          request = there.request;
          posted = there.posted;
          state = u;
          received = received;
        }
        | inr (_, _, refused) ↦ elim there.accepts [
          | inl is_ok ↦ absurd (cc (refused, status, is_ok, accepted_ok))
          | inr is_created ↦ absurd (cc (refused, status, is_created, accepted_created))
        ]
      ]
