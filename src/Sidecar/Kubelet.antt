-- ===== src/Sidecar/Kubelet.antt =====
-- internal/sidecar/checkpoint_manager.go: `makeTLSClient`, `doCheckpointWithBackoff` and
-- `CreateCheckpoint`.
pub mod Polls
pub mod Success
use pod_checkpoint_controlle.Prelude.{
  ℕ, String, ◌<>◌, Bool, true, false, ◌||◌, Option, none, some, List, [], ◌∷◌, ltb, leb,
  if◌then◌else◌,
}
use pod_checkpoint_controlle.Go.Errors.{GoError, Result, ok, err, errorf, wrap, seconds}
use pod_checkpoint_controlle.Sidecar.Host.{
  HttpClient, HttpRequest, HttpResponse, Captured, Backoff, Host, decimal,
}

abbrev pub checkpoint_cert_file : String
checkpoint_cert_file = "/etc/kubernetes/pki/apiserver-kubelet-client.crt"

abbrev pub checkpoint_key_file : String
checkpoint_key_file = "/etc/kubernetes/pki/apiserver-kubelet-client.key"

abbrev pub checkpoint_ca_file : String
checkpoint_ca_file = "/var/lib/kubelet/pki/kubelet.crt"

abbrev pub checkpoint_timeout : ℕ
checkpoint_timeout = seconds 10

abbrev pub checkpoint_backoff : Backoff
checkpoint_backoff = record { steps = 5; duration = seconds 2; factor = 2 }

abbrev pub checkpoint_url : String → String → String → String → String
checkpoint_url node namespace pod container =
    "https://" <> node <> ":10250/checkpoint/" <> namespace <> "/" <> pod <> "/" <> container

abbrev pub request_of : Result HttpRequest → Option HttpRequest
request_of (ok r) = some r
request_of (err e) = none

-- The last part of the closure, on the parsed items: the closure's answer and its variables.
unfoldable pub take_items : Result (List String) → Captured → (Bool × Option GoError) × Captured
take_items (err e) c =
    ((false, none), record c { last_err = some (errorf ("bad kubelet JSON: " <> e.text)) })
take_items (ok []) c =
    ((false, none), record c { last_err = some (errorf "bad kubelet JSON: <nil>") })
take_items (ok (f ∷ fs)) c = ((true, none), record c { out_files = f ∷ fs })

abbrev pub is_success : ℕ → Bool
is_success code = if ltb code 200 || leb 300 code then false else true

module _ {S : Type 0} (H : Host S) where
  -- `makeTLSClient`
  unfoldable pub make_tls_client : String → String → String → S → Result HttpClient × S
  make_tls_client cert_path key_path ca_path s =
      let (cert, s₁) = H.load_key_pair cert_path key_path s in
      elim cert [
        | err e ↦ (err e, s₁)
        | ok c ↦
            let (ca_bytes, s₂) = H.read_file ca_path s₁ in
            (
              ok (record {
                timeout = checkpoint_timeout;
                certificates = c ∷ [];
                root_cas = H.pool_of_pem ca_bytes;
                insecure_skip_verify = true;
              }),
              s₂,
            )
      ]

  -- The closure on a reply of the kubelet.
  unfoldable pub take_reply :
      Result HttpResponse × S → Captured → (Bool × Option GoError) × (Captured × S)
  unfolding take_items decimal
  take_reply (err e, s) c = ((false, none), (record c { last_err = some e }, s))
  take_reply (ok resp, s) c =
      let (data', s') = H.read_body resp s in
      if is_success resp.status_code
      then (let (answer, c') = take_items (H.unmarshal_items data') c in (answer, (c', s')))
      else (
        (false, none),
        (
          record c {
            last_err =
                some (errorf ("kubelet responded " <> decimal resp.status_code <> ": " <> data'));
          },
          s',
        ),
      )

  -- The closure that `doCheckpointWithBackoff` hands to `ExponentialBackoff`.
  unfoldable pub poll :
      HttpClient → String → Captured × S → (Bool × Option GoError) × (Captured × S)
  unfolding take_reply
  poll client url (c, s) =
      take_reply (H.send client (request_of (H.new_request "POST" url none)) s) c

  -- `doCheckpointWithBackoff`: the files, and an error or nil.
  unfoldable pub do_checkpoint_with_backoff :
      HttpClient → String → S → (List String × Option GoError) × S
  unfolding poll
  do_checkpoint_with_backoff client url s =
      let (e, (c, s')) =
        H.exponential_backoff checkpoint_backoff (poll client url)
          (record { out_files = []; last_err = none }, s) in
      elim e [ none ↦ ((c.out_files, none), s') | some _ ↦ (([], c.last_err), s') ]

  -- `CreateCheckpoint`, on a node.
  unfoldable pub create_checkpoint :
      String → String → String → String → S → (List String × Option GoError) × S
  unfolding make_tls_client
  create_checkpoint node namespace pod container s =
      let (client, s') =
        make_tls_client checkpoint_cert_file checkpoint_key_file checkpoint_ca_file s in
      elim client [
        | err e ↦ (([], some (wrap "failed to create TLS client" e)), s')
        | ok c ↦ do_checkpoint_with_backoff c (checkpoint_url node namespace pod container) s'
      ]
