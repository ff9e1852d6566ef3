-- ===== src/Sidecar/Transfer.antt =====
-- internal/sidecar/checkpoint_manager.go: `TransferCheckpoint`, the upload of a checkpoint file to
-- the sidecar of another node.
pub mod Target
pub mod Failures
pub mod Outcomes
pub mod Receipt
use pod_checkpoint_controlle.Prelude.{
  ℕ, zero, suc, ◌+◌, ◌^◌, String, ◌<>◌, ◌==◌, Bool, true, false, not, ◌&&◌, ◌||◌, Option, none,
  some, List, [], ◌∷◌, eqb, if◌then◌else◌,
}
use pod_checkpoint_controlle.Go.Errors.{GoError, Result, ok, err, errorf, wrap, seconds, minutes}
use pod_checkpoint_controlle.Go.Flow.{
  Flow, proceed, exit, ◌>>=◌, ◌>>◌, call, or_else, unless_nil, answer,
}
use pod_checkpoint_controlle.Api.Meta.{Pod, PodPhase, running, not_running}
use pod_checkpoint_controlle.Kube.Client.{Kube}
use pod_checkpoint_controlle.Sidecar.Host.{HttpClient, HttpRequest, HttpResponse, Host}

abbrev is_running : PodPhase → Bool
is_running running = true
is_running (not_running _) = false

-- The loop over the sidecar pods: the address of the first one that runs on the node, or "".
unfoldable pub target_ip : String → List Pod → String
target_ip node [] = ""
target_ip node (p ∷ ps) =
    let rest = target_ip node ps in
    if p.spec.node_name == node && is_running p.status.phase then p.status.pod_ip else rest

abbrev pub port_or_default : String → String
port_or_default port = if not (port == "") then port else "8081"

abbrev pub upload_client : HttpClient
upload_client = record {
  timeout = minutes 5;
  certificates = [];
  root_cas = "";
  insecure_skip_verify = false;
}

abbrev pub accepted : ℕ → Bool
accepted code = eqb code 201 || eqb code 200

-- The error after the last attempt.
abbrev gave_up : Option GoError → GoError
gave_up none = errorf "failed to transfer checkpoint after multiple attempts: %!w(<nil>)"
gave_up (some e) = wrap "failed to transfer checkpoint after multiple attempts" e

abbrev Sending : Type 0 → Type 0 → Type 0
Sending = Flow (Option GoError)

pub fail_with : {S A : Type 0} → String → GoError → Sending S A
fail_with text e = exit (some (wrap text e))

module _ {S : Type 0} (H : Host S) where
  -- `multipart.NewWriter`, `CreateFormFile` and `io.Copy` of the file.
  unfoldable pub fill_form : ℕ → String → Sending S ℕ
  unfolding fail_with
  fill_form file src = do
    writer ← call H.new_writer
    e ← call (H.create_form_file writer "file" (H.base src))
    unless_nil e (fail_with "failed to create form file")
    copied ← call (H.copy_into_form writer file)
    unless_nil copied (fail_with "failed to copy file into form body")
    proceed writer

  -- `http.NewRequestWithContext` for a form, and its content type.
  unfoldable pub form_request : String → ℕ → Sending S HttpRequest
  unfolding fail_with
  form_request url writer = do
    form ← call (H.form_of writer)
    or_else (H.new_request "POST" url (some form)) (fail_with "failed to create HTTP request")

  -- The request of a later attempt: wait, rewind the file and build the form anew.
  unfoldable pub retry_request : ℕ → String → String → ℕ → Sending S HttpRequest
  unfolding fail_with fill_form form_request
  retry_request file src url attempt = do
    call (λ s. (tt {0}, H.sleep (seconds (2 ^ attempt)) s))
    e ← call (H.seek_start file)
    unless_nil e (fail_with "failed to reset file position")
    writer ← fill_form file src
    call (H.close_writer writer)
    form_request url writer

  -- The check of the target's `/health` after an upload; its result is only logged.
  unfoldable pub health_check : String → String → Sending S (Unit {0})
  health_check ip port = do
    call (H.http_get ("http://" <> ip <> ":" <> port <> "/health"))
    proceed tt

  -- What follows on a reply: `rest` is the loop as it goes on, from the new `lastErr`.
  unfoldable pub take_reply :
      String
      → String
      → Result HttpResponse
      → (Option GoError → Sending S (Option GoError))
      → Sending S (Option GoError)
  unfolding health_check
  take_reply ip port (err e) rest = rest (some e)
  take_reply ip port (ok resp) rest = do
    text ← call (H.read_body resp)
    if accepted resp.status_code
        then (do health_check ip port; exit none)
        else rest
            (some (errorf ("upload failed with status: " <> resp.status <> ", response: " <> text)))

  -- The request of an attempt; the first one is ready before the loop.
  unfoldable pub attempt_request : ℕ → String → String → ℕ → HttpRequest → Sending S HttpRequest
  unfolding retry_request
  attempt_request file src url attempt first =
      if eqb attempt 0 then proceed first else retry_request file src url attempt

  -- The loop `for attempt := 0; attempt < 3; attempt++`, by the rounds left, with `lastErr` and the
  -- request of the first round.
  module _ (file : ℕ) (src ip port url : String) where
    unfoldable pub upload : ℕ → ℕ → Option GoError → HttpRequest → Sending S (Option GoError)
    upload zero attempt last_err first = exit (some (gave_up last_err))
    upload (suc rounds) attempt last_err first =
        let rest = upload rounds (attempt + 1) in
        do
          req ← attempt_request file src url attempt first
          reply ← call (H.send upload_client (some req))
          take_reply ip port reply (λ e. rest e first)

module _ (K : Kube) (H : Host K.State) where
  -- The part of the body after the address of the target is found.
  unfoldable pub send_form : ℕ → String → String → Sending K.State (Option GoError)
  send_form file src ip = do
    writer ← fill_form H file src
    e ← call (H.close_writer writer)
    unless_nil e (λ x. exit (some x))
    env ← call (H.getenv "HTTP_PORT")
    first ← form_request H ("http://" <> ip <> ":" <> port_or_default env <> "/upload") writer
    upload H file src ip (port_or_default env)
        ("http://" <> ip <> ":" <> port_or_default env <> "/upload") 3 0 none first

  -- The address that the listed pods give.
  unfoldable pub send_to : ℕ → String → String → String → Sending K.State (Option GoError)
  send_to file src target ip =
      if ip == ""
      then exit (some (errorf ("no running sidecar pod found on node " <> target)))
      else send_form file src ip

  -- The body, on the open file.
  unfoldable pub send_file : ℕ → String → String → Sending K.State (Option GoError)
  unfolding fail_with
  send_file file src target = do
    size ← call (H.stat_size file)
    or_else size (fail_with "failed to get file info")
    listed ← call (K.list_pods "app" "container-checkpoint-sidecar")
    pods ← or_else listed (fail_with "failed to list sidecar pods")
    send_to file src target (target_ip target pods)

  -- `TransferCheckpoint`; the file is closed on every way out.
  unfoldable pub transfer_checkpoint : String → String → K.State → Option GoError × K.State
  transfer_checkpoint src target s =
      let (opened, s₁) = H.open_file src s in
      elim opened [
        | err e ↦ (some (wrap ("failed to open checkpoint file " <> src) e), s₁)
        | ok file ↦ let (r, s₂) = answer (send_file file src target s₁) in (r, H.close_file file s₂)
      ]
