-- ===== src/Sidecar/Delivery.antt =====
-- When a transfer succeeds: a host on which the file can be read, and a target that takes it.
use pod_checkpoint_controlle.Prelude.{
  ℕ, String, ◌==◌, ◌≡◌, ap, true, false, Option, none, some, List, arith,
}
use pod_checkpoint_controlle.Go.Errors.{GoError, ok}
use pod_checkpoint_controlle.Go.Flow.{Step, return, next, answer}
use pod_checkpoint_controlle.Api.Meta.{Pod}
use pod_checkpoint_controlle.Kube.Client.{Kube}
use pod_checkpoint_controlle.Sidecar.Host.{HttpRequest, HttpResponse, Form, Host}
use pod_checkpoint_controlle.Sidecar.Transfer.{
  target_ip, upload_client, accepted, fill_form, form_request, upload, attempt_request, take_reply,
  health_check, send_form, send_to, send_file, transfer_checkpoint,
}

-- The files can be read and put into a form, the sidecar of the target is listed with an address,
-- and it takes a request.
pub record Delivers (K : Kube) (H : Host K.State) (target : String) : Type 0 where
  pub handle : String → K.State → ℕ
  pub opens : (path : String) (t : K.State) → (H.open_file path t).0 ≡ ok (handle path t)
  pub size : ℕ → K.State → ℕ
  pub stats : (file : ℕ) (t : K.State) → (H.stat_size file t).0 ≡ ok (size file t)
  pub forms :
      (writer : ℕ) (field name : String) (t : K.State)
      → (H.create_form_file writer field name t).0 ≡ none
  pub copies : (writer file : ℕ) (t : K.State) → (H.copy_into_form writer file t).0 ≡ none
  pub closes : (writer : ℕ) (t : K.State) → (H.close_writer writer t).0 ≡ none
  pub request : String → String → Option Form → HttpRequest
  pub requests :
      (method url : String) (form : Option Form)
      → H.new_request method url form ≡ ok (request method url form)
  pub sidecars : List Pod
  pub lists : (t : K.State) → (K.list_pods "app" "container-checkpoint-sidecar" t).0 ≡ ok sidecars
  pub addressed : (target_ip target sidecars == "") ≡ false
  pub reply : Option HttpRequest → K.State → HttpResponse
  pub replies :
      (q : Option HttpRequest) (t : K.State) → (H.send upload_client q t).0 ≡ ok (reply q t)
  pub accepts : (q : Option HttpRequest) (t : K.State) → accepted (reply q t).status_code ≡ true

module _ (K : Kube) (H : Host K.State) (target : String) (D : Delivers K H target) where
  upload_accepted :
      (file : ℕ) (src ip port url : String) (first : HttpRequest) (s : K.State)
      → (upload H file src ip port url 3 0 none first s).0 ≡ return none
  unfolding upload attempt_request take_reply health_check
  upload_accepted file src ip port url first s =
      ground (arith, D.replies (some first) s, D.accepts (some first) s)

  send_form_accepted :
      (file : ℕ) (src ip : String) (s : K.State) → (send_form K H file src ip s).0 ≡ return none
  unfolding send_form fill_form form_request
  send_form_accepted file src ip s =
      rw (D.forms, D.copies, D.closes, D.requests) (upload_accepted _ _ _ _ _ _ _)

  send_to_accepted :
      (file : ℕ) (src ip : String) (s : K.State)
      → (ip == "") ≡ false
      → (send_to K H file src target ip s).0 ≡ return none
  unfolding send_to
  send_to_accepted file src ip s there = rw there (send_form_accepted file src ip s)

  send_file_accepted :
      (file : ℕ) (src : String) (s : K.State) → (send_file K H file src target s).0 ≡ return none
  unfolding send_file
  send_file_accepted file src s = rw (D.stats, D.lists) (send_to_accepted file src _ _ D.addressed)

  answer_accepted :
      (x : Step (Option GoError) (Option GoError) × K.State)
      → x.0 ≡ return none
      → (answer x).0 ≡ none
  answer_accepted (next r, t) h = cc (h)
  answer_accepted (return r, t) h = ap of_return h
    where
      of_return : Step (Option GoError) (Option GoError) → Option GoError
      of_return (next r) = r
      of_return (return r) = r

  -- A transfer succeeds if the file can be read, a sidecar of the target node is listed with an
  -- address, and it takes the request.
  pub transfer_checkpoint_succeeds :
      (src : String) (s : K.State) → (transfer_checkpoint K H src target s).0 ≡ none
  unfolding transfer_checkpoint
  transfer_checkpoint_succeeds src s =
      rw (D.opens, transfer_checkpoint)
        (answer_accepted _ (send_file_accepted (D.handle src s) src _))
