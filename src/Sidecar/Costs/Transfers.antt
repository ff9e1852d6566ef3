-- ===== src/Sidecar/Costs/Transfers.antt =====
-- The cost of a transfer: at most three requests, and the pauses before the second and the third.
use pod_checkpoint_controlle.Prelude.{
  ℕ, zero, suc, ◌+◌, ◌*◌, ◌^◌, String, Option, some, Bool-cases, inl, inr, arith, eqb,
  if◌then◌else◌,
}
use pod_checkpoint_controlle.Go.Errors.{GoError, Result, ok, err, seconds, Result-cases}
use pod_checkpoint_controlle.Go.Flow.{Flow, call}
use pod_checkpoint_controlle.Go.Costs.{
  cost_rules, Measure, Costs, Costs-call, Costs-exit, Costs-proceed, answer-within, Costs-first,
  Costs-bind,
}
use pod_checkpoint_controlle.Kube.Client.{Kube}
use pod_checkpoint_controlle.Sidecar.Host.{HttpRequest, HttpResponse, Host}
use pod_checkpoint_controlle.Sidecar.Transfer.{
  fill_form, form_request, retry_request, health_check, take_reply, attempt_request, upload,
  upload_client, send_form, send_to, send_file, transfer_checkpoint,
}
use pod_checkpoint_controlle.Sidecar.Costs.{Priced}

-- The pause before an attempt, and what the rounds that are left may cost.
abbrev pub pause_before : ℕ → ℕ
pause_before attempt = if eqb attempt 0 then 0 else seconds (2 ^ attempt)

abbrev pub budget : ℕ → ℕ → ℕ → ℕ → ℕ
budget c w zero attempt = 0
budget c w (suc rounds) attempt = w * pause_before attempt + (c + budget c w rounds (attempt + 1))

module _ {S : Type 0} (M : Measure S) (H : Host S) {c w : ℕ} (P : Priced M H c w) where
  open M use {within, relax, chain, rest}

  abbrev Free : {A : Type 0} → Flow (Option GoError) S A → Type 0
  Free m = Costs M 0 m

  fill_form-Costs : (file : ℕ) (src : String) → Free (fill_form H file src)
  unfolding fill_form
  fill_form-Costs file src =
      search (cost_rules, P.new_writer, P.create_form_file, P.copy_into_form) depth 20

  form_request-Costs : (url : String) (writer : ℕ) → Free (form_request H url writer)
  unfolding form_request
  form_request-Costs url writer = search (cost_rules, P.form_of)

  retry_request-Costs :
      (file : ℕ) (src url : String) (attempt : ℕ)
      → Costs M (w * seconds (2 ^ attempt)) (retry_request H file src url attempt)
  unfolding retry_request
  retry_request-Costs file src url attempt =
      search
        (
          Costs-first, cost_rules, P.sleep, P.seek_start, fill_form-Costs, P.close_writer,
          form_request-Costs,
        )
        depth 20

  attempt_request-Costs :
      (file : ℕ) (src url : String) (attempt : ℕ) (first : HttpRequest)
      → Costs M (w * pause_before attempt) (attempt_request H file src url attempt first)
  unfolding attempt_request
  attempt_request-Costs file src url attempt first = elim (Bool-cases (eqb attempt 0)) [
    | inl e ↦ rw e (Costs-proceed M first)
    | inr e ↦ rw e (retry_request-Costs file src url attempt)
  ]

  health_check-Costs : (ip port : String) → Free {A = Unit {0}} (health_check H ip port)
  unfolding health_check
  health_check-Costs ip port = search (cost_rules, P.http_get)

  take_reply-Costs :
      {n : ℕ} (ip port : String) (reply : Result HttpResponse)
      (rest : Option GoError → Flow (Option GoError) S (Option GoError))
      → ((e : Option GoError) → Costs M n (rest e))
      → Costs M n (take_reply H ip port reply rest)
  unfolding take_reply
  take_reply-Costs ip port (err e) rest k = k (some e)
  take_reply-Costs ip port (ok resp) rest k =
      search (cost_rules, P.read_body, health_check-Costs, k) depth 12

  module _ (file : ℕ) (src ip port url : String) where
    upload-Costs :
        (rounds attempt : ℕ) (last_err : Option GoError) (first : HttpRequest)
        → Costs M
            (budget c w rounds attempt)
            (upload H file src ip port url rounds attempt last_err first)
    unfolding upload
    upload-Costs zero attempt last_err first = Costs-exit M _
    upload-Costs (suc rounds) attempt last_err first =
        Costs-bind M (attempt_request H file src url attempt first) _
          (attempt_request-Costs file src url attempt first)
          (λ req.
            Costs-bind M (call (H.send upload_client (some req))) _
              (Costs-call M (H.send upload_client (some req)) (P.send upload_client (some req)))
              (λ reply.
                take_reply-Costs ip port reply _ (λ e. upload-Costs rounds (attempt + 1) e first)))

module _ (K : Kube) (M : Measure K.State) (H : Host K.State) {c w : ℕ} (P : Priced M H c w)
    (list_pods : (label value : String) (s : K.State)
      → M.within 0 s (K.list_pods label value s).1) where
  send_form-Costs :
      (file : ℕ) (src ip : String) → Costs M (budget c w 3 0) (send_form K H file src ip)
  unfolding send_form
  send_form-Costs file src ip =
      search
        (
          cost_rules,
          fill_form-Costs M H P,
          P.close_writer,
          P.getenv,
          form_request-Costs M H P,
          upload-Costs M H P,
        )
        depth 20

  send_to-Costs :
      (file : ℕ) (src target ip : String)
      → Costs M (budget c w 3 0) (send_to K H file src target ip)
  unfolding send_to
  send_to-Costs file src target ip = search (cost_rules, send_form-Costs)

  send_file-Costs :
      (file : ℕ) (src target : String) → Costs M (budget c w 3 0) (send_file K H file src target)
  unfolding send_file
  send_file-Costs file src target =
      search (cost_rules, P.stat_size, list_pods, send_to-Costs) depth 20

  -- A transfer costs at most three requests and the pauses between them.
  pub transfer_checkpoint-within :
      (src target : String) (s : K.State)
      → M.within (budget c w 3 0) s (transfer_checkpoint K H src target s).1
  unfolding transfer_checkpoint
  transfer_checkpoint-within src target s = elim (Result-cases (H.open_file src s).0) [
    | inl (e, q) ↦ rw (q, transfer_checkpoint) (M.relax (omega arith) (P.open_file src s))
    | inr (file, q) ↦
        rw (q, transfer_checkpoint)
          (M.relax (omega arith) (
            M.chain {m = 0} {n = budget c w 3 0 + 0} (P.open_file src s) (
              M.chain (answer-within M _ (send_file-Costs file src target) _)
                (P.close_file file _))))
  ]
