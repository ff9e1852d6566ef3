-- ===== src/Sidecar/Transfer/Failures.antt =====
-- When a transfer fails: without a sidecar to send to, and when every attempt is refused.
use pod_checkpoint_controlle.Prelude.{
  ℕ, zero, suc, ◌+◌, String, ◌==◌, ◌≡◌, ◌≢◌, ◌⊎◌, inl, inr, refl, false, Option, none, some, List,
  arith, Bool-cases,
}
use pod_checkpoint_controlle.Go.Errors.{GoError, Result, ok, err, Result-cases}
use pod_checkpoint_controlle.Go.Flow.{
  Step, exit, next, return, then_step, unless_nil, or_else, answer,
}
use pod_checkpoint_controlle.Api.Meta.{Pod}
use pod_checkpoint_controlle.Kube.Client.{Kube}
use pod_checkpoint_controlle.Sidecar.Host.{HttpRequest, HttpResponse, Host}
use pod_checkpoint_controlle.Sidecar.Transfer.Target.{FirstSidecar, target_ip-none}
use pod_checkpoint_controlle.Sidecar.Transfer.{
  Sending, fail_with, fill_form, form_request, attempt_request, take_reply, target_ip,
  upload_client, accepted, upload, send_form, send_to, send_file, transfer_checkpoint,
}

-- A reply that the loop does not take for success.
abbrev pub IsRefusal : Result HttpResponse → Type 0
IsRefusal (err e) = Unit {0}
IsRefusal (ok resp) = (resp.status_code ≢ 200) × (resp.status_code ≢ 201)

IsRefusal-accepted : (resp : HttpResponse) → IsRefusal (ok resp) → accepted resp.status_code ≡ false
IsRefusal-accepted resp (not_ok, not_created) = ground (arith, not_ok, not_created)

-- A chain of steps has an error if its first step cannot return nil and its rest has one.
then_refused :
    {S A : Type 0} (x : Step (Option GoError) A) (f : A → Sending S (Option GoError)) (s : S)
    → x ≢ return none
    → ((a : A) (t : S) → (answer (f a t)).0 ≢ none)
    → (answer (then_step x f s)).0 ≢ none
then_refused (next a) f s h k = k a s
then_refused (return none) f s h k = absurd (h refl)
then_refused (return (some e)) f s h k = λ p. cc (p)

module _ {S : Type 0} (H : Host S) where
  fill_form-ne_return : (file : ℕ) (src : String) (s : S) → (fill_form H file src s).0 ≢ return none
  unfolding fill_form fail_with
  fill_form-ne_return file src s = ground arith

  form_request-ne_return :
      (url : String) (writer : ℕ) (s : S) → (form_request H url writer s).0 ≢ return none
  unfolding form_request fail_with
  form_request-ne_return url writer s = ground arith

  attempt_request-ne_return :
      (file : ℕ) (src url : String) (attempt : ℕ) (first : HttpRequest) (s : S)
      → (attempt_request H file src url attempt first s).0 ≢ return none
  unfolding attempt_request
  attempt_request-ne_return file src url attempt first s = ground arith

  module _ (ip port : String) where
    take_reply_refused :
        (reply : Result HttpResponse) (rest : Option GoError → Sending S (Option GoError)) (s : S)
        → IsRefusal reply
        → ((e : Option GoError) (t : S) → (answer (rest e t)).0 ≢ none)
        → (answer (take_reply H ip port reply rest s)).0 ≢ none
    unfolding take_reply
    take_reply_refused (err e) rest s h k = k (some e) s
    take_reply_refused (ok resp) rest s h k = rw (IsRefusal-accepted resp h) (k _ _)

  module _ (file : ℕ) (src ip port url : String)
      (refuses : (r : HttpRequest) (t : S) → IsRefusal (H.send upload_client (some r) t).0) where
    upload_refused :
        (rounds attempt : ℕ) (last_err : Option GoError) (first : HttpRequest) (s : S)
        → (answer (upload H file src ip port url rounds attempt last_err first s)).0 ≢ none
    unfolding upload
    upload_refused zero attempt none first s = λ e. cc (e)
    upload_refused zero attempt (some x) first s = λ e. cc (e)
    upload_refused (suc rounds) attempt last_err first s =
        then_refused (attempt_request H file src url attempt first s).0 _ _
          (attempt_request-ne_return file src url attempt first s)
          (λ req t.
            take_reply_refused ip port _
              (λ e. upload H file src ip port url rounds (attempt + 1) e first) _ (refuses req t)
              (λ e u. upload_refused rounds (attempt + 1) e first u))

close_ne_return :
    {S : Type 0} (e : Option GoError) (s : S)
    → (unless_nil {R = Option GoError} {S = S} e (λ x. exit (some x)) s).0 ≢ return none
close_ne_return none s = λ p. cc (p)
close_ne_return (some e) s = λ p. cc (p)

module _ (K : Kube) (H : Host K.State) where
  send_form_refused :
      ((r : HttpRequest) (t : K.State) → IsRefusal (H.send upload_client (some r) t).0)
      → (file : ℕ) (src ip : String) (s : K.State) → (answer (send_form K H file src ip s)).0 ≢ none
  unfolding send_form
  send_form_refused refuses file src ip s =
      then_refused (fill_form H file src s).0 _ _ (fill_form-ne_return H file src s) (λ writer t.
        then_refused
          (unless_nil {R = Option GoError} (H.close_writer writer t).0 (λ x. exit (some x)) _).0 _ _
          (close_ne_return (H.close_writer writer t).0 _)
          (λ _ u.
            then_refused (form_request H _ writer _).0 _ _ (form_request-ne_return H _ writer _)
              (λ first v. upload_refused H file src ip _ _ refuses 3 0 none first v)))

  send_to_fails :
      (file : ℕ) (src target ip : String) (s : K.State)
      → (ip ≡ "")
        ⊎ ((r : HttpRequest) (t : K.State) → IsRefusal (H.send upload_client (some r) t).0)
      → (answer (send_to K H file src target ip s)).0 ≢ none
  unfolding send_to
  send_to_fails file src target ip s (inl e) = rw e (λ p. cc (p))
  send_to_fails file src target ip s (inr refuses) = elim (Bool-cases (ip == "")) [
    | inl bare ↦ rw bare (λ p. cc (p))
    | inr addressed ↦ rw addressed (send_form_refused refuses file src ip s)
  ]

  -- Why a transfer to a node fails: there is no sidecar to send to, or it refuses.
  abbrev pub Unreachable : String → Type 0
  Unreachable target =
      ((pods : List Pod) (t : K.State)
        → (K.list_pods "app" "container-checkpoint-sidecar" t).0 ≡ ok pods
        → target_ip target pods ≡ "")
      ⊎ ((r : HttpRequest) (t : K.State) → IsRefusal (H.send upload_client (some r) t).0)

  listed_fails :
      (file : ℕ) (src target : String) (t : K.State)
      → Unreachable target
      → (listed : Result (List Pod))
      → (K.list_pods "app" "container-checkpoint-sidecar" t).0 ≡ listed
      → (u : K.State)
      → (answer (
          then_step
            (or_else {R = Option GoError} listed (fail_with "failed to list sidecar pods") u).0
            (λ pods. send_to K H file src target (target_ip target pods))
            (or_else {R = Option GoError} listed (fail_with "failed to list sidecar pods") u).1)).0
        ≢ none
  unfolding fail_with
  listed_fails file src target t h (err e) q u = λ p. cc (p)
  listed_fails file src target t (inl none_runs) (ok pods) q u =
      send_to_fails file src target _ u (inl (none_runs pods t q))
  listed_fails file src target t (inr refuses) (ok pods) q u =
      send_to_fails file src target _ u (inr refuses)

  stat_ne_return :
      {A : Type 0} (r : Result A) (text : String) (s : K.State)
      → (or_else {R = Option GoError} r (fail_with text) s).0 ≢ return none
  unfolding fail_with
  stat_ne_return (ok a) text s = λ p. cc (p)
  stat_ne_return (err e) text s = λ p. cc (p)

  send_file_fails :
      (file : ℕ) (src target : String) (s : K.State)
      → Unreachable target
      → (answer (send_file K H file src target s)).0 ≢ none
  unfolding send_file
  send_file_fails file src target s h =
      then_refused
        (or_else {R = Option GoError} (H.stat_size file s).0 (fail_with "failed to get file info")
          _).0
        _ _ (stat_ne_return (H.stat_size file s).0 "failed to get file info" _)
        (λ size t. listed_fails file src target t h _ refl _)

  unserved :
      (target : String)
      → ((pods : List Pod) (t : K.State)
          → (K.list_pods "app" "container-checkpoint-sidecar" t).0 ≡ ok pods
          → (p : Pod) → FirstSidecar target pods p
          → p.status.pod_ip ≡ "")
        ⊎ ((r : HttpRequest) (t : K.State) → IsRefusal (H.send upload_client (some r) t).0)
      → Unreachable target
  unserved target (inl h) = inl (λ pods t q. target_ip-none target pods (h pods t q))
  unserved target (inr h) = inr h

  -- A transfer reports an error if the first listed pod that is running on the target node has no
  -- address or there is none, or if every request is answered by an error or by a status other
  -- than 200 and 201.
  pub transfer_checkpoint_fails :
      (src target : String)
      → ((pods : List Pod) (t : K.State)
          → (K.list_pods "app" "container-checkpoint-sidecar" t).0 ≡ ok pods
          → (p : Pod) → FirstSidecar target pods p
          → p.status.pod_ip ≡ "")
        ⊎ ((r : HttpRequest) (t : K.State) → IsRefusal (H.send upload_client (some r) t).0)
      → (s : K.State) → (transfer_checkpoint K H src target s).0 ≢ none
  unfolding transfer_checkpoint
  transfer_checkpoint_fails src target h s = elim (Result-cases (H.open_file src s).0) [
    | inl (e, q) ↦ rw (q, transfer_checkpoint) (λ p. cc (p))
    | inr (file, q) ↦
        rw (q, transfer_checkpoint) (send_file_fails file src target _ (unserved target h))
  ]
