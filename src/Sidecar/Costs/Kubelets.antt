-- ===== src/Sidecar/Costs/Kubelets.antt =====
-- The cost of a checkpoint: at most five requests to the kubelet.
use pod_checkpoint_controlle.Prelude.{
  ℕ, zero, suc, ◌+◌, ◌≡◌, refl, subst, String, Bool, Option, none, some, [], arith, Bool-cases, inl,
  inr,
}
use pod_checkpoint_controlle.Go.Errors.{GoError, Result, ok, err, Result-cases}
use pod_checkpoint_controlle.Go.Costs.{Measure}
use pod_checkpoint_controlle.Sidecar.Host.{HttpClient, HttpResponse, Captured, Host}
use pod_checkpoint_controlle.Sidecar.Kubelet.{
  checkpoint_backoff, checkpoint_cert_file, checkpoint_key_file, checkpoint_ca_file, checkpoint_url,
  is_success, request_of, make_tls_client, take_reply, poll, do_checkpoint_with_backoff,
  create_checkpoint,
}
use pod_checkpoint_controlle.Sidecar.Kubelet.Polls.{
  Polls, done, stopped, again, timed_out, BacksOff, report, report_lem,
}
use pod_checkpoint_controlle.Sidecar.Costs.{Priced}

-- The price of at most `n` tries.
abbrev pub tries_cost : ℕ → ℕ → ℕ
tries_cost c zero = 0
tries_cost c (suc n) = c + tries_cost c n

module _ {S : Type 0} (M : Measure S) (H : Host S) {c w : ℕ} (P : Priced M H c w) (B : BacksOff H)
    (pause : (s : S) → M.within 0 s (B.pause s)) where
  take_reply-within :
      (r : Result HttpResponse × S) (v : Captured) → M.within 0 r.1 (take_reply H r v).1.1
  unfolding take_reply
  take_reply-within (err e, s) v = M.rest s
  take_reply-within (ok resp, s) v = elim (Bool-cases (is_success resp.status_code)) [
    | inl good ↦ rw good (P.read_body resp s)
    | inr bad ↦ rw bad (P.read_body resp s)
  ]

  report-state : (x : Option GoError × (Captured × S)) → (report H x).1 ≡ x.1.1
  report-state (none, x) = refl
  report-state (some _, x) = refl

  module _ (client : HttpClient) (url : String) where
    poll-within : (x : Captured × S) → M.within c x.1 (poll H client url x).1.1
    unfolding poll
    poll-within (v, s) =
        let request = request_of (H.new_request "POST" url none) in
        M.relax (omega arith)
          (M.chain (P.send client request s) (take_reply-within (H.send client request s) v))

    abbrev Bounded : ℕ → Captured × S → Option GoError × (Captured × S) → Type 0
    Bounded n x r = M.within (tries_cost c n) x.1 r.1.1

    -- A try that ends in `t`.
    one_try :
        (x : Captured × S) {t : Captured × S} {a : Bool × Option GoError}
        → poll H client url x ≡ (a, t)
        → M.within c x.1 t.1
    one_try x e = subst (λ q. M.within c x.1 q.1.1) e (poll-within x)

    Polls-Bounded :
        {n : ℕ} {x : Captured × S} {r : Option GoError × (Captured × S)}
        → Polls (λ (v, s). (v, B.pause s)) (poll H client url) n x r
        → Bounded n x r
    Polls-Bounded (done {s = x} e) = M.relax (omega arith) (one_try x e)
    Polls-Bounded (stopped {s = x} e) = M.relax (omega arith) (one_try x e)
    Polls-Bounded (again {s = x} {t = t} e p) =
        M.chain (one_try x e) (M.relax (omega arith) (M.chain (pause t.1) (Polls-Bounded p)))
    Polls-Bounded (timed_out {s = x} e) = M.relax (omega arith) (one_try x e)

    do_checkpoint_with_backoff-within :
        (s : S) → M.within (tries_cost c 5) s (do_checkpoint_with_backoff H client url s).1
    do_checkpoint_with_backoff-within s =
        let start : Captured = record { out_files = []; last_err = none } in
        let over = H.exponential_backoff checkpoint_backoff (poll H client url) (start, s) in
        rw (report_lem H client url s, report-state over)
          (Polls-Bounded (B.polls checkpoint_backoff (poll H client url) start s refl))

  make_tls_client-within :
      (cert key ca : String) (s : S) → M.within 0 s (make_tls_client H cert key ca s).1
  unfolding make_tls_client
  make_tls_client-within cert key ca s = elim (Result-cases (H.load_key_pair cert key s).0) [
    | inl (e, q) ↦ rw (q, make_tls_client) (P.load_key_pair cert key s)
    | inr (pair, q) ↦
        rw (q, make_tls_client) (M.chain (P.load_key_pair cert key s) (P.read_file ca _))
  ]

  -- A checkpoint asks the kubelet at most five times.
  pub create_checkpoint-within :
      (node namespace pod container : String) (s : S)
      → M.within (tries_cost c 5) s (create_checkpoint H node namespace pod container s).1
  unfolding create_checkpoint
  create_checkpoint-within node namespace pod container s =
      let client =
        make_tls_client H checkpoint_cert_file checkpoint_key_file checkpoint_ca_file s in
      let made =
        make_tls_client-within checkpoint_cert_file checkpoint_key_file checkpoint_ca_file s in
      elim (Result-cases client.0) [
        | inl (e, q) ↦ rw (q, create_checkpoint) (M.relax (omega arith) made)
        | inr (tls, q) ↦
            rw (q, create_checkpoint)
              (M.relax (omega arith) (
                M.chain {m = 0} {n = tries_cost c 5} made (
                  do_checkpoint_with_backoff-within tls
                    (checkpoint_url node namespace pod container) _)))
      ]
