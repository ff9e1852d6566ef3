-- ===== src/Sidecar/Kubelet/Success.antt =====
-- When a checkpoint succeeds: a kubelet that answers with files.
use pod_checkpoint_controlle.Prelude.{
  ℕ, String, ◌≡◌, refl, sym, ap, ◌∙◌, Bool, true, Option, none, some, List, [], ◌∷◌, arith,
}
use pod_checkpoint_controlle.Go.Errors.{GoError, ok}
use pod_checkpoint_controlle.Sidecar.Host.{HttpClient, HttpRequest, HttpResponse, Captured, Host}
use pod_checkpoint_controlle.Sidecar.Kubelet.{
  checkpoint_backoff, checkpoint_url, is_success, request_of, make_tls_client, take_items,
  take_reply, poll, do_checkpoint_with_backoff, create_checkpoint,
}
use pod_checkpoint_controlle.Sidecar.Kubelet.Polls.{
  Polls, done, stopped, again, timed_out, BacksOff, report, report_lem,
}

-- The certificate can be read, and the kubelet answers each request with success and the files.
pub record Checkpoints {S : Type 0} (H : Host S) (f : String) (fs : List String) : Type 0 where
  pub pair : String → String → S → String
  pub pairs : (cert key : String) (t : S) → (H.load_key_pair cert key t).0 ≡ ok (pair cert key t)
  pub reply : HttpClient → Option HttpRequest → S → HttpResponse
  pub replies :
      (client : HttpClient) (q : Option HttpRequest) (t : S)
      → (H.send client q t).0 ≡ ok (reply client q t)
  pub succeeds :
      (client : HttpClient) (q : Option HttpRequest) (t : S)
      → is_success (reply client q t).status_code ≡ true
  pub lists : (r : HttpResponse) (t : S) → H.unmarshal_items (H.read_body r t).0 ≡ ok (f ∷ fs)

module _ {S : Type 0} (H : Host S) (B : BacksOff H) (f : String) (fs : List String)
    (C : Checkpoints H f fs) where
  -- An answer of the backoff with the files.
  abbrev Holds : Option GoError × (Captured × S) → Type 0
  Holds r = (r.0 ≡ none) × (r.1.0.out_files ≡ f ∷ fs)

  module _ (client : HttpClient) (url : String) where
    abbrev Taken : (Bool × Option GoError) × (Captured × S) → Type 0
    Taken q = (q.0.0 ≡ true) × (q.0.1 ≡ none) × (q.1.0.out_files ≡ f ∷ fs)

    poll-Taken : (x : Captured × S) → Taken (poll H client url x)
    unfolding poll take_reply take_items
    poll-Taken (v, s) =
        let q = request_of (H.new_request "POST" url none) in
        ground (
          arith,
          C.replies client q s,
          C.succeeds client q s,
          C.lists (C.reply client q s) (H.send client q s).1,
        )

    Polls-Holds :
        {n : ℕ} {x : Captured × S} {r : Option GoError × (Captured × S)}
        → Polls (λ (v, s). (v, B.pause s)) (poll H client url) n x r
        → Holds r
    Polls-Holds (done {s = x} e) = (refl, ap (λ q. q.1.0.out_files) (sym e) ∙ (poll-Taken x).2)
    Polls-Holds (stopped {s = x} e) = absurd (cc (ap (λ q. q.0.1) e, (poll-Taken x).1))
    Polls-Holds (again {s = x} e p) = absurd (cc (ap (λ q. q.0.0) e, (poll-Taken x).0))
    Polls-Holds (timed_out {s = x} e) = absurd (cc (ap (λ q. q.0.0) e, (poll-Taken x).0))

    report-Holds : (r : Option GoError × (Captured × S)) → Holds r → (report H r).0 ≡ (f ∷ fs, none)
    report-Holds (none, (v, s)) (e, files) = cc (files)
    report-Holds (some x, (v, s)) (e, files) = absurd (cc (e))

    do_checkpoint_with_backoff_succeeds :
        (s : S) → (do_checkpoint_with_backoff H client url s).0 ≡ (f ∷ fs, none)
    do_checkpoint_with_backoff_succeeds s =
        let start : Captured = record { out_files = []; last_err = none } in
        rw (report_lem H client url s) (
          report-Holds _
            (Polls-Holds (B.polls checkpoint_backoff (poll H client url) start s refl)))

  -- A checkpoint succeeds with the kubelet's files.
  pub create_checkpoint_succeeds :
      (node namespace pod container : String) (s : S)
      → (create_checkpoint H node namespace pod container s).0 ≡ (f ∷ fs, none)
  unfolding create_checkpoint make_tls_client
  create_checkpoint_succeeds node namespace pod container s =
      rw (C.pairs, create_checkpoint, make_tls_client)
        (do_checkpoint_with_backoff_succeeds _ (checkpoint_url node namespace pod container) _)
