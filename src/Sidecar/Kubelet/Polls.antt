-- ===== src/Sidecar/Kubelet/Polls.antt =====
-- `ExponentialBackoff` as apimachinery documents it, and what `doCheckpointWithBackoff` makes of it.
use pod_checkpoint_controlle.Prelude.{
  ℕ, suc, String, ◌≡◌, refl, subst, Bool-cases, ◌⊎◌, inl, inr, Bool, true, false, Option, none,
  some, List, [], ◌∷◌, arith,
}
use pod_checkpoint_controlle.Go.Errors.{GoError, Result, ok, err, Result-cases}
use pod_checkpoint_controlle.Sidecar.Host.{HttpClient, HttpResponse, Captured, Backoff, Host}
use pod_checkpoint_controlle.Sidecar.Kubelet.{
  is_success, checkpoint_cert_file, checkpoint_key_file, create_checkpoint, make_tls_client,
  request_of, checkpoint_backoff, take_items, take_reply, poll, do_checkpoint_with_backoff,
}

-- The runs of a condition, tried at most `n` times with a pause between two tries: it is done when
-- the condition says so, an error of the condition ends it, and else it times out.
pub data Polls {S : Type 0} (pause : S → S) (f : S → (Bool × Option GoError) × S)
    : ℕ → S → Option GoError × S → Type 0 where
  done : {n : ℕ} {s t : S} → f s ≡ ((true, none), t) → Polls pause f (suc n) s (none, t)
  stopped :
      {n : ℕ} {s t : S} {b : Bool} {e : GoError}
      → f s ≡ ((b, some e), t)
      → Polls pause f (suc n) s (some e, t)
  again :
      {n : ℕ} {s t : S} {r : Option GoError × S}
      → f s ≡ ((false, none), t)
      → Polls pause f (suc n) (pause t) r
      → Polls pause f (suc (suc n)) s r
  timed_out : {s t : S} {e : GoError} → f s ≡ ((false, none), t) → Polls pause f 1 s (some e, t)

-- `ExponentialBackoff` runs its condition so, and its pauses leave the program's variables alone.
pub record BacksOff {S : Type 0} (H : Host S) : Type 0 where
  pub pause : S → S
  pub polls :
      (b : Backoff) (f : Captured × S → (Bool × Option GoError) × (Captured × S)) (c : Captured)
      (s : S) {n : ℕ}
      → b.steps ≡ suc n
      → Polls (λ (c', s'). (c', pause s')) f (suc n) (c, s) (H.exponential_backoff b f (c, s))

-- What the closure's variables are after a try that gives an answer.
abbrev IsTaken : (Bool × Option GoError) × Captured → Type 0
IsTaken ((true, e), c) = (e ≡ none) × (f : String) × (fs : List String) × (c.out_files ≡ f ∷ fs)
IsTaken ((false, e), c) = (e ≡ none) × (x : GoError) × (c.last_err ≡ some x)

not_stopped : (b : Bool) (e : GoError) (c : Captured) → IsTaken ((b, some e), c) → ⊥
not_stopped true e c h = cc (h.0)
not_stopped false e c h = cc (h.0)

take_items-IsTaken : (r : Result (List String)) (c : Captured) → IsTaken (take_items r c)
unfolding take_items
take_items-IsTaken (err e) c = (refl, _, refl)
take_items-IsTaken (ok []) c = (refl, _, refl)
take_items-IsTaken (ok (f ∷ fs)) c = (refl, f, fs, refl)

module _ {S : Type 0} (H : Host S) where
  abbrev without_state :
      (Bool × Option GoError) × (Captured × S) → (Bool × Option GoError) × Captured
  without_state (a, (c, s)) = (a, c)

  take_reply-IsTaken :
      (r : Result HttpResponse × S) (c : Captured) → IsTaken (without_state (take_reply H r c))
  unfolding take_reply
  take_reply-IsTaken (err e, s) c = (refl, e, refl)
  take_reply-IsTaken (ok resp, s) c = elim (Bool-cases (is_success resp.status_code)) [
    | inl good ↦ rw good (take_items-IsTaken (H.unmarshal_items (H.read_body resp s).0) c)
    | inr bad ↦ rw bad (refl, _, refl)
  ]

  poll-IsTaken :
      (client : HttpClient) (url : String) (x : Captured × S)
      → IsTaken (without_state (poll H client url x))
  unfolding poll
  poll-IsTaken client url (c, s) =
      take_reply-IsTaken (H.send client (request_of (H.new_request "POST" url none)) s) c

  -- The variables when the backoff is over.
  abbrev Concluded : Option GoError × (Captured × S) → Type 0
  Concluded (none, x) = (f : String) × (fs : List String) × (x.0.out_files ≡ f ∷ fs)
  Concluded (some _, x) = (e : GoError) × (x.0.last_err ≡ some e)

  Polls-Concluded :
      (client : HttpClient) (url : String) (pause : S → S) {n : ℕ} {x : Captured × S}
      {r : Option GoError × (Captured × S)}
      → Polls (λ (c', s'). (c', pause s')) (poll H client url) n x r
      → Concluded r
  Polls-Concluded client url pause (done {s = x} e) =
      let (_, f, fs, q) = subst (λ q. IsTaken (without_state q)) e (poll-IsTaken client url x) in
      (f, fs, q)
  Polls-Concluded client url pause (stopped {s = x} {b = b} e) =
      absurd
        (not_stopped b _ _ (subst (λ q. IsTaken (without_state q)) e (poll-IsTaken client url x)))
  Polls-Concluded client url pause (again e p) = Polls-Concluded client url pause p
  Polls-Concluded client url pause (timed_out {s = x} e) =
      let (_, x', q) = subst (λ q. IsTaken (without_state q)) e (poll-IsTaken client url x) in
      (x', q)

  -- What the function returns when the backoff is over.
  abbrev pub report : Option GoError × (Captured × S) → (List String × Option GoError) × S
  report (none, (c, s)) = ((c.out_files, none), s)
  report (some _, (c, s)) = (([], c.last_err), s)

  Concluded-report :
      (x : Option GoError × (Captured × S))
      → Concluded x
      → (((report x).0.1 ≡ none) × (f : String) × (fs : List String) × ((report x).0.0 ≡ f ∷ fs))
        ⊎ (((report x).0.0 ≡ []) × (e : GoError) × ((report x).0.1 ≡ some e))
  Concluded-report (none, x) (f, fs, q) = inl (refl, f, fs, q)
  Concluded-report (some _, x) (e, q) = inr (refl, e, q)

  pub report_lem :
      (client : HttpClient) (url : String) (s : S)
      → do_checkpoint_with_backoff H client url s
        ≡ report (
            H.exponential_backoff checkpoint_backoff
              (poll H client url)
              (record { out_files = []; last_err = none }, s))
  unfolding do_checkpoint_with_backoff
  report_lem client url s = ground arith

  -- The kubelet's answer is files or an error, and never both or neither: with no error there is a
  -- file, and with an error there is none.
  do_checkpoint_with_backoff-exclusive :
      BacksOff H
      → (client : HttpClient) (url : String) (s : S)
      → let r = (do_checkpoint_with_backoff H client url s).0 in
        ((r.1 ≡ none) × (f : String) × (fs : List String) × (r.0 ≡ f ∷ fs))
        ⊎ ((r.0 ≡ []) × (e : GoError) × (r.1 ≡ some e))
  do_checkpoint_with_backoff-exclusive B client url s = rw (report_lem client url s) (
      Concluded-report _ (
        Polls-Concluded client url B.pause (
          B.polls checkpoint_backoff (poll H client url)
            (record { out_files = []; last_err = none }) s refl)))

  -- With a backoff as apimachinery documents it: `CreateCheckpoint` answers with files or with an
  -- error, and never with both or neither.
  pub create_checkpoint-exclusive :
      BacksOff H
      → (node namespace pod container : String) (s : S)
      → let r = (create_checkpoint H node namespace pod container s).0 in
        ((r.1 ≡ none) × (f : String) × (fs : List String) × (r.0 ≡ f ∷ fs))
        ⊎ ((r.0 ≡ []) × (e : GoError) × (r.1 ≡ some e))
  unfolding create_checkpoint make_tls_client
  create_checkpoint-exclusive B node namespace pod container s =
      elim (Result-cases (H.load_key_pair checkpoint_cert_file checkpoint_key_file s).0) [
        | inl (e, q) ↦ rw (q, create_checkpoint, make_tls_client) (inr (refl, _, refl))
        | inr (c, q) ↦
            rw (q, create_checkpoint, make_tls_client)
              (do_checkpoint_with_backoff-exclusive B _ _ _)
      ]
