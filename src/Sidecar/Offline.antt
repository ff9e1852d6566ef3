-- ===== src/Sidecar/Offline.antt =====
-- A node without a network: files can be opened and written, and no request is answered. It shows
-- that the backoff of apimachinery can be as it is documented, and runs the examples.
use pod_checkpoint_controlle.Prelude.{
  ℕ, zero, suc, ◌<>◌, ◌≡◌, refl, sym, subst, Bool, true, false, Option, none, some, [],
}
use pod_checkpoint_controlle.Go.Errors.{GoError, errorf, ok, err}
use pod_checkpoint_controlle.Sidecar.Host.{Host}
use pod_checkpoint_controlle.Sidecar.Kubelet.Polls.{
  Polls, done, stopped, again, timed_out, BacksOff,
}

module _ {X : Type 0} where
  abbrev after_poll : (Bool × Option GoError) × X → Option GoError × X → Option GoError × X
  after_poll ((b, some e), t) rest = (some e, t)
  after_poll ((true, none), t) rest = (none, t)
  after_poll ((false, none), t) rest = rest

  module _ (f : X → (Bool × Option GoError) × X) where
    -- The condition at `n + 1` tries.
    unfoldable pub tries : ℕ → X → Option GoError × X
    tries zero x = after_poll (f x) (some (errorf "timed out waiting for the condition"), (f x).1)
    tries (suc n) x = let rest = tries n (f x).1 in after_poll (f x) rest

    last_try :
        (x : X) (q : (Bool × Option GoError) × X)
        → f x ≡ q
        → Polls
            (λ t. t)
            f
            1
            x
            (after_poll q (some (errorf "timed out waiting for the condition"), q.1))
    last_try x ((b, some e), t) h = stopped h
    last_try x ((true, none), t) h = done h
    last_try x ((false, none), t) h = timed_out h

    one_try :
        (n : ℕ) (x : X) (q : (Bool × Option GoError) × X) (rest : Option GoError × X)
        → f x ≡ q
        → Polls (λ t. t) f (suc n) q.1 rest
        → Polls (λ t. t) f (suc (suc n)) x (after_poll q rest)
    one_try n x ((b, some e), t) rest h p = stopped h
    one_try n x ((true, none), t) rest h p = done h
    one_try n x ((false, none), t) rest h p = again h p

    pub tries-Polls : (n : ℕ) (x : X) → Polls (λ t. t) f (suc n) x (tries n x)
    unfolding tries
    tries-Polls zero x = last_try x (f x) refl
    tries-Polls (suc n) x = one_try n x (f x) (tries n (f x).1) refl (tries-Polls n (f x).1)

-- One pause fewer than there are tries.
abbrev pub pauses : ℕ → ℕ
pauses zero = zero
pauses (suc n) = n

module _ (S : Type 0) where
  abbrev unreachable : GoError
  unreachable = errorf "connection refused"

  abbrev pub offline_host : Host S
  offline_host = record {
    getenv = λ name s. ("", s);
    sleep = λ d s. s;
    join = λ dir name. dir <> "/" <> name;
    base = λ path. path;
    glob = λ pattern s. (ok [], s);
    remove = λ path s. (none, s);
    open_file = λ path s. (ok 1, s);
    stat_size = λ file s. (ok 10, s);
    seek_start = λ file s. (none, s);
    close_file = λ file s. s;
    mkdir_all = λ path s. (none, s);
    create_file = λ path s. (ok 2, s);
    copy_file = λ from to s. (ok 10, s);
    read_file = λ path s. ("", s);
    new_writer = λ s. (3, s);
    create_form_file = λ writer field name s. (none, s);
    copy_into_form = λ writer file s. (none, s);
    close_writer = λ writer s. (none, s);
    form_of = λ writer s. (record { body = "bytes"; content_type = "multipart/form-data" }, s);
    new_request =
        λ method url form. ok (record { method = method; url = url; body = ""; content_type = "" });
    send = λ client request s. (err unreachable, s);
    http_get = λ url s. (err unreachable, s);
    parse_multipart_form = λ request size s. (none, s);
    form_file = λ request field s. (err unreachable, s);
    listen_and_serve = λ address s. (none, s);
    shutdown = λ s. (none, s);
    read_body = λ response s. ("", s);
    load_key_pair = λ cert key s. (ok "pair", s);
    pool_of_pem = λ pem. pem;
    unmarshal_items = λ text. ok [];
    exponential_backoff = λ b f x. tries f (pauses b.steps) x;
    in_cluster_config = λ s. (none, s);
    new_clientset = λ s. (none, s);
  }

  -- Its backoff tries the condition as often as it is told, and then times out.
  pub offline_host-BacksOff : BacksOff offline_host
  offline_host-BacksOff = record {
    pause = λ s. s;
    polls = λ b f c s {n} e.
        subst (λ k. Polls (λ x. x) f (suc n) (c, s) (tries f (pauses k) (c, s))) (sym e)
          (tries-Polls f n (c, s));
  }
