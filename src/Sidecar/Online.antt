-- ===== src/Sidecar/Online.antt =====
-- A node in a cluster in memory, which shows that a checkpoint and its transfer can succeed and that
-- requests and pauses can be counted, and runs the examples.
use pod_checkpoint_controlle.Prelude.{
  ℕ, suc, ◌+◌, String, ◌==◌, ◌≡◌, refl, sym, subst, false, List, [], ◌∷◌, arith,
}
use pod_checkpoint_controlle.Go.Errors.{ok}
use pod_checkpoint_controlle.Api.Meta.{Pod}
use pod_checkpoint_controlle.Kube.Memory.{Memory, cluster, cluster-Serves}
use pod_checkpoint_controlle.Sidecar.Host.{Host}
use pod_checkpoint_controlle.Sidecar.Kubelet.Polls.{Polls, BacksOff}
use pod_checkpoint_controlle.Sidecar.Offline.{offline_host, tries, tries-Polls, pauses}
use pod_checkpoint_controlle.Sidecar.Transfer.{target_ip}
use pod_checkpoint_controlle.Sidecar.Bounds.{IsCounted}
use pod_checkpoint_controlle.Sidecar.Steps.{IsWorking}

-- Every request is answered with a status code, and a kubelet's answer lists one file.
abbrev pub online_host : ℕ → Host Memory
online_host code = record (offline_host Memory) {
  sleep = λ d s. record s { slept = s.slept + d };
  send = λ client request s. (
    ok (record { status_code = code; status = "answered"; body = "" }),
    record s { sent = s.sent + 1 },
  );
  unmarshal_items = λ text. ok ("web.tar" ∷ []);
}

abbrev pub online_host-BacksOff : (code : ℕ) → BacksOff (online_host code)
online_host-BacksOff code = record {
  pause = λ s. s;
  polls = λ b f c s {n} e.
      subst (λ k. Polls (λ x. x) f (suc n) (c, s) (tries f (pauses k) (c, s))) (sym e)
        (tries-Polls f n (c, s));
}

abbrev pub online_host-IsCounted :
    (code : ℕ) (pods : List Pod)
    → IsCounted (cluster pods) (online_host code) (λ s. s.sent) (λ s. s.slept)
online_host-IsCounted code pods = record {
  requests = record {
    getenv = λ _ s. omega arith;
    sleep = λ d s. omega arith;
    open_file = λ _ s. omega arith;
    stat_size = λ _ s. omega arith;
    seek_start = λ _ s. omega arith;
    close_file = λ _ s. omega arith;
    read_file = λ _ s. omega arith;
    new_writer = λ s. omega arith;
    create_form_file = λ _ _ _ s. omega arith;
    copy_into_form = λ _ _ s. omega arith;
    close_writer = λ _ s. omega arith;
    form_of = λ _ s. omega arith;
    send = λ _ _ s. omega arith;
    http_get = λ _ s. omega arith;
    read_body = λ _ s. omega arith;
    load_key_pair = λ _ _ s. omega arith;
  };
  pauses = record {
    getenv = λ _ s. omega arith;
    sleep = λ d s. omega arith;
    open_file = λ _ s. omega arith;
    stat_size = λ _ s. omega arith;
    seek_start = λ _ s. omega arith;
    close_file = λ _ s. omega arith;
    read_file = λ _ s. omega arith;
    new_writer = λ s. omega arith;
    create_form_file = λ _ _ _ s. omega arith;
    copy_into_form = λ _ _ s. omega arith;
    close_writer = λ _ s. omega arith;
    form_of = λ _ s. omega arith;
    send = λ _ _ s. omega arith;
    http_get = λ _ s. omega arith;
    read_body = λ _ s. omega arith;
    load_key_pair = λ _ _ s. omega arith;
  };
  list_requests = λ _ _ s. omega arith;
  list_pauses = λ _ _ s. omega arith;
}

abbrev pub online_host-IsWorking :
    (pods : List Pod) (target : String)
    → (target_ip target pods == "") ≡ false
    → IsWorking
        (cluster pods)
        (cluster-Serves pods)
        (online_host 201)
        (online_host-BacksOff 201)
        target
        "web.tar"
        []
unfolding cluster-Serves
online_host-IsWorking pods target addressed = record {
  apart = record {
    getenv = λ _ s. refl;
    sleep = λ d s. refl;
    open_file = λ _ s. refl;
    stat_size = λ _ s. refl;
    seek_start = λ _ s. refl;
    close_file = λ _ s. refl;
    read_file = λ _ s. refl;
    new_writer = λ s. refl;
    create_form_file = λ _ _ _ s. refl;
    copy_into_form = λ _ _ s. refl;
    close_writer = λ _ s. refl;
    form_of = λ _ s. refl;
    send = λ _ _ s. refl;
    http_get = λ _ s. refl;
    read_body = λ _ s. refl;
    load_key_pair = λ _ _ s. refl;
  };
  pauses = λ s. refl;
  lists = λ _ _ s. refl;
  checkpoints = record {
    pair = λ _ _ _. "pair";
    pairs = λ _ _ _. refl;
    reply = λ _ _ _. record { status_code = 201; status = "answered"; body = "" };
    replies = λ _ _ _. refl;
    succeeds = λ _ _ _. refl;
    lists = λ _ _. refl;
  };
  delivers = record {
    handle = λ _ _. 1;
    opens = λ _ _. refl;
    size = λ _ _. 10;
    stats = λ _ _. refl;
    forms = λ _ _ _ _. refl;
    copies = λ _ _ _. refl;
    closes = λ _ _. refl;
    request =
        λ method url form. record { method = method; url = url; body = ""; content_type = "" };
    requests = λ _ _ _. refl;
    sidecars = pods;
    lists = λ _. refl;
    addressed = addressed;
    reply = λ _ _. record { status_code = 201; status = "answered"; body = "" };
    replies = λ _ _. refl;
    accepts = λ _ _. refl;
  };
}
