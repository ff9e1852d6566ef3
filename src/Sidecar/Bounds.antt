-- ===== src/Sidecar/Bounds.antt =====
-- How often the sidecar asks, and how long it waits.
use pod_checkpoint_controlle.Prelude.{ℕ, ◌+◌, ◌≤◌, String, arith}
use pod_checkpoint_controlle.Go.Errors.{seconds}
use pod_checkpoint_controlle.Go.Costs.{Measure}
use pod_checkpoint_controlle.Kube.Client.{Kube}
use pod_checkpoint_controlle.Sidecar.Host.{Host}
use pod_checkpoint_controlle.Sidecar.Kubelet.{create_checkpoint}
use pod_checkpoint_controlle.Sidecar.Kubelet.Polls.{BacksOff}
use pod_checkpoint_controlle.Sidecar.Transfer.{transfer_checkpoint}
use pod_checkpoint_controlle.Sidecar.Costs.{Priced}
use pod_checkpoint_controlle.Sidecar.Costs.Transfers.{transfer_checkpoint-within}
use pod_checkpoint_controlle.Sidecar.Costs.Kubelets.{create_checkpoint-within}

-- A counter in the state of the world, as a measure.
abbrev pub counting : {S : Type 0} → (S → ℕ) → Measure S
counting count = record {
  within = λ n s t. count t ≤ count s + n;
  rest = λ s. omega arith;
  chain = λ a b. omega (arith, a, b);
  relax = λ h k. omega (arith, h, k);
}

module _ (K : Kube) (H : Host K.State) where
  -- The requests sent and the nanoseconds slept so far are counted: a request adds one to the
  -- first, a pause of `d` adds `d` to the second, and no other call adds to either.
  pub record IsCounted (sent slept : K.State → ℕ) : Type 0 where
    pub requests : Priced (counting sent) H 1 0
    pub pauses : Priced (counting slept) H 0 1
    pub list_requests :
        (label value : String) (s : K.State) → sent (K.list_pods label value s).1 ≤ sent s + 0
    pub list_pauses :
        (label value : String) (s : K.State) → slept (K.list_pods label value s).1 ≤ slept s + 0

  module _ (sent slept : K.State → ℕ) (C : IsCounted sent slept) where
    -- Whatever the network answers, a transfer sends at most three upload requests, and waits at
    -- most six seconds between them.
    pub transfer_checkpoint-bounded :
        (src target : String) (s : K.State)
        → (sent (transfer_checkpoint K H src target s).1 ≤ sent s + 3)
          × (slept (transfer_checkpoint K H src target s).1 ≤ slept s + seconds 6)
    transfer_checkpoint-bounded src target s = (
      transfer_checkpoint-within K (counting sent) H C.requests C.list_requests src target s,
      transfer_checkpoint-within K (counting slept) H C.pauses C.list_pauses src target s,
    )

    -- Whatever the kubelet answers, with a backoff as apimachinery documents it, a checkpoint asks
    -- it at most five times.
    pub create_checkpoint-bounded :
        (B : BacksOff H)
        → ((s : K.State) → sent (B.pause s) ≤ sent s + 0)
        → (node namespace pod container : String) (s : K.State)
        → sent (create_checkpoint H node namespace pod container s).1 ≤ sent s + 5
    create_checkpoint-bounded B pause node namespace pod container s =
        create_checkpoint-within (counting sent) H C.requests B pause node namespace pod container s
