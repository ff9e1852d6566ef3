-- ===== src/Sidecar/Transfer/Target.antt =====
-- Which sidecar `TransferCheckpoint` sends to.
use pod_checkpoint_controlle.Prelude.{
  String, ◌==◌, ◌≡◌, refl, ◌∙◌, inl, inr, eq_iff, true, false, List, [], ◌∷◌, Bool-cases,
}
use pod_checkpoint_controlle.Api.Meta.{Pod, PodPhase, running, not_running}
use pod_checkpoint_controlle.Sidecar.Transfer.{is_running, target_ip}

-- The first pod of a list that runs on a node.
pub data FirstSidecar (node : String) : List Pod → Pod → Type 0 where
  here :
      {p : Pod} {ps : List Pod}
      → p.spec.node_name ≡ node
      → p.status.phase ≡ running
      → FirstSidecar node (p ∷ ps) p
  later :
      {p q : Pod} {ps : List Pod}
      → (p.spec.node_name ≡ node → p.status.phase ≡ running → ⊥)
      → FirstSidecar node ps q
      → FirstSidecar node (p ∷ ps) q

running_of : (phase : PodPhase) → is_running phase ≡ true → phase ≡ running
running_of running h = refl
running_of (not_running text) h = absurd (cc (h))

not_running_of : (phase : PodPhase) → is_running phase ≡ false → phase ≡ running → ⊥
not_running_of running h e = cc (h)
not_running_of (not_running text) h e = cc (e)

-- If the address is not empty, it is that of the first running sidecar on the node.
pub target_ip-FirstSidecar :
    (node : String) (pods : List Pod)
    → (target_ip node pods == "") ≡ false
    → (p : Pod) × FirstSidecar node pods p × (target_ip node pods ≡ p.status.pod_ip)
unfolding target_ip
target_ip-FirstSidecar node [] h = absurd (cc (h))
target_ip-FirstSidecar node (p ∷ ps) h = elim (Bool-cases (p.spec.node_name == node)) [
  | inr elsewhere ↦
      let (q, first, address) = target_ip-FirstSidecar node ps (rw elsewhere at h) in
      (
        q,
        later (λ there _. cc (elsewhere, (eq_iff p.spec.node_name node).1 there)) first,
        rw elsewhere address,
      )
  | inl there ↦ elim (Bool-cases (is_running p.status.phase)) [
    | inl runs ↦ (
      p,
      here ((eq_iff p.spec.node_name node).0 there) (running_of p.status.phase runs),
      rw (there, runs) refl,
    )
    | inr stopped ↦
        let (q, first, address) = target_ip-FirstSidecar node ps (rw (there, stopped) at h) in
        (
          q,
          later (λ _ runs. not_running_of p.status.phase stopped runs) first,
          rw (there, stopped) address,
        )
  ]
]

-- If the first running sidecar on the node has no address, or there is none, there is no address.
pub target_ip-none :
    (node : String) (pods : List Pod)
    → ((p : Pod) → FirstSidecar node pods p → p.status.pod_ip ≡ "")
    → target_ip node pods ≡ ""
target_ip-none node pods h = elim (Bool-cases (target_ip node pods == "")) [
  | inl bare ↦ (eq_iff (target_ip node pods) "").0 bare
  | inr addressed ↦
      let (p, first, address) = target_ip-FirstSidecar node pods addressed in address ∙ h p first
]
