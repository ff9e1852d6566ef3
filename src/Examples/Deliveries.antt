-- ===== src/Examples/Deliveries.antt =====
-- The theorem on deliveries at a concrete input: the request of the sender's node runs the handler of the
-- receiver's.
use pod_checkpoint_controlle.Prelude.{ℕ, ◌≡◌, refl, sym, ap, true, none, some}
use pod_checkpoint_controlle.Go.Errors.{Result, ok, err, errorf}
use pod_checkpoint_controlle.Kube.Memory.{Memory, empty}
use pod_checkpoint_controlle.Sidecar.Host.{HttpResponse, Host}
use pod_checkpoint_controlle.Sidecar.Offline.{offline_host}
use pod_checkpoint_controlle.Sidecar.Server.{Server, upload_handler, receive_file, save_file, route}
use pod_checkpoint_controlle.Sidecar.Transfer.{
  fill_form, form_request, attempt_request, take_reply, health_check, target_ip, upload, send_form,
  send_to, send_file, transfer_checkpoint,
}
use pod_checkpoint_controlle.System.Deliveries.{
  Connects, IsDelivered, transfer_checkpoint-IsDelivered,
}
use pod_checkpoint_controlle.Examples.System.{K}

-- The receiver's node: a form has one file of ten bytes.
abbrev storing : Host Memory
storing = record (offline_host Memory) {
  form_file = λ request field s. (ok (record { handle = 4; filename = "web.tar"; size = 10 }), s);
}

abbrev store_server : Server
store_server = record { checkpoint_dir = "/checkpoints"; port = "8081"; started = true }

abbrev linked : Host Memory
linked = record (offline_host Memory) {
  send = λ client request s. elim request [
    | none ↦ (err (errorf "nil request"), s)
    | some req ↦
        let (q, s') = route storing store_server "/upload" req s in
        (ok (record { status_code = q.code; status = "answered"; body = q.text }), s')
  ];
}

abbrev status_of : Result HttpResponse → ℕ
status_of (ok resp) = resp.status_code
status_of (err e) = 0

linked-Connects : Connects linked storing (λ ip port. store_server)
linked-Connects = record {
  arrives = λ ip port req t. t;
  answers = λ ip port form req t resp built sent. ap status_of (sym sent);
}

delivered_now : (transfer_checkpoint K linked "web.tar" "n2" empty).0 ≡ none
unfolding transfer_checkpoint send_file send_to send_form fill_form form_request upload
    attempt_request take_reply health_check target_ip route upload_handler receive_file save_file
delivered_now = refl

transfer_checkpoint-IsDelivered_example :
    IsDelivered K linked storing (λ ip port. store_server) linked-Connects "web.tar" "n2" empty
transfer_checkpoint-IsDelivered_example =
    transfer_checkpoint-IsDelivered K linked storing (λ ip port. store_server) linked-Connects
      "web.tar" "n2" empty delivered_now
