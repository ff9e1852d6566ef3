-- ===== src/Sidecar/Costs.antt =====
-- What the transfer of a file and the call of the kubelet cost, when each request and each pause
-- has a price.
pub mod Transfers
pub mod Kubelets
use pod_checkpoint_controlle.Prelude.{ℕ, ◌*◌, String, Option}
use pod_checkpoint_controlle.Go.Costs.{Measure}
use pod_checkpoint_controlle.Sidecar.Host.{HttpClient, HttpRequest, HttpResponse, Form, Host}

-- A request costs `c`, a pause of `d` nanoseconds costs `w * d`, and all else is free.
pub record Priced {S : Type 0} (M : Measure S) (H : Host S) (c w : ℕ) : Type 0 where
  pub getenv : (name : String) (s : S) → M.within 0 s (H.getenv name s).1
  pub sleep : (d : ℕ) (s : S) → M.within (w * d) s (H.sleep d s)
  pub open_file : (path : String) (s : S) → M.within 0 s (H.open_file path s).1
  pub stat_size : (file : ℕ) (s : S) → M.within 0 s (H.stat_size file s).1
  pub seek_start : (file : ℕ) (s : S) → M.within 0 s (H.seek_start file s).1
  pub close_file : (file : ℕ) (s : S) → M.within 0 s (H.close_file file s)
  pub read_file : (path : String) (s : S) → M.within 0 s (H.read_file path s).1
  pub new_writer : (s : S) → M.within 0 s (H.new_writer s).1
  pub create_form_file :
      (writer : ℕ) (field name : String) (s : S)
      → M.within 0 s (H.create_form_file writer field name s).1
  pub copy_into_form : (writer file : ℕ) (s : S) → M.within 0 s (H.copy_into_form writer file s).1
  pub close_writer : (writer : ℕ) (s : S) → M.within 0 s (H.close_writer writer s).1
  pub form_of : (writer : ℕ) (s : S) → M.within 0 s (H.form_of writer s).1
  pub send :
      (client : HttpClient) (request : Option HttpRequest) (s : S)
      → M.within c s (H.send client request s).1
  pub http_get : (url : String) (s : S) → M.within 0 s (H.http_get url s).1
  pub read_body : (response : HttpResponse) (s : S) → M.within 0 s (H.read_body response s).1
  pub load_key_pair : (cert key : String) (s : S) → M.within 0 s (H.load_key_pair cert key s).1
