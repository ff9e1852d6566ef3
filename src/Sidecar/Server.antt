-- ===== src/Sidecar/Server.antt =====
-- internal/sidecar/http_server.go: the server that takes checkpoint files from other nodes.
pub mod Uploads
use pod_checkpoint_controlle.Prelude.{
  ℕ, ◌^◌, String, ◌<>◌, ◌==◌, Bool, true, false, not, Option, none, eqb, if◌then◌else◌,
}
use pod_checkpoint_controlle.Go.Errors.{GoError}
use pod_checkpoint_controlle.Go.Flow.{
  Flow, proceed, exit, ◌>>=◌, ◌>>◌, call, or_else, unless_nil, answer,
}
use pod_checkpoint_controlle.Sidecar.Host.{HttpRequest, Host}

-- `Server`; `started` says that its `server` field is set.
pub record Server : Type 0 where
  pub checkpoint_dir : String
  pub port : String
  pub started : Bool

-- What a handler writes.
pub record Response : Type 0 where
  pub code : ℕ
  pub text : String

-- `NewServer`
unfoldable pub new_server : String → String → Server
new_server dir port = record {
  checkpoint_dir = dir;
  port = if port == "" then "8081" else port;
  started = false;
}

-- `healthHandler`
unfoldable pub health_handler : HttpRequest → Response
health_handler r = record { code = 200; text = "OK" }

-- `http.Error` ends the text with a line break.
abbrev http_error : {S A : Type 0} → String → ℕ → Flow Response S A
http_error message code = exit (record { code = code; text = message <> "\n" })

abbrev pub internal_server_error : ℕ
internal_server_error = 500

module _ {S : Type 0} (H : Host S) where
  -- The part of `uploadHandler` after the destination file is open: it is closed on every way out.
  unfoldable pub save_file : ℕ → ℕ → ℕ → String → Flow Response S Response
  save_file source dest size filename s =
      let (r, s') = answer (
        (do
          copied ← call (H.copy_file dest source)
          written ← or_else copied (λ _. http_error "Error saving file" internal_server_error)
          if not (eqb written size)
              then http_error "File size mismatch" internal_server_error
              else exit
                  (record { code = 201; text = "File " <> filename <> " uploaded successfully" }))
          s) in
      exit r (H.close_file dest s')

  -- The part after the form's file is open, which is closed likewise.
  unfoldable pub receive_file : Server → ℕ → String → ℕ → Flow Response S Response
  unfolding save_file
  receive_file server source filename size s =
      let (r, s') = answer (
        (do
          e ← call (H.mkdir_all server.checkpoint_dir)
          unless_nil e (λ _. http_error "Internal server error" internal_server_error)
          created ← call (H.create_file (H.join server.checkpoint_dir filename))
          dest ← or_else created (λ _. http_error "Internal server error" internal_server_error)
          save_file source dest size filename)
          s) in
      exit r (H.close_file source s')

  -- `uploadHandler`
  unfoldable pub upload_handler : Server → HttpRequest → S → Response × S
  unfolding receive_file
  upload_handler server r s = answer (
      (do
        (if not (r.method == "POST") then http_error "Method not allowed" 405 else proceed tt)
        e ← call (H.parse_multipart_form r (2 ^ 30))
        unless_nil e (λ _. http_error "Error parsing form" 400)
        found ← call (H.form_file r "file")
        upload ← or_else found (λ _. http_error "Error retrieving file" 400)
        receive_file server upload.handle upload.filename upload.size)
        s)

  -- The two routes that `Start` registers; the multiplexer answers 404 elsewhere.
  unfoldable pub route : Server → String → HttpRequest → S → Response × S
  unfolding upload_handler health_handler
  route server path r s =
      if path == "/upload"
      then upload_handler server r s
      else if path == "/health"
      then (health_handler r, s)
      else (record { code = 404; text = "404 page not found\n" }, s)

  -- `Start`
  unfoldable pub start : Server → S → (Option GoError × Server) × S
  start server s =
      let (e, s') = H.listen_and_serve (":" <> server.port) s in
      ((e, record server { started = true }), s')

  -- `Stop`
  unfoldable pub stop : Server → S → Option GoError × S
  stop server s = if server.started then H.shutdown s else (none, s)
