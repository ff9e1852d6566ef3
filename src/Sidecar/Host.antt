-- ===== src/Sidecar/Host.antt =====
-- What the sidecar asks of its node: files, environment, HTTP and time. Go's standard library and
-- the kubelet answer these calls, so they are a parameter, over the state of the outside world.
use pod_checkpoint_controlle.Prelude.{
  ℕ, suc, zero, ◌+◌, String, ◌<>◌, Bool, Option, List, ltb, eqb, if◌then◌else◌,
}
use Prim.Native.Nat.{◌/◌, ◌%◌}
use pod_checkpoint_controlle.Go.Errors.{GoError, Result}

-- `http.Client`, with the fields of its TLS configuration. No certificates: a plain client.
pub record HttpClient : Type 0 where
  pub timeout : ℕ
  pub certificates : List String
  pub root_cas : String
  pub insecure_skip_verify : Bool

-- A request as it goes out; `content_type` is "" where the program sets none.
pub record HttpRequest : Type 0 where
  pub method : String
  pub url : String
  pub body : String
  pub content_type : String

pub record HttpResponse : Type 0 where
  pub status_code : ℕ
  pub status : String
  pub body : String

-- The variables that the closure in `doCheckpointWithBackoff` captures.
pub record Captured : Type 0 where
  pub out_files : List String
  pub last_err : Option GoError

-- `wait.Backoff`; the factor is a whole number here.
pub record Backoff : Type 0 where
  pub steps : ℕ
  pub duration : ℕ
  pub factor : ℕ

-- A finished multipart form: the bytes of the body and the header that names its boundary.
pub record Form : Type 0 where
  pub body : String
  pub content_type : String

-- `multipart.FileHeader`, with the file that it opens.
pub record Upload : Type 0 where
  pub handle : ℕ
  pub filename : String
  pub size : ℕ

-- Open files and form writers are numbers.
pub record Host (S : Type 0) : Type 0 where
  pub getenv : String → S → String × S
  pub sleep : ℕ → S → S
  -- `path/filepath`
  pub join : String → String → String
  pub base : String → String
  pub glob : String → S → Result (List String) × S
  -- `os` and `io`
  pub remove : String → S → Option GoError × S
  pub open_file : String → S → Result ℕ × S
  pub stat_size : ℕ → S → Result ℕ × S
  pub seek_start : ℕ → S → Option GoError × S
  pub close_file : ℕ → S → S
  pub mkdir_all : String → S → Option GoError × S
  pub create_file : String → S → Result ℕ × S
  -- `io.Copy(dst, src)` between files: the bytes written.
  pub copy_file : ℕ → ℕ → S → Result ℕ × S
  -- `os.ReadFile` with its error dropped.
  pub read_file : String → S → String × S
  -- `mime/multipart`
  pub new_writer : S → ℕ × S
  pub create_form_file : ℕ → String → String → S → Option GoError × S
  pub copy_into_form : ℕ → ℕ → S → Option GoError × S
  pub close_writer : ℕ → S → Option GoError × S
  pub form_of : ℕ → S → Form × S
  -- `net/http`; a request that could not be built is the nil pointer.
  pub new_request : String → String → Option Form → Result HttpRequest
  pub send : HttpClient → Option HttpRequest → S → Result HttpResponse × S
  pub http_get : String → S → Result HttpResponse × S
  pub parse_multipart_form : HttpRequest → ℕ → S → Option GoError × S
  pub form_file : HttpRequest → String → S → Result Upload × S
  pub listen_and_serve : String → S → Option GoError × S
  pub shutdown : S → Option GoError × S
  -- `io.ReadAll` of a response's body, its error dropped.
  pub read_body : HttpResponse → S → String × S
  -- `crypto/tls` and `crypto/x509`
  pub load_key_pair : String → String → S → Result String × S
  pub pool_of_pem : String → String
  -- `json.Unmarshal` into the field `items`.
  pub unmarshal_items : String → Result (List String)
  -- `wait.ExponentialBackoff` of apimachinery.
  pub exponential_backoff :
      Backoff
      → (Captured × S → (Bool × Option GoError) × (Captured × S))
      → Captured × S
      → Option GoError × (Captured × S)
  -- client-go's configuration and clientset; the program only asks whether they can be made.
  pub in_cluster_config : S → Option GoError × S
  pub new_clientset : S → Option GoError × S

digit : ℕ → String
digit d =
    if eqb d 0
    then "0"
    else if eqb d 1
    then "1"
    else if eqb d 2
    then "2"
    else if eqb d 3
    then "3"
    else if eqb d 4
    then "4"
    else if eqb d 5
    then "5"
    else if eqb d 6
    then "6"
    else if eqb d 7
    then "7"
    else if eqb d 8
    then "8"
    else "9"

decimal_digits : ℕ → ℕ → String
unfolding digit
decimal_digits zero n = ""
decimal_digits (suc fuel) n =
    let rest = decimal_digits fuel (n / 10) <> digit (n % 10) in if ltb n 10 then digit n else rest

-- `%d`
unfoldable pub decimal : ℕ → String
unfolding decimal_digits
decimal n = decimal_digits (n + 1) n
