-- ===== src/Cmd/Http.antt =====
-- The HTTP versions that the servers of cmd/main.go offer.
use pod_checkpoint_controlle.Prelude.{
  ℕ, String, ◌≡◌, refl, Option, none, some, List, [], ◌∷◌, if◌then◌else◌, Bool-cases, inl, inr,
}
use pod_checkpoint_controlle.Cmd.{TlsConfig, TlsOption}
use pod_checkpoint_controlle.Cmd.Controller.{
  Flags, configured, tls_opts, with_watcher, metrics_options, manager_options,
}

-- A configuration after the options, in their order.
abbrev pub configure : List TlsOption → TlsConfig → TlsConfig
configure [] c = c
configure (o ∷ os) c = configure os (configured o c)

configure-with_watcher :
    (w : Option ℕ) (l : List TlsOption) (c : TlsConfig)
    → (configure (with_watcher w l) c).next_protos ≡ (configure l c).next_protos
unfolding with_watcher configured
configure-with_watcher none l c = refl
configure-with_watcher (some w) [] c = refl
configure-with_watcher (some w) (o ∷ os) c = configure-with_watcher (some w) os (configured o c)

-- The protocols of a configuration after `tlsOpts`.
abbrev pub offered : Flags → TlsConfig → List String
offered f c = if f.enable_http2 then c.next_protos else "http/1.1" ∷ []

configure-tls_opts :
    (f : Flags) (c : TlsConfig) → (configure (tls_opts f) c).next_protos ≡ offered f c
unfolding tls_opts configured
configure-tls_opts f c = elim (Bool-cases f.enable_http2) [
  | inl on ↦ rw (on, tls_opts) refl
  | inr off ↦ rw (off, tls_opts) refl
]

-- Whether certificates are watched or not, both the server of the metrics and that of the webhooks
-- offer HTTP/1.1 alone, unless the flag for HTTP/2 is given: then their protocols are left as they
-- were.
pub manager_options-offered :
    (f : Flags) (metrics webhook : Option ℕ) (c : TlsConfig)
    → ((configure (manager_options f metrics webhook).metrics.tls_opts c).next_protos ≡ offered f c)
      × ((configure (manager_options f metrics webhook).webhook_tls_opts c).next_protos
          ≡ offered f c)
unfolding manager_options metrics_options
manager_options-offered f metrics webhook c = (
  rw (configure-with_watcher metrics (tls_opts f) c) (configure-tls_opts f c),
  rw (configure-with_watcher webhook (tls_opts f) c) (configure-tls_opts f c),
)
