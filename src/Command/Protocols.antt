-- ===== src/Command/Protocols.antt =====
-- What the servers of cmd/main.go speak and whom they serve, by the flags.
use dynamic_crd_watch.Base.{◌≡◌, refl, ◌↔◌, true, false, some, List, [], ◌∷◌, arith, if◌then◌else◌}
use dynamic_crd_watch.Base.Lists.{is_empty}
use dynamic_crd_watch.Command.Flags.{Flags}
use dynamic_crd_watch.Command.Servers.{
  TlsConfig, TlsOption, WebhookOptions, with_authentication_and_authorization, ManagerOptions,
  disable_http2, tls_options, webhook_server_options, metrics_server_options, manager_options,
}

-- A configuration once a server has applied its options, in order.
abbrev pub configured : List TlsOption → TlsConfig → TlsConfig
configured [] c = c
configured (o ∷ rest) c = configured rest (o c)

tls_options-configured :
    (f : Flags) (c : TlsConfig)
    → configured (tls_options f) c
      ≡ (if f.enable_http2 then c else record c { next_protos = "http/1.1" ∷ [] })
unfolding tls_options disable_http2
tls_options-configured f c = ground arith

-- What the flags make of the two servers of a manager: the webhook server's options are `v`.
pub record IsServed {Server : Type 0} (f : Flags) (o : ManagerOptions Server) (v : WebhookOptions)
    : Type 0 where
  pub old_protocol :
      f.enable_http2 ≡ false
      → (c : TlsConfig)
      → ((configured o.metrics.tls_opts c).next_protos ≡ "http/1.1" ∷ [])
        × ((configured v.tls_opts c).next_protos ≡ "http/1.1" ∷ [])
  pub as_given :
      f.enable_http2 ≡ true
      → (c : TlsConfig) → (configured o.metrics.tls_opts c ≡ c) × (configured v.tls_opts c ≡ c)
  pub guarded :
      (o.metrics.filter_provider ≡ some with_authentication_and_authorization)
      ↔ (o.metrics.secure_serving ≡ true)
  pub metrics_certificate :
      (o.metrics.cert_dir ≡ f.metrics_cert_path)
      × (is_empty f.metrics_cert_path ≡ false
          → (o.metrics.cert_name ≡ f.metrics_cert_name) × (o.metrics.key_name ≡ f.metrics_cert_key))
  pub webhook_certificate :
      (v.cert_dir ≡ f.webhook_cert_path)
      × (is_empty f.webhook_cert_path ≡ false
          → (v.cert_name ≡ f.webhook_cert_name) × (v.key_name ≡ f.webhook_cert_key))
  pub strict : o.reader_fail_on_missing_informer ≡ true

empty_nil : {A : Type 0} (l : List A) → is_empty l ≡ true → l ≡ []
empty_nil [] e = refl
empty_nil (x ∷ xs) e = absurd (ground arith)

-- For the manager's options that `main` makes of any flags: unless HTTP/2 is enabled, both servers
-- offer HTTP/1.1 alone, whatever configuration they start from, and if it is enabled their
-- configurations are left alone; the metrics are behind authentication and authorization exactly if they
-- are served securely; a certificate's directory is the one given, with its file names where it
-- is not empty; and the cache fails reads that have no informer.
pub manager_options-IsServed :
    {Server : Type 0} (new_server : WebhookOptions → Server) (f : Flags)
    → (v : WebhookOptions) × ((manager_options new_server f).webhook_server ≡ new_server v)
      × IsServed f (manager_options new_server f) v
unfolding manager_options webhook_server_options metrics_server_options
manager_options-IsServed new_server f = (
  webhook_server_options f,
  refl,
  record {
    old_protocol = λ e c. ground (arith, tls_options-configured f c);
    as_given = λ e c. ground (arith, tls_options-configured f c);
    guarded = ground arith;
    metrics_certificate = ground (arith, empty_nil f.metrics_cert_path);
    webhook_certificate = ground (arith, empty_nil f.webhook_cert_path);
    strict = refl;
  },
)
