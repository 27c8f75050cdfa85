-- ===== src/Command/Servers.antt =====
-- cmd/main.go: the options of the webhook server, of the metrics server and of the manager.
use dynamic_crd_watch.Base.{
  String, Bool, true, Option, none, some, List, [], ◌∷◌, ◌++◌, if◌then◌else◌,
}
use dynamic_crd_watch.Base.Lists.{is_empty}
use dynamic_crd_watch.Base.Text.{Text}
use dynamic_crd_watch.Command.Flags.{Flags}

-- `tls.Config`, with the field that the program sets and one that it leaves alone.
pub record TlsConfig : Type 0 where
  pub next_protos : List String
  pub server_name : String

abbrev pub TlsOption : Type 0
TlsOption = TlsConfig → TlsConfig

-- `webhook.Options`, with the fields that the program sets.
pub record WebhookOptions : Type 0 where
  pub tls_opts : List TlsOption
  pub cert_dir : Text
  pub cert_name : Text
  pub key_name : Text

-- `filters.WithAuthenticationAndAuthorization` is the one filter provider that is used.
pub data FilterProvider : Type 0 where
  with_authentication_and_authorization : FilterProvider

-- `metricsserver.Options`, with the fields that the program sets.
pub record MetricsOptions : Type 0 where
  pub bind_address : Text
  pub secure_serving : Bool
  pub tls_opts : List TlsOption
  pub filter_provider : Option FilterProvider
  pub cert_dir : Text
  pub cert_name : Text
  pub key_name : Text

-- `ctrl.Options`, with the fields that the program sets besides the scheme.
pub record ManagerOptions (Server : Type 0) : Type 0 where
  pub reader_fail_on_missing_informer : Bool
  pub metrics : MetricsOptions
  pub webhook_server : Server
  pub health_probe_bind_address : Text
  pub leader_election : Bool
  pub leader_election_id : String

unfoldable pub disable_http2 : TlsOption
disable_http2 c = record c { next_protos = "http/1.1" ∷ [] }

-- `tlsOpts` once the flags are read.
unfoldable pub tls_options : Flags → List TlsOption
tls_options f = if f.enable_http2 then [] else [] ++ disable_http2 ∷ []

unfoldable pub webhook_server_options : Flags → WebhookOptions
webhook_server_options f =
    let plain : WebhookOptions = record {
      tls_opts = tls_options f;
      cert_dir = [];
      cert_name = [];
      key_name = [];
    } in
    if is_empty f.webhook_cert_path then plain else record plain {
      cert_dir = f.webhook_cert_path;
      cert_name = f.webhook_cert_name;
      key_name = f.webhook_cert_key;
    }

unfoldable pub metrics_server_options : Flags → MetricsOptions
metrics_server_options f =
    let plain : MetricsOptions = record {
      bind_address = f.metrics_addr;
      secure_serving = f.secure_metrics;
      tls_opts = tls_options f;
      filter_provider = none;
      cert_dir = [];
      cert_name = [];
      key_name = [];
    } in
    let filtered =
      if f.secure_metrics
      then record plain { filter_provider = some with_authentication_and_authorization }
      else plain in
    if is_empty f.metrics_cert_path then filtered else record filtered {
      cert_dir = f.metrics_cert_path;
      cert_name = f.metrics_cert_name;
      key_name = f.metrics_cert_key;
    }

-- The options of the manager; `new_server` is `webhook.NewServer`.
unfoldable pub manager_options :
    {Server : Type 0} → (WebhookOptions → Server) → Flags → ManagerOptions Server
manager_options new_server f = record {
  reader_fail_on_missing_informer = true;
  metrics = metrics_server_options f;
  webhook_server = new_server (webhook_server_options f);
  health_probe_bind_address = f.probe_addr;
  leader_election = f.enable_leader_election;
  leader_election_id = "e90f265d.example.com";
}
