-- ===== src/Login/Wording.antt =====
-- The texts of the errors of pkg/k8s/credentials.go, which the endpoints return to the caller.
use Prim.Native.String.{◌++◌ as str_append}
use antrea_ui.Base.{ℕ, String}
use antrea_ui.Credentials.Kubeconfig.{LoginError}

-- The verb `%q` of Go's fmt, and RFC 3339 for a time.
pub record Formats : Type 0 where
  pub quote : String → String
  pub rfc3339 : ℕ → String

module _ (f : Formats) where
  unfoldable pub describe : LoginError → String
  describe LoginError.not_valid = "kubeconfig is not valid YAML/JSON"
  describe LoginError.no_current_context = "kubeconfig has no current-context"
  describe (LoginError.no_context name) =
      str_append "kubeconfig has no context named " (f.quote name)
  describe (LoginError.no_user name) = str_append "kubeconfig has no user named " (f.quote name)
  describe LoginError.exec_plugin =
      str_append
        "kubeconfig uses an exec credential plugin, which Antrea UI cannot run on your behalf. "
        "Run the plugin locally and paste the resulting token instead, or use a different login method"
  describe (LoginError.auth_provider_used name) = str_append "kubeconfig uses an auth-provider (" (
      str_append name (
        str_append "), which Antrea UI does not support. "
          "Use a token or client certificate credential, or a different login method"))
  describe LoginError.token_file_used =
      "kubeconfig references a token file, which only exists on your machine. Paste the token itself instead"
  describe LoginError.certificate_files_used =
      str_append "kubeconfig references certificate files, which only exist on your machine. "
        "Use `kubectl config view --raw --minify` to produce a kubeconfig with the data embedded"
  describe LoginError.basic_authentication =
      "kubeconfig uses HTTP basic authentication, which Antrea UI does not support"
  describe (LoginError.no_usable_credential name) =
      str_append "kubeconfig user " (str_append (f.quote name) " has no usable credential")
  describe LoginError.token_empty = "token is empty"
  describe LoginError.certificate_not_pem = "client-certificate-data is not valid PEM"
  describe LoginError.certificate_not_x509 =
      "client-certificate-data is not a valid X.509 certificate"
  describe (LoginError.certificate_expired limit) =
      str_append "client certificate expired on " (f.rfc3339 limit)
  describe LoginError.key_not_pem = "client-key-data is not valid PEM"
