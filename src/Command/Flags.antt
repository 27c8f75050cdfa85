-- ===== src/Command/Flags.antt =====
-- cmd/main.go: the flags of the command, and `flag.Parse` of the standard library on its arguments.
use dynamic_crd_watch.Base.{
  ℕ, Bool, true, false, ◌&&◌, ◌||◌, Option, none, some, List, [], ◌∷◌, ◌++◌, codes, ◌==◌,
  if◌then◌else◌,
}
use dynamic_crd_watch.Base.Text.{Text}

-- The variables that the flags set.
pub record Flags : Type 0 where
  pub metrics_addr : Text
  pub probe_addr : Text
  pub enable_leader_election : Bool
  pub secure_metrics : Bool
  pub webhook_cert_path : Text
  pub webhook_cert_name : Text
  pub webhook_cert_key : Text
  pub metrics_cert_path : Text
  pub metrics_cert_name : Text
  pub metrics_cert_key : Text
  pub enable_http2 : Bool

abbrev pub default_flags : Flags
default_flags = record {
  metrics_addr = codes "0";
  probe_addr = codes ":8081";
  enable_leader_election = false;
  secure_metrics = true;
  webhook_cert_path = [];
  webhook_cert_name = codes "tls.crt";
  webhook_cert_key = codes "tls.key";
  metrics_cert_path = [];
  metrics_cert_name = codes "tls.crt";
  metrics_cert_key = codes "tls.key";
  enable_http2 = false;
}

-- `strconv.ParseBool`.
abbrev text_eq : Text → Text → Bool
text_eq [] [] = true
text_eq (x ∷ xs) (y ∷ ys) = x == y && text_eq xs ys
text_eq _ _ = false

abbrev one_of : Text → List Text → Bool
one_of v [] = false
one_of v (w ∷ ws) = text_eq v w || one_of v ws

abbrev truths : List Text
truths = codes "1" ∷ codes "t" ∷ codes "T" ∷ codes "true" ∷ codes "TRUE" ∷ codes "True" ∷ []

abbrev falsehoods : List Text
falsehoods = codes "0" ∷ codes "f" ∷ codes "F" ∷ codes "false" ∷ codes "FALSE" ∷ codes "False" ∷ []

abbrev pub parse_bool : Text → Option Bool
parse_bool v =
    if one_of v truths then some true else if one_of v falsehoods then some false else none

-- A flag over the variables `S`: what its `Set` makes of a value, or `none` for its error.
pub record Flag (S : Type 0) : Type 0 where
  pub is_bool : Bool
  pub set : Text → S → Option S

abbrev pub string_var : {S : Type 0} → (Text → S → S) → Flag S
string_var f = record { is_bool = false; set = λ v s. some (f v s) }

abbrev pub bool_var : {S : Type 0} → (Bool → S → S) → Flag S
bool_var f = record {
  is_bool = true;
  set = λ v s. elim (parse_bool v) [ none ↦ none | some b ↦ some (f b s) ];
}

abbrev pub FlagSet : Type 0 → Type 0
FlagSet S = List (Text × Flag S)

-- The flags that `main` declares.
abbrev pub declared_flags : FlagSet Flags
declared_flags =
    (codes "metrics-bind-address", string_var (λ v s. record s { metrics_addr = v }))
    ∷ (codes "health-probe-bind-address", string_var (λ v s. record s { probe_addr = v }))
    ∷ (codes "leader-elect", bool_var (λ b s. record s { enable_leader_election = b }))
    ∷ (codes "metrics-secure", bool_var (λ b s. record s { secure_metrics = b }))
    ∷ (codes "webhook-cert-path", string_var (λ v s. record s { webhook_cert_path = v }))
    ∷ (codes "webhook-cert-name", string_var (λ v s. record s { webhook_cert_name = v }))
    ∷ (codes "webhook-cert-key", string_var (λ v s. record s { webhook_cert_key = v }))
    ∷ (codes "metrics-cert-path", string_var (λ v s. record s { metrics_cert_path = v }))
    ∷ (codes "metrics-cert-name", string_var (λ v s. record s { metrics_cert_name = v }))
    ∷ (codes "metrics-cert-key", string_var (λ v s. record s { metrics_cert_key = v }))
    ∷ (codes "enable-http2", bool_var (λ b s. record s { enable_http2 = b }))
    ∷ []

-- `FlagSet.parseOne` on an argument: it ends the flags, is a syntax error, or names a flag, with the
-- value after the first `=`.
pub data Argument : Type 0 where
  ends : Argument
  malformed : Argument
  named : (name : Text) → (value : Option Text) → Argument

abbrev cut_equals : Text → Text × Option Text
cut_equals [] = ([], none)
cut_equals (c ∷ cs) =
    let (name, value) = cut_equals cs in if c == b'=' then ([], some cs) else (c ∷ name, value)

abbrev name_of : Text → Argument
name_of [] = malformed
name_of (c ∷ cs) =
    let (name, value) = cut_equals cs in
    if c == b'-' || c == b'=' then malformed else named (c ∷ name) value

abbrev after_dashes : ℕ → Text → Argument
after_dashes d [] = if d == b'-' then ends else name_of (d ∷ [])
after_dashes d (c ∷ cs) = if d == b'-' then name_of (c ∷ cs) else name_of (d ∷ c ∷ cs)

abbrev pub argument : Text → Argument
argument [] = ends
argument (c ∷ []) = ends
argument (c ∷ d ∷ cs) = if c == b'-' then after_dashes d cs else ends

-- What `Parse` of a flag set that exits on errors comes to.
pub data Parsed (S : Type 0) : Type 0 where
  parsed : S → Parsed S
  help : Parsed S
  bad_usage : Parsed S

module _ {S : Type 0} where
  abbrev pub lookup : Text → FlagSet S → Option (Flag S)
  lookup name [] = none
  lookup name ((n, f) ∷ rest) = if text_eq name n then some f else lookup name rest

  abbrev undefined : Text → Parsed S
  undefined name =
      if text_eq name (codes "help") || text_eq name (codes "h") then help else bad_usage

  -- `FlagSet.Parse`; `pending` is the flag whose value is the next argument.
  abbrev pub parse_args : FlagSet S → (pending : Option (Flag S)) → List Text → S → Parsed S
  parse_args set none [] s = parsed s
  parse_args set (some f) [] s = bad_usage
  parse_args set (some f) (v ∷ args) s = elim (f.set v s) [
    | none ↦ bad_usage
    | some t ↦ parse_args set none args t
  ]
  parse_args set none (a ∷ args) s = elim (argument a) [
    | ends ↦ parsed s
    | malformed ↦ bad_usage
    | named name value ↦ elim (lookup name set) [
      | none ↦ undefined name
      | some f ↦ elim value [
        | some v ↦ elim (f.set v s) [ none ↦ bad_usage | some t ↦ parse_args set none args t ]
        | none ↦
            if f.is_bool
            then elim (f.set (codes "true") s) [
              | none ↦ bad_usage
              | some t ↦ parse_args set none args t
            ]
            else parse_args set (some f) args s
      ]
    ]
  ]

-- A flag over one of two groups of variables.
abbrev first : {S Z : Type 0} → Flag S → Flag (S × Z)
first f = record {
  is_bool = f.is_bool;
  set = λ v s. elim (f.set v s.0) [ none ↦ none | some t ↦ some (t, s.1) ];
}

abbrev second : {S Z : Type 0} → Flag Z → Flag (S × Z)
second f = record {
  is_bool = f.is_bool;
  set = λ v s. elim (f.set v s.1) [ none ↦ none | some t ↦ some (s.0, t) ];
}

abbrev each : {S T : Type 0} → (Flag S → Flag T) → FlagSet S → FlagSet T
each g [] = []
each g ((n, f) ∷ rest) = (n, g f) ∷ each g rest

-- `flag.Parse` in `main`; `library_flags` are the flags that the libraries register (those of zap and
-- `--kubeconfig`), over variables of their own.
unfoldable pub parse_flags : {Z : Type 0} → FlagSet Z → Z → List Text → Parsed (Flags × Z)
parse_flags library_flags z args =
    parse_args (each first declared_flags ++ each second library_flags) none args (default_flags, z)
