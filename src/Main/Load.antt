-- ===== src/Main/Load.antt =====
-- `loadConfig` of cmd/lbsync/main.go: the environment, and the flags of the command line over it.
--
-- What envconfig makes of the environment is a parameter, as are the readers of integers and durations
-- (strconv.ParseInt with base 0, time.ParseDuration). Parse is that of package flag.
pub mod Given
use lbsync.Prelude.{
  ℤ, Text, text, same, Bool, true, false, ◌||◌, ◌==◌, Option, none, some, List, [], ◌∷◌, ◌++◌,
  Result, ok, err, Error, message, wrapped, if◌then◌else◌,
}
use lbsync.Prelude.Dict.{Dict, lookup}
use lbsync.Main.Strings.{cut}
use lbsync.Main.ClusterConfig
use lbsync.Main.Startup
use lbsync.Main.Run

-- config; intervals and timeouts are in nanoseconds.
pub record Config : Type 0 where
  pub letsencrypt_path : Text
  pub serving_dir : Text
  pub blob_resources : Text
  pub modules : Text
  pub peers : Text
  pub cluster_env : Text
  pub bind_addr : Text
  pub advertise_addr : Text
  pub olric_port : ℤ
  pub memberlist_port : ℤ
  pub replica_count : ℤ
  pub wan_port : ℤ
  pub tls_cert : Text
  pub tls_key : Text
  pub tls_ca : Text
  pub password : Text
  pub gossip_key : Text
  pub insecure : Bool
  pub reconcile_interval : ℤ
  pub verify_cmd : Text
  pub reload_cmd : Text
  pub reload_timeout : ℤ
  pub port : ℤ
  pub hostname : Text

-- What the start of the cluster, and the start of the modules, read of it.
abbrev pub run_config : Config → Run.Config
run_config c = record {
  cluster = record {
    cluster_env = c.cluster_env;
    bind_addr = c.bind_addr;
    advertise_addr = c.advertise_addr;
    olric_port = c.olric_port;
    memberlist_port = c.memberlist_port;
    replica_count = c.replica_count;
    password = c.password;
    gossip_key = c.gossip_key;
    insecure = c.insecure;
  };
  peers = c.peers;
  wan_port = c.wan_port;
  tls_cert = c.tls_cert;
  tls_key = c.tls_key;
  tls_ca = c.tls_ca;
  hostname = c.hostname;
}

abbrev pub startup_config : Config → Startup.Config
startup_config c = record {
  letsencrypt_path = c.letsencrypt_path;
  serving_dir = c.serving_dir;
  blob_resources = c.blob_resources;
  modules = c.modules;
  verify_cmd = c.verify_cmd;
  reload_cmd = c.reload_cmd;
  reload_timeout = c.reload_timeout;
  hostname = c.hostname;
}

-- A flag, with the field that it sets.
pub data Flag : Type 0 where
  text_flag : (Text → Config → Config) → Flag
  int_flag : (ℤ → Config → Config) → Flag
  duration_flag : (ℤ → Config → Config) → Flag
  bool_flag : (Bool → Config → Config) → Flag

-- fs, as loadConfig defines it
unfoldable pub flags : Dict Flag
flags =
    (text "letsencrypt-path", text_flag (λ v c. record c { letsencrypt_path = v }))
    ∷ (text "serving-dir", text_flag (λ v c. record c { serving_dir = v }))
    ∷ (text "blob-resources", text_flag (λ v c. record c { blob_resources = v }))
    ∷ (text "modules", text_flag (λ v c. record c { modules = v }))
    ∷ (text "peers", text_flag (λ v c. record c { peers = v }))
    ∷ (text "cluster-env", text_flag (λ v c. record c { cluster_env = v }))
    ∷ (text "bind-addr", text_flag (λ v c. record c { bind_addr = v }))
    ∷ (text "advertise-addr", text_flag (λ v c. record c { advertise_addr = v }))
    ∷ (text "olric-port", int_flag (λ v c. record c { olric_port = v }))
    ∷ (text "memberlist-port", int_flag (λ v c. record c { memberlist_port = v }))
    ∷ (text "replica-count", int_flag (λ v c. record c { replica_count = v }))
    ∷ (text "wan-port", int_flag (λ v c. record c { wan_port = v }))
    ∷ (text "tls-cert", text_flag (λ v c. record c { tls_cert = v }))
    ∷ (text "tls-key", text_flag (λ v c. record c { tls_key = v }))
    ∷ (text "tls-ca", text_flag (λ v c. record c { tls_ca = v }))
    ∷ (text "cluster-password", text_flag (λ v c. record c { password = v }))
    ∷ (text "cluster-gossip-key", text_flag (λ v c. record c { gossip_key = v }))
    ∷ (text "insecure", bool_flag (λ v c. record c { insecure = v }))
    ∷ (text "interval", duration_flag (λ v c. record c { reconcile_interval = v }))
    ∷ (text "verify-cmd", text_flag (λ v c. record c { verify_cmd = v }))
    ∷ (text "reload-cmd", text_flag (λ v c. record c { reload_cmd = v }))
    ∷ (text "reload-timeout", duration_flag (λ v c. record c { reload_timeout = v }))
    ∷ (text "port", int_flag (λ v c. record c { port = v }))
    ∷ (text "hostname", text_flag (λ v c. record c { hostname = v }))
    ∷ []

-- The readers of values.
pub record Readers : Type 0 where
  pub parse_int : Text → Result ℤ
  pub parse_duration : Text → Result ℤ

abbrev pub one_of : List Text → Text → Bool
one_of [] s = false
one_of (a ∷ more) s = same a s || one_of more s

-- strconv.ParseBool
unfoldable pub parse_bool : Text → Result Bool
parse_bool s =
    if one_of (text "1" ∷ text "t" ∷ text "T" ∷ text "true" ∷ text "TRUE" ∷ text "True" ∷ []) s
    then ok true
    else if one_of
        (text "0" ∷ text "f" ∷ text "F" ∷ text "false" ∷ text "FALSE" ∷ text "False" ∷ []) s
    then ok false
    else err (message (text "parse error"))

abbrev pub read_into : {A : Type 0} → (A → Config → Config) → Result A → Config → Result Config
read_into f (err e) c = err e
read_into f (ok v) c = ok (f v c)

-- Set, of the value of a flag
unfoldable pub set : Readers → Flag → Text → Config → Result Config
set v (text_flag f) s c = ok (f s c)
set v (int_flag f) s c = read_into f (v.parse_int s) c
set v (duration_flag f) s c = read_into f (v.parse_duration s) c
set v (bool_flag f) s c = read_into f (parse_bool s) c

-- What an argument is: no flag, `--`, a flag with a bad name, or a flag with its name and value.
pub data Spelling : Type 0 where
  no_flag : Spelling
  terminator : Spelling
  bad_syntax : Spelling
  named : Text → Option Text → Spelling

abbrev pub cut_name : Text → Option (Text × Text) → Spelling
cut_name name none = named name none
cut_name name (some (before, value)) = named before (some value)

unfoldable pub name_of : Text → Spelling
name_of [] = bad_syntax
name_of (x ∷ name) =
    if x == b'-' || x == b'=' then bad_syntax else cut_name (x ∷ name) (cut b'=' (x ∷ name))

abbrev pub after_two : Text → Spelling
after_two [] = terminator
after_two (x ∷ name) = name_of (x ∷ name)

unfoldable pub spelling : Text → Spelling
spelling [] = no_flag
spelling (a ∷ []) = no_flag
spelling (a ∷ b ∷ name) =
    if a == b'-' then (if b == b'-' then after_two name else name_of (b ∷ name)) else no_flag

-- What parseOne does with an argument: it ends the flags, fails, or goes on, with the flag that is to
-- get the next argument as its value.
pub data Next : Type 0 where
  finished : Next
  failed : Error → Next
  next : Option (Text × Flag) → Config → Next

abbrev pub bad_value : Text → Flag → Text → Text
bad_value name (bool_flag f) s = text "invalid boolean value " ++ (s ++ (text " for -" ++ name))
bad_value name f s = text "invalid value " ++ (s ++ (text " for flag -" ++ name))

module _ (v : Readers) where
  unfoldable pub assigned : Text → Flag → Text → Config → Next
  assigned name f s c = elim (set v f s c) [
    | err e ↦ failed (wrapped (bad_value name f s) e)
    | ok c' ↦ next none c'
  ]

  -- A flag without `=`: a boolean one is set, any other takes the next argument.
  unfoldable pub alone : Text → Flag → Config → Next
  alone name (bool_flag f) c = next none (f true c)
  alone name (text_flag f) c = next (some (name, text_flag f)) c
  alone name (int_flag f) c = next (some (name, int_flag f)) c
  alone name (duration_flag f) c = next (some (name, duration_flag f)) c

  unfoldable pub given : Text → Option Text → Option Flag → Config → Next
  given name value none c =
      if same name (text "help") || same name (text "h")
      then failed (message (text "flag: help requested"))
      else failed (message (text "flag provided but not defined: -" ++ name))
  given name none (some f) c = alone name f c
  given name (some s) (some f) c = assigned name f s c

  unfoldable pub parse_one : Option (Text × Flag) → Text → Config → Next
  parse_one (some (name, f)) arg c = assigned name f arg c
  parse_one none arg c = elim (spelling arg) [
    | no_flag ↦ finished
    | terminator ↦ finished
    | bad_syntax ↦ failed (message (text "bad flag syntax: " ++ arg))
    | named name value ↦ given name value (lookup flags name) c
  ]

  -- fs.Parse
  unfoldable pub parse_args : Option (Text × Flag) → List Text → Config → Result Config
  parse_args none [] c = ok c
  parse_args (some (name, f)) [] c = err (message (text "flag needs an argument: -" ++ name))
  parse_args waiting (arg ∷ args) c = elim (parse_one waiting arg c) [
    | finished ↦ ok c
    | failed e ↦ err e
    | next waiting' c' ↦ parse_args waiting' args c'
  ]

  -- loadConfig, over what envconfig.Process gives
  unfoldable pub load_config : Result Config → List Text → Result Config
  load_config (err e) args = err (wrapped (text "envconfig") e)
  load_config (ok c) args = parse_args none args c
