-- ===== src/Cli.antt =====
-- server/src/cli.rs: what the program makes of its arguments, and the choice of a backup in
-- server/src/builder.rs. Reading the command line is clap's. The url crate is a parameter; a panic is `none`.
pub mod Headers
pub mod RedisUrl
use Prim.Native.Char.{code}
use Prim.Native.String.{◌++◌ as append_text}
use mathlib.Core.Option
use unleash_edge.Prelude.{
  ℕ, String, Bool, Option, none, some, List, [], ◌∷◌, ◌=ℕ◌, if◌then◌else◌, ◌⊎◌, inl, inr,
}
use unleash_edge.Panics.{◌>>=◌}
use unleash_edge.Text.{contains_char, trim}

pub data RedisScheme : Type 0 where
  tcp tls redis rediss redis_unix unix : RedisScheme

-- `Display for RedisScheme`
unfoldable pub scheme_text : RedisScheme → String
scheme_text RedisScheme.redis = "redis"
scheme_text RedisScheme.rediss = "rediss"
scheme_text RedisScheme.redis_unix = "redis+unix"
scheme_text RedisScheme.unix = "unix"
scheme_text RedisScheme.tcp = "redis"
scheme_text RedisScheme.tls = "rediss"

pub data RedisMode : Type 0 where
  single cluster : RedisMode

pub record RedisArgs : Type 0 where
  pub redis_url : Option (List String)
  pub redis_mode : RedisMode
  pub redis_password : Option String
  pub redis_username : Option String
  pub redis_port : Option ℕ  -- u16
  pub redis_host : Option String
  pub redis_secure : Bool
  pub redis_scheme : RedisScheme
  pub redis_read_connection_timeout_milliseconds : ℕ  -- u64
  pub redis_write_connection_timeout_milliseconds : ℕ  -- u64

-- What `to_url` asks of `url::Url`: the setters fail on a URL without a host.
pub record RedisUrls : Type 1 where
  pub Url : Type 0
  pub parse : String → Option Url
  pub set_password : String → Url → Option Url
  pub set_username : String → Url → Option Url
  pub set_port : Option ℕ → Url → Option Url
  pub set_scheme : String → Url → Option Url
  pub to_text : Url → String

abbrev pub read_timeout : RedisArgs → ℕ
read_timeout self = self.redis_read_connection_timeout_milliseconds

abbrev pub write_timeout : RedisArgs → ℕ
write_timeout self = self.redis_write_connection_timeout_milliseconds

module _ (c : RedisUrls) where
  open c use {Url, parse, set_password, set_username, set_port, set_scheme}

  -- the first of the URLs, or the host with the scheme, if either is given
  unfoldable pub base_url : RedisArgs → Option (Option Url)
  base_url self = elim self.redis_url [
    | some [] ↦ none
    | some (url ∷ _) ↦ parse url >>= (λ base. some (some base))
    | none ↦ elim self.redis_host [
      | none ↦ some none
      | some host ↦
          parse (append_text (scheme_text self.redis_scheme) (append_text "://" host))
          >>= (λ base. some (some base))
    ]
  ]

  -- a setter for what is given
  abbrev pub set_given : (String → Url → Option Url) → Option String → Url → Option Url
  set_given set none url = some url
  set_given set (some value) url = set value url

  -- the two steps on a base
  unfoldable pub with_arguments : RedisArgs → Url → Option Url
  with_arguments self base = do
    authorized ← set_given set_password self.redis_password base
    named ← set_given set_username self.redis_username authorized
    almost_finished_url ← set_port self.redis_port named
    if self.redis_secure then set_scheme "rediss" almost_finished_url else some almost_finished_url

  unfoldable pub to_url : RedisArgs → Option (Option String)
  to_url self = do
    base ← base_url self
    elim base [
      | none ↦ some none
      | some url ↦ with_arguments self url >>= (λ f. some (some (c.to_text f)))
    ]

-- `split_once`: what stands before and after the first such character
unfoldable pub split_once : ℕ → String → Option (String × String)
split_once c String.[] = none
split_once c (String.◌∷◌ d s) =
    let rest = split_once c s in
    if code d =ℕ c
    then some (String.[], s)
    else Option.map (λ (before, after). (String.◌∷◌ d before, after)) rest

abbrev pub format_message : String
format_message = "Please pass headers in the format <headername>:<headervalue>"

unfoldable pub string_to_header_tuple : String → (String × String) ⊎ String
string_to_header_tuple s =
    if contains_char b':' s
    then elim (split_once b':' s) [
      | some (header_name, header_value) ↦ inl (trim header_name, trim header_value)
      | none ↦ inr format_message
    ]
    else inr format_message

abbrev pub trust_proxy_parse_error : String
trust_proxy_parse_error =
    "needs to be a valid ip address (ipv4 or ipv6) or a valid cidr (ipv4 or ipv6)"

-- `NetworkAddr`, over what the three parsers read
pub data NetworkAddr (Ip V4 V6 : Type 0) : Type 0 where
  ip : Ip → NetworkAddr Ip V4 V6
  cidr_ipv4 : V4 → NetworkAddr Ip V4 V6
  cidr_ipv6 : V6 → NetworkAddr Ip V4 V6

unfoldable pub ip_or_cidr :
    {Ip V4 V6 : Type 0}
    → (String → Option Ip)
    → (String → Option V4)
    → (String → Option V6)
    → String
    → NetworkAddr Ip V4 V6 ⊎ String
ip_or_cidr read_ip read_v4 read_v6 s = elim (read_ip s) [
  | some ipaddr ↦ inl (NetworkAddr.ip ipaddr)
  | none ↦ elim (read_v4 s) [
    | some ipv4cidr ↦ inl (NetworkAddr.cidr_ipv4 ipv4cidr)
    | none ↦ elim (read_v6 s) [
      | some ipv6cidr ↦ inl (NetworkAddr.cidr_ipv6 ipv6cidr)
      | none ↦ inr trust_proxy_parse_error
    ]
  ]
]

-- the arguments that choose a backup
pub record DataArgs : Type 0 where
  pub redis : Option RedisArgs
  pub s3_bucket_name : Option (Option String)
  pub backup_folder : Option String

-- the backup that is chosen, before a connection to it
pub data DataSource : Type 0 where
  redis_single : String → ℕ → ℕ → DataSource
  redis_cluster : List String → ℕ → ℕ → DataSource
  s3 : String → DataSource
  folder : String → DataSource

-- `get_data_source`; `connects` tells whether a Redis client can be built
unfoldable pub get_data_source :
    RedisUrls → (DataSource → Bool) → DataArgs → Option (Option DataSource)
get_data_source c connects args = elim args.redis [
  | some redis_args ↦ do
    url ← elim redis_args.redis_mode [
      | RedisMode.single ↦ to_url c redis_args >>= (λ found. found >>= (λ url.
          some (DataSource.redis_single url (read_timeout redis_args) (write_timeout redis_args))))
      | RedisMode.cluster ↦ redis_args.redis_url >>= (λ urls.
          some (DataSource.redis_cluster urls (read_timeout redis_args) (write_timeout redis_args)))
    ]
    if connects url then some (some url) else none
  | none ↦ elim args.s3_bucket_name [
    | some bucket ↦ bucket >>= (λ name. some (some (DataSource.s3 name)))
    | none ↦ some (Option.map (λ backup_folder. DataSource.folder backup_folder) args.backup_folder)
  ]
]
