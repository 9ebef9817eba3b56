-- ===== src/Daemon/Start.antt =====
-- core/redis.go: what redis is started with. None stands for the end of the program by log.Fatal.
use clue_getter.Prelude.{Bool, not, Option, none, some, List, [], ◌∷◌, if◌then◌else◌}
use clue_getter.Prelude.Text.{Text, text, is_empty, ◌==◌}

pub record RedisConfig : Type 0 where
  pub enabled : Bool
  pub host : List Text
  pub dump_dir : Text
  pub dump_key : List Text
  pub method : Text

-- How the client connects: to one host, or to the master that the sentinels name.
pub data Connection : Type 0 where
  standalone : Text → Connection
  sentinel : List Text → Connection

-- `redisNewClient`, for a list of hosts that is not empty.
unfoldable pub redis_new_client : Text → Text → List Text → Option Connection
unfolding ◌==◌
redis_new_client method first hosts =
    if method == text "standalone"
    then some (standalone first)
    else if method == text "sentinel"
    then some (sentinel (first ∷ hosts))
    else none

unfoldable pub compile_all : (Text → Option (Text → Bool)) → List Text → Option (List (Text → Bool))
compile_all compile [] = some []
compile_all compile (r ∷ rs) =
    let rest = compile_all compile rs in
    elim (compile r) [
      | none ↦ none
      | some matches ↦ elim rest [ none ↦ none | some more ↦ some (matches ∷ more) ]
    ]

abbrev or_default : List Text → List Text
or_default [] = text "^cluegetter!" ∷ []
or_default (r ∷ rs) = r ∷ rs

-- `redisDumpKeys`, with the compiler of regular expressions as a parameter.
unfoldable pub dump_keys : (Text → Option (Text → Bool)) → RedisConfig → Option (List (Text → Bool))
unfolding compile_all
dump_keys compile config =
    if is_empty config.dump_dir then some [] else compile_all compile (or_default config.dump_key)

abbrev pub connect :
    RedisConfig
    → Option (List (Text → Bool))
    → List Text
    → Option (Option (Connection × List (Text → Bool)))
unfolding redis_new_client
connect config keys [] = none
connect config none (first ∷ hosts) = none
connect config (some keys) (first ∷ hosts) = elim (redis_new_client config.method first hosts) [
  | none ↦ none
  | some connection ↦ some (some (connection, keys))
]

-- `redisStart`: nothing where redis is not enabled.
unfoldable pub redis_start :
    (Text → Option (Text → Bool)) → RedisConfig → Option (Option (Connection × List (Text → Bool)))
unfolding dump_keys
redis_start compile config =
    if not config.enabled then some none else connect config (dump_keys compile config) config.host
