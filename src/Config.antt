-- ===== src/Config.antt =====
-- The configuration store of pkg/helpers/configStorage.go and the start of the server command,
-- cmd/goreverselb/server.go. The yaml and JSON encoders are a parameter; the file system is a map
-- from names to contents. `AppConfig` is nil or the pointer to the one ConfigData of the program.
use goreverselb.Base.{
  Bool, Bytes, Map, Option, [], bytes_dec, bytes_key, codes, false, get, if◌then◌else◌, ite, length,
  nat_key, none, not, put, some, true, ℕ, ◌&&◌, ◌*◌, ◌==◌, ◌>>=◌, ◌∷◌,
}
use goreverselb.Types.{ConfigData, UserData, default_user_id}
pub mod Restart
pub mod Unreadable
pub mod Concrete
mod Tests

-- `none` is nil, or an error of the encoder. The decoder writes into what it is given; the Boolean
-- tells whether it reports no error.
pub record Codec : Type 0 where
  pub marshal : Option ConfigData → Option Bytes
  pub unmarshal : Bytes → ConfigData → ConfigData × Bool

pub record Codecs : Type 0 where
  pub yaml : Codec
  pub json : Codec

pub record ConfigFile : Type 0 where
  pub filename : Bytes
  pub app_config : Bool

pub record World : Type 0 where
  pub file : ConfigFile
  pub config : ConfigData
  pub disk : Map Bytes Bytes

no_byte : ℕ → Bytes → Bool
no_byte c [] = true
no_byte c (x ∷ s) = not (x == c) && no_byte c s

-- `path.Ext`: from the last dot behind the last slash.
unfoldable pub path_ext : Bytes → Bytes
unfolding no_byte
path_ext [] = []
path_ext (c ∷ s) =
    let rest = path_ext s in if length rest == 0 && c == b'.' && no_byte b'/' s then c ∷ s else rest

unfoldable pub codec_of : Codecs → Bytes → Codec
unfolding path_ext
codec_of k filename = ite (bytes_dec (path_ext filename) (codes ".yaml")) k.yaml k.json

-- What `a` points to.
abbrev pub pointed : Bool → ConfigData → Option ConfigData
pointed a config = if a then some config else none

-- `writes` tells whether WriteFile succeeds; where it does not, the file is taken to be as before.
write_file : Bool → Bytes → Bytes → Map Bytes Bytes → Map Bytes Bytes
write_file writes filename bytes disk = if writes then put filename bytes disk else disk

unfoldable pub after_marshal : Bool → Bool → Option Bytes → World → Bool × World
unfolding write_file
after_marshal writes a none w = (false, w)
after_marshal writes a (some bytes) w = (
  writes,
  record w {
    file = record w.file { app_config = a };
    disk = write_file writes w.file.filename bytes w.disk;
  },
)

-- Whether there is no error, and what is left.
unfoldable pub save_explicit : Codecs → Bool → Bool → World → Bool × World
unfolding after_marshal codec_of
save_explicit k writes a w =
    after_marshal writes a ((codec_of k w.file.filename).marshal (pointed a w.config)) w

unfoldable pub save : Codecs → Bool → World → Bool × World
unfolding save_explicit
save k writes w = save_explicit k writes w.file.app_config w

after_unmarshal : ConfigData × Bool → World → Bool × World
after_unmarshal (config, true) w =
    (true, record w { file = record w.file { app_config = true }; config = config })
after_unmarshal (config, false) w = (false, record w { config = config })

after_read : Codecs → Bool → Bool → ConfigData → Option Bytes → World → Bool × World
unfolding save_explicit after_unmarshal codec_of
after_read k writes overwrite initial none w =
    save_explicit k writes true (record w { config = initial })
after_read k writes overwrite initial (some bytes) w =
    if overwrite
    then save_explicit k writes true (record w { config = initial })
    else after_unmarshal ((codec_of k w.file.filename).unmarshal bytes w.config) w

-- LoadConfig with a callback that stores `initial`.
unfoldable pub load_config : Codecs → Bool → Bool → ConfigData → World → Bool × World
unfolding after_read
load_config k writes overwrite initial w =
    after_read k writes overwrite initial (get w.file.filename w.disk) w

abbrev pub store_name : Bytes
store_name = codes "user_store.yaml"

abbrev pub initial_config : ConfigData
initial_config = record {
  users =
      (
        default_user_id,
        record {
          user_id = default_user_id;
          token = [];
          role = [];
          services = [];
          allowed_sources = codes "*";
        },
      )
      ∷ [];
}

abbrev pub at_start : Map Bytes Bytes → World
at_start disk = record {
  file = record { filename = store_name; app_config = false };
  config = record { users = [] };
  disk = disk;
}

-- `configData.Users[tunnel.DefaultUserID].Token = cfg.Token`, which panics without that user.
unfoldable pub set_token : Bytes → ConfigData → Option ConfigData
set_token token config = do
  u ← get default_user_id config.users
  some (record { users = put default_user_id (record u { token = token }) config.users })

unfoldable pub after_token : Codecs → Bool → Option ConfigData → World → Option World
unfolding save
after_token k writes none w = none
after_token k writes (some config) w = some ((save k writes (record w { config = config })).1)

-- From the start of the server to the configuration that the tunnel service gets. The errors of
-- LoadConfig and of Save are dropped.
unfoldable pub start_up : Codecs → Bool → Bytes → Map Bytes Bytes → Option World
unfolding after_token set_token load_config
start_up k writes token disk =
    let w = (load_config k writes false initial_config (at_start disk)).1 in
    after_token k writes (set_token token w.config) w
