-- ===== src/Settings/Load.antt =====
-- `Config::Load` of src/AuthServer/Config.cpp as a whole: the members of `Config`, each set from the
-- value of its key in the file. `inet_addr` and `sscanf` are the system's; `files` are the clients'
-- resources. A `const char *` is its bytes, `none` the null pointer.
pub mod Digits
pub mod Entries
pub mod Listed
pub mod Reading
pub mod Written
use game_login.Base.{
  ℕ, ◌*◌, ◌%◌, ◌^◌, Bool, true, false, ◌&&◌, List, [], ◌∷◌, Option, none, some, ltb, if◌then◌else◌,
}
use game_login.Clients.{Resources, load_resources}
use game_login.Settings.Reactivation.{SystemTime, cleared, load_period}
use game_login.Settings.File.{
  StringMap, get, get_bool, get_int, Loaded, done, overflow, stream_failed, unfinished, load_map,
}
use game_login.Settings.Names.{
  server_port_key, server_ex_port_key, server_int_port_key, world_port_key, num_db_conn_key,
  num_server_thread_key, num_server_int_thread_key, game_id_key, socket_time_out_key,
  socket_limit_key, accept_call_num_key, waiting_user_limit_key, encrypt_key, log_directory_key,
  protocol_ver_key, des_apply_key, read_local_server_list_key, one_time_log_out_key,
  gm_check_mode_key, country_key, user_data_key, dev_ip_key, dump_packet_key, pc_cafe_first_key,
  use_ip_server_key, ip_server_key, ip_port_key, ip_connect_interval_key, use_logd_key, logd_ip_key,
  logd_port_key, logd_reconnect_interval_key, restrict_gm_ip_key, gm_ip_key, use_wanted_system_key,
  wanted_ip_key, wanted_port_key, wanted_reconnect_interval_key, reactivation_key,
  reactivation_value_key, reactivation_start_key, reactivation_end_key, ip_access_limit_key,
  free_server_key, hybrid_server_key, use_forbidden_ip_list_key, support_reconnect_key,
  game_server_specifies_id_key, allow_unknown_servers_key, use_queue_key, send_queue_level_key,
  pay_stat_override_key, enable_verbose_logging_key, enable_debug_logging_key, server_version_key,
}

pub record Config : Type 0 where
  pub server_port : ℕ
  pub server_ex_port : ℕ
  pub server_int_port : ℕ
  pub world_port : ℕ
  pub num_db_conn : ℕ
  pub num_server_thread : ℕ
  pub num_server_int_thread : ℕ
  pub game_id : ℕ
  pub socket_time_out : ℕ
  pub socket_limit : ℕ
  pub accept_call_num : ℕ
  pub waiting_user_limit : ℕ
  pub packet_size_type : ℕ
  pub encrypt : Bool
  pub log_directory : Option (List ℕ)
  pub protocol_ver : ℕ
  pub des_apply : Bool
  pub read_local_server_list : Bool
  pub one_time_log_out : Bool
  pub gm_check_mode : Bool
  pub country : ℕ
  pub user_data : Bool
  pub dev_ip : Option (List ℕ)
  pub dump_packet : Bool
  pub pc_cafe_first : Bool
  pub use_ip_server : Bool
  pub ip_server : ℕ
  pub ip_port : ℕ
  pub ip_connect_interval : ℕ
  pub use_logd : Bool
  pub logd_ip : ℕ
  pub logd_port : ℕ
  pub logd_reconnect_interval : ℕ
  pub restrict_gm_ip : Bool
  pub gm_ip : ℕ
  pub use_wanted_system : Bool
  pub wanted_ip : ℕ
  pub wanted_port : ℕ
  pub wanted_reconnect_interval : ℕ
  pub reactivation : ℕ
  pub reactivation_value : ℕ
  pub reactivation_start : SystemTime
  pub reactivation_end : SystemTime
  pub ip_access_limit : ℕ
  pub free_server : Bool
  pub hybrid_server : Bool
  pub use_forbidden_ip_list : Bool
  pub support_reconnect : Bool
  pub game_server_specifies_id : Bool
  pub allow_unknown_servers : Bool
  pub use_queue : Bool
  pub send_queue_level : Bool
  pub pay_stat_override : ℕ
  pub enable_verbose_logging : Bool
  pub enable_debug_logging : Bool
  pub server_version : ℕ
  -- The private members `map` and `mapResource`.
  pub map : StringMap
  pub map_resource : Resources

-- `GetInetAddr`.
pub get_inet_addr : (List ℕ → ℕ) → List ℕ → StringMap → ℕ
get_inet_addr inet_addr key map = elim (get key map) [ none ↦ 0 | some value ↦ inet_addr value ]

-- What `sscanf` reads in a date: month, day, year, hour and minute; `none` if it reads fewer.
abbrev pub Scanned : Type 0
Scanned = Option (ℕ × ℕ × ℕ × ℕ × ℕ)

-- `DateTimestringToSystemTime`: its result 0 is `none`. The members of `SYSTEMTIME` are words.
pub date_timestring_to_system_time : (List ℕ → Scanned) → Option (List ℕ) → Option SystemTime
date_timestring_to_system_time sscanf none = none
date_timestring_to_system_time sscanf (some str) = elim (sscanf str) [
  | none ↦ none
  | some (month, day, year, hour, minute) ↦ some (record {
    year = year % 2 ^ 16;
    month = month % 2 ^ 16;
    day = day % 2 ^ 16;
    hour = hour % 2 ^ 16;
    minute = minute % 2 ^ 16;
  })
]

-- What `InitClientVersionRes`, called for a version above 0, makes of `mapResource`: it inserts into what
-- is there.
pub version_resources : (ℕ → Option (List ℕ)) → ℕ → Resources → Resources
version_resources files server_version old =
    if ltb 0 server_version && ltb server_version (2 ^ 31)
    then (load_resources files server_version 1 (true, old)).1
    else old

module _ (inet_addr : List ℕ → ℕ) (sscanf : List ℕ → Scanned) (files : ℕ → Option (List ℕ)) where
  -- The assignments, in a build without `_DEBUG`, from the map and the resources before.
  pub assign : StringMap → Resources → Config
  assign map old =
      let start = date_timestring_to_system_time sscanf (get reactivation_start_key map) in
      let end_ = date_timestring_to_system_time sscanf (get reactivation_end_key map) in
      let period = load_period start end_ in
      record {
        server_port = get_int server_port_key 0 map;
        server_ex_port = get_int server_ex_port_key 0 map;
        server_int_port = get_int server_int_port_key 0 map;
        world_port = get_int world_port_key 0 map;
        num_db_conn = get_int num_db_conn_key 0 map;
        num_server_thread = get_int num_server_thread_key 0 map;
        num_server_int_thread = get_int num_server_int_thread_key 0 map;
        game_id = get_int game_id_key 0 map;
        socket_time_out = get_int socket_time_out_key 0 map * 1000 % 2 ^ 32;
        socket_limit = get_int socket_limit_key 0 map;
        accept_call_num = get_int accept_call_num_key 0 map;
        waiting_user_limit = get_int waiting_user_limit_key 0 map;
        packet_size_type = 3;
        encrypt = get_bool encrypt_key false map;
        log_directory = get log_directory_key map;
        protocol_ver = get_int protocol_ver_key 0 map;
        des_apply = get_bool des_apply_key false map;
        read_local_server_list = get_bool read_local_server_list_key false map;
        one_time_log_out = get_bool one_time_log_out_key false map;
        gm_check_mode = get_bool gm_check_mode_key false map;
        country = get_int country_key 0 map;
        user_data = get_bool user_data_key false map;
        dev_ip = get dev_ip_key map;
        dump_packet = get_bool dump_packet_key true map;
        pc_cafe_first = get_bool pc_cafe_first_key false map;
        use_ip_server = get_bool use_ip_server_key false map;
        ip_server = get_inet_addr inet_addr ip_server_key map;
        ip_port = get_int ip_port_key 0 map;
        ip_connect_interval = get_int ip_connect_interval_key 0 map * 1000 % 2 ^ 32;
        use_logd = get_bool use_logd_key false map;
        logd_ip = get_inet_addr inet_addr logd_ip_key map;
        logd_port = get_int logd_port_key 0 map;
        logd_reconnect_interval = get_int logd_reconnect_interval_key 60 map * 1000 % 2 ^ 32;
        restrict_gm_ip = get_bool restrict_gm_ip_key false map;
        gm_ip = get_inet_addr inet_addr gm_ip_key map;
        use_wanted_system = get_bool use_wanted_system_key false map;
        wanted_ip = get_inet_addr inet_addr wanted_ip_key map;
        wanted_port = get_int wanted_port_key 2122 map;
        wanted_reconnect_interval = get_int wanted_reconnect_interval_key 1800 map * 1000 % 2 ^ 32;
        reactivation = get_int reactivation_key 0 map;
        reactivation_value = get_int reactivation_value_key 1012 map;
        reactivation_start = period.0;
        reactivation_end = period.1;
        ip_access_limit = get_int ip_access_limit_key 0 map;
        free_server = get_bool free_server_key false map;
        hybrid_server = get_bool hybrid_server_key false map;
        use_forbidden_ip_list = get_bool use_forbidden_ip_list_key false map;
        support_reconnect = get_bool support_reconnect_key false map;
        game_server_specifies_id = get_bool game_server_specifies_id_key false map;
        allow_unknown_servers = get_bool allow_unknown_servers_key false map;
        use_queue = get_bool use_queue_key true map;
        send_queue_level = get_bool send_queue_level_key true map;
        pay_stat_override = get_int pay_stat_override_key 0xffffffff map;
        enable_verbose_logging = get_bool enable_verbose_logging_key false map;
        enable_debug_logging = get_bool enable_debug_logging_key false map;
        server_version = get_int server_version_key 0 map;
        map = map;
        map_resource = version_resources files (get_int server_version_key 0 map) old;
      }

  -- What `Load` comes to with the bytes of the file, `none` if there is none, and the members before:
  -- `none` where the file has no bytes, a word goes past its array, or the stream fails.
  pub load_from : Resources → Loaded → Option (Bool × Config)
  load_from old (done map) = some (true, assign map old)
  load_from old overflow = none
  load_from old stream_failed = none
  load_from old unfinished = none

  pub load_config : List ℕ → Option (List ℕ) → Config → Option (Bool × Config)
  load_config key none config = some (false, config)
  load_config key (some cs) config = load_from config.map_resource (load_map key config.map cs)
