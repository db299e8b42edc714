-- ===== src/Settings/Load/Listed.antt =====
-- The settings of `Config::Load` of src/AuthServer/Config.cpp, with the member of `Config` that each is for,
-- and its default.
use game_login.Base.{ℕ, ◌/◌, Bool, true, false, List, [], ◌∷◌, Option, none}
use game_login.Settings.Load.{Config}
use game_login.Settings.Load.Entries.{Entry, number, flag, text, address}
use game_login.Settings.Names.{
  server_port_key, server_ex_port_key, server_int_port_key, world_port_key, num_db_conn_key,
  num_server_thread_key, num_server_int_thread_key, game_id_key, socket_time_out_key,
  socket_limit_key, accept_call_num_key, waiting_user_limit_key, encrypt_key, log_directory_key,
  protocol_ver_key, des_apply_key, read_local_server_list_key, one_time_log_out_key,
  gm_check_mode_key, country_key, user_data_key, dev_ip_key, dump_packet_key, pc_cafe_first_key,
  use_ip_server_key, ip_server_key, ip_port_key, ip_connect_interval_key, use_logd_key, logd_ip_key,
  logd_port_key, logd_reconnect_interval_key, restrict_gm_ip_key, gm_ip_key, use_wanted_system_key,
  wanted_ip_key, wanted_port_key, wanted_reconnect_interval_key, reactivation_key,
  reactivation_value_key, reactivation_start_key, reactivation_end_key, ip_access_limit_key,
  free_server_key, hybrid_server_key, use_forbidden_ip_list_key, support_reconnect_key,
  game_server_specifies_id_key, allow_unknown_servers_key, use_queue_key, send_queue_level_key,
  pay_stat_override_key, enable_verbose_logging_key, enable_debug_logging_key, server_version_key,
}

abbrev pub int_of : List ℕ → ℕ → ℕ → Entry
int_of k n d = record { key = k; value = number n; default = number d }

abbrev pub bool_of : List ℕ → Bool → Bool → Entry
bool_of k b d = record { key = k; value = flag b; default = flag d }

abbrev pub string_of : List ℕ → Option (List ℕ) → Entry
string_of k t = record { key = k; value = text t; default = text none }

abbrev pub address_of : List ℕ → ℕ → Entry
address_of k a = record { key = k; value = address a; default = address 0 }

-- `start` and `end_` are the texts of the two dates.
abbrev pub entries : Config → Option (List ℕ) → Option (List ℕ) → List Entry
entries cfg start end_ =
    int_of server_port_key cfg.server_port 0
    ∷ int_of server_ex_port_key cfg.server_ex_port 0
    ∷ int_of server_int_port_key cfg.server_int_port 0
    ∷ int_of world_port_key cfg.world_port 0
    ∷ int_of num_db_conn_key cfg.num_db_conn 0
    ∷ int_of num_server_thread_key cfg.num_server_thread 0
    ∷ int_of num_server_int_thread_key cfg.num_server_int_thread 0
    ∷ int_of game_id_key cfg.game_id 0
    ∷ int_of socket_time_out_key (cfg.socket_time_out / 1000) 0
    ∷ int_of socket_limit_key cfg.socket_limit 0
    ∷ int_of accept_call_num_key cfg.accept_call_num 0
    ∷ int_of waiting_user_limit_key cfg.waiting_user_limit 0
    ∷ bool_of encrypt_key cfg.encrypt false
    ∷ string_of log_directory_key cfg.log_directory
    ∷ int_of protocol_ver_key cfg.protocol_ver 0
    ∷ bool_of des_apply_key cfg.des_apply false
    ∷ bool_of read_local_server_list_key cfg.read_local_server_list false
    ∷ bool_of one_time_log_out_key cfg.one_time_log_out false
    ∷ bool_of gm_check_mode_key cfg.gm_check_mode false
    ∷ int_of country_key cfg.country 0
    ∷ bool_of user_data_key cfg.user_data false
    ∷ string_of dev_ip_key cfg.dev_ip
    ∷ bool_of dump_packet_key cfg.dump_packet true
    ∷ bool_of pc_cafe_first_key cfg.pc_cafe_first false
    ∷ bool_of use_ip_server_key cfg.use_ip_server false
    ∷ address_of ip_server_key cfg.ip_server
    ∷ int_of ip_port_key cfg.ip_port 0
    ∷ int_of ip_connect_interval_key (cfg.ip_connect_interval / 1000) 0
    ∷ bool_of use_logd_key cfg.use_logd false
    ∷ address_of logd_ip_key cfg.logd_ip
    ∷ int_of logd_port_key cfg.logd_port 0
    ∷ int_of logd_reconnect_interval_key (cfg.logd_reconnect_interval / 1000) 60
    ∷ bool_of restrict_gm_ip_key cfg.restrict_gm_ip false
    ∷ address_of gm_ip_key cfg.gm_ip
    ∷ bool_of use_wanted_system_key cfg.use_wanted_system false
    ∷ address_of wanted_ip_key cfg.wanted_ip
    ∷ int_of wanted_port_key cfg.wanted_port 2122
    ∷ int_of wanted_reconnect_interval_key (cfg.wanted_reconnect_interval / 1000) 1800
    ∷ int_of reactivation_key cfg.reactivation 0
    ∷ int_of reactivation_value_key cfg.reactivation_value 1012
    ∷ string_of reactivation_start_key start
    ∷ string_of reactivation_end_key end_
    ∷ int_of ip_access_limit_key cfg.ip_access_limit 0
    ∷ bool_of free_server_key cfg.free_server false
    ∷ bool_of hybrid_server_key cfg.hybrid_server false
    ∷ bool_of use_forbidden_ip_list_key cfg.use_forbidden_ip_list false
    ∷ bool_of support_reconnect_key cfg.support_reconnect false
    ∷ bool_of game_server_specifies_id_key cfg.game_server_specifies_id false
    ∷ bool_of allow_unknown_servers_key cfg.allow_unknown_servers false
    ∷ bool_of use_queue_key cfg.use_queue true
    ∷ bool_of send_queue_level_key cfg.send_queue_level true
    ∷ int_of pay_stat_override_key cfg.pay_stat_override 0xffffffff
    ∷ bool_of enable_verbose_logging_key cfg.enable_verbose_logging false
    ∷ bool_of enable_debug_logging_key cfg.enable_debug_logging false
    ∷ int_of server_version_key cfg.server_version 0
    ∷ []
