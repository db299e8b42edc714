-- ===== src/Settings/Names.antt =====
-- The keys that `Config::Load` of src/AuthServer/Config.cpp looks up, as bytes, each named for the
-- member of `Config` that it is for.
use game_login.Base.{ℕ, List, [], ◌∷◌}

abbrev pub server_port_key : List ℕ
server_port_key = b's' ∷ b'e' ∷ b'r' ∷ b'v' ∷ b'e' ∷ b'r' ∷ b'P' ∷ b'o' ∷ b'r' ∷ b't' ∷ []

abbrev pub server_ex_port_key : List ℕ
server_ex_port_key =
    b's' ∷ b'e' ∷ b'r' ∷ b'v' ∷ b'e' ∷ b'r' ∷ b'E' ∷ b'x' ∷ b'P' ∷ b'o' ∷ b'r' ∷ b't' ∷ []

abbrev pub server_int_port_key : List ℕ
server_int_port_key =
    b's' ∷ b'e' ∷ b'r' ∷ b'v' ∷ b'e' ∷ b'r' ∷ b'I' ∷ b'n' ∷ b't' ∷ b'P' ∷ b'o' ∷ b'r' ∷ b't' ∷ []

abbrev pub world_port_key : List ℕ
world_port_key = b'W' ∷ b'o' ∷ b'r' ∷ b'l' ∷ b'd' ∷ b'P' ∷ b'o' ∷ b'r' ∷ b't' ∷ []

abbrev pub num_db_conn_key : List ℕ
num_db_conn_key =
    b'D' ∷ b'B' ∷ b'C' ∷ b'o' ∷ b'n' ∷ b'n' ∷ b'e' ∷ b'c' ∷ b't' ∷ b'i' ∷ b'o' ∷ b'n' ∷ b'N' ∷ b'u'
    ∷ b'm' ∷ []

abbrev pub num_server_thread_key : List ℕ
num_server_thread_key =
    b'n' ∷ b'u' ∷ b'm' ∷ b'S' ∷ b'e' ∷ b'r' ∷ b'v' ∷ b'e' ∷ b'r' ∷ b'T' ∷ b'h' ∷ b'r' ∷ b'e' ∷ b'a'
    ∷ b'd' ∷ []

abbrev pub num_server_int_thread_key : List ℕ
num_server_int_thread_key =
    b'n' ∷ b'u' ∷ b'm' ∷ b'S' ∷ b'e' ∷ b'r' ∷ b'v' ∷ b'e' ∷ b'r' ∷ b'I' ∷ b'n' ∷ b't' ∷ b'T' ∷ b'h'
    ∷ b'r' ∷ b'e' ∷ b'a' ∷ b'd' ∷ []

abbrev pub game_id_key : List ℕ
game_id_key = b'G' ∷ b'a' ∷ b'm' ∷ b'e' ∷ b'I' ∷ b'D' ∷ []

abbrev pub socket_time_out_key : List ℕ
socket_time_out_key =
    b'S' ∷ b'o' ∷ b'c' ∷ b'k' ∷ b'e' ∷ b't' ∷ b'T' ∷ b'i' ∷ b'm' ∷ b'e' ∷ b'O' ∷ b'u' ∷ b't' ∷ []

abbrev pub socket_limit_key : List ℕ
socket_limit_key = b'S' ∷ b'o' ∷ b'c' ∷ b'k' ∷ b'e' ∷ b't' ∷ b'L' ∷ b'i' ∷ b'm' ∷ b'i' ∷ b't' ∷ []

abbrev pub accept_call_num_key : List ℕ
accept_call_num_key =
    b'A' ∷ b'c' ∷ b'c' ∷ b'e' ∷ b'p' ∷ b't' ∷ b'C' ∷ b'a' ∷ b'l' ∷ b'l' ∷ b'N' ∷ b'u' ∷ b'm' ∷ []

abbrev pub waiting_user_limit_key : List ℕ
waiting_user_limit_key =
    b'W' ∷ b'a' ∷ b'i' ∷ b't' ∷ b'i' ∷ b'n' ∷ b'g' ∷ b'U' ∷ b's' ∷ b'e' ∷ b'r' ∷ b'L' ∷ b'i' ∷ b'm'
    ∷ b'i' ∷ b't' ∷ []

abbrev pub encrypt_key : List ℕ
encrypt_key = b'E' ∷ b'n' ∷ b'c' ∷ b'r' ∷ b'y' ∷ b'p' ∷ b't' ∷ []

abbrev pub log_directory_key : List ℕ
log_directory_key =
    b'l' ∷ b'o' ∷ b'g' ∷ b'D' ∷ b'i' ∷ b'r' ∷ b'e' ∷ b'c' ∷ b't' ∷ b'o' ∷ b'r' ∷ b'y' ∷ []

abbrev pub protocol_ver_key : List ℕ
protocol_ver_key =
    b'P' ∷ b'r' ∷ b'o' ∷ b't' ∷ b'o' ∷ b'c' ∷ b'o' ∷ b'l' ∷ b'V' ∷ b'e' ∷ b'r' ∷ b's' ∷ b'i' ∷ b'o'
    ∷ b'n' ∷ []

abbrev pub des_apply_key : List ℕ
des_apply_key = b'D' ∷ b'e' ∷ b's' ∷ b'A' ∷ b'p' ∷ b'p' ∷ b'l' ∷ b'y' ∷ []

abbrev pub read_local_server_list_key : List ℕ
read_local_server_list_key =
    b'R' ∷ b'e' ∷ b'a' ∷ b'd' ∷ b'L' ∷ b'o' ∷ b'c' ∷ b'a' ∷ b'l' ∷ b'S' ∷ b'e' ∷ b'r' ∷ b'v' ∷ b'e'
    ∷ b'r' ∷ b'L' ∷ b'i' ∷ b's' ∷ b't' ∷ []

abbrev pub one_time_log_out_key : List ℕ
one_time_log_out_key =
    b'O' ∷ b'n' ∷ b'e' ∷ b'T' ∷ b'i' ∷ b'm' ∷ b'e' ∷ b'L' ∷ b'o' ∷ b'g' ∷ b'O' ∷ b'u' ∷ b't' ∷ []

abbrev pub gm_check_mode_key : List ℕ
gm_check_mode_key = b'G' ∷ b'M' ∷ b'C' ∷ b'h' ∷ b'e' ∷ b'c' ∷ b'k' ∷ b'M' ∷ b'o' ∷ b'd' ∷ b'e' ∷ []

abbrev pub country_key : List ℕ
country_key = b'C' ∷ b'o' ∷ b'u' ∷ b'n' ∷ b't' ∷ b'r' ∷ b'y' ∷ b'C' ∷ b'o' ∷ b'd' ∷ b'e' ∷ []

abbrev pub user_data_key : List ℕ
user_data_key = b'U' ∷ b's' ∷ b'e' ∷ b'r' ∷ b'D' ∷ b'a' ∷ b't' ∷ b'a' ∷ []

abbrev pub dev_ip_key : List ℕ
dev_ip_key = b'D' ∷ b'e' ∷ b'v' ∷ b'S' ∷ b'e' ∷ b'r' ∷ b'v' ∷ b'e' ∷ b'r' ∷ b'I' ∷ b'P' ∷ []

abbrev pub dump_packet_key : List ℕ
dump_packet_key = b'D' ∷ b'u' ∷ b'm' ∷ b'p' ∷ b'P' ∷ b'a' ∷ b'c' ∷ b'k' ∷ b'e' ∷ b't' ∷ []

abbrev pub pc_cafe_first_key : List ℕ
pc_cafe_first_key = b'P' ∷ b'C' ∷ b'C' ∷ b'a' ∷ b'f' ∷ b'e' ∷ b'F' ∷ b'i' ∷ b'r' ∷ b's' ∷ b't' ∷ []

abbrev pub use_ip_server_key : List ℕ
use_ip_server_key = b'U' ∷ b's' ∷ b'e' ∷ b'I' ∷ b'P' ∷ b'S' ∷ b'e' ∷ b'r' ∷ b'v' ∷ b'e' ∷ b'r' ∷ []

abbrev pub ip_server_key : List ℕ
ip_server_key = b'I' ∷ b'P' ∷ b'S' ∷ b'e' ∷ b'r' ∷ b'v' ∷ b'e' ∷ b'r' ∷ []

abbrev pub ip_port_key : List ℕ
ip_port_key = b'I' ∷ b'P' ∷ b'P' ∷ b'o' ∷ b'r' ∷ b't' ∷ []

abbrev pub ip_connect_interval_key : List ℕ
ip_connect_interval_key = b'I' ∷ b'P' ∷ b'I' ∷ b'n' ∷ b't' ∷ b'e' ∷ b'r' ∷ b'v' ∷ b'a' ∷ b'l' ∷ []

abbrev pub use_logd_key : List ℕ
use_logd_key = b'u' ∷ b's' ∷ b'e' ∷ b'l' ∷ b'o' ∷ b'g' ∷ b'd' ∷ []

abbrev pub logd_ip_key : List ℕ
logd_ip_key = b'l' ∷ b'o' ∷ b'g' ∷ b'd' ∷ b'i' ∷ b'p' ∷ []

abbrev pub logd_port_key : List ℕ
logd_port_key = b'l' ∷ b'o' ∷ b'g' ∷ b'd' ∷ b'p' ∷ b'o' ∷ b'r' ∷ b't' ∷ []

abbrev pub logd_reconnect_interval_key : List ℕ
logd_reconnect_interval_key =
    b'l' ∷ b'o' ∷ b'g' ∷ b'd' ∷ b'c' ∷ b'o' ∷ b'n' ∷ b'n' ∷ b'e' ∷ b'c' ∷ b't' ∷ b'i' ∷ b'n' ∷ b't'
    ∷ b'e' ∷ b'r' ∷ b'v' ∷ b'a' ∷ b'l' ∷ []

abbrev pub restrict_gm_ip_key : List ℕ
restrict_gm_ip_key =
    b'R' ∷ b'e' ∷ b's' ∷ b't' ∷ b'r' ∷ b'i' ∷ b'c' ∷ b't' ∷ b'G' ∷ b'M' ∷ b'I' ∷ b'P' ∷ []

abbrev pub gm_ip_key : List ℕ
gm_ip_key = b'G' ∷ b'M' ∷ b'I' ∷ b'P' ∷ []

abbrev pub use_wanted_system_key : List ℕ
use_wanted_system_key =
    b'U' ∷ b's' ∷ b'e' ∷ b'W' ∷ b'a' ∷ b'n' ∷ b't' ∷ b'e' ∷ b'd' ∷ b'S' ∷ b'y' ∷ b's' ∷ b't' ∷ b'e'
    ∷ b'm' ∷ []

abbrev pub wanted_ip_key : List ℕ
wanted_ip_key = b'W' ∷ b'a' ∷ b'n' ∷ b't' ∷ b'e' ∷ b'd' ∷ b'I' ∷ b'P' ∷ []

abbrev pub wanted_port_key : List ℕ
wanted_port_key = b'W' ∷ b'a' ∷ b'n' ∷ b't' ∷ b'e' ∷ b'd' ∷ b'P' ∷ b'o' ∷ b'r' ∷ b't' ∷ []

abbrev pub wanted_reconnect_interval_key : List ℕ
wanted_reconnect_interval_key =
    b'W' ∷ b'a' ∷ b'n' ∷ b't' ∷ b'e' ∷ b'd' ∷ b'R' ∷ b'e' ∷ b'c' ∷ b'o' ∷ b'n' ∷ b'n' ∷ b'e' ∷ b'c'
    ∷ b't' ∷ b'I' ∷ b'n' ∷ b't' ∷ b'e' ∷ b'r' ∷ b'v' ∷ b'a' ∷ b'l' ∷ []

abbrev pub reactivation_key : List ℕ
reactivation_key =
    b'R' ∷ b'e' ∷ b'a' ∷ b'c' ∷ b't' ∷ b'i' ∷ b'v' ∷ b'a' ∷ b't' ∷ b'i' ∷ b'o' ∷ b'n' ∷ []

abbrev pub reactivation_value_key : List ℕ
reactivation_value_key =
    b'R' ∷ b'e' ∷ b'a' ∷ b'c' ∷ b't' ∷ b'i' ∷ b'v' ∷ b'a' ∷ b't' ∷ b'i' ∷ b'o' ∷ b'n' ∷ b'V' ∷ b'a'
    ∷ b'l' ∷ b'u' ∷ b'e' ∷ []

abbrev pub reactivation_start_key : List ℕ
reactivation_start_key =
    b'R' ∷ b'e' ∷ b'a' ∷ b'c' ∷ b't' ∷ b'i' ∷ b'v' ∷ b'a' ∷ b't' ∷ b'i' ∷ b'o' ∷ b'n' ∷ b'S' ∷ b't'
    ∷ b'a' ∷ b'r' ∷ b't' ∷ []

abbrev pub reactivation_end_key : List ℕ
reactivation_end_key =
    b'R' ∷ b'e' ∷ b'a' ∷ b'c' ∷ b't' ∷ b'i' ∷ b'v' ∷ b'a' ∷ b't' ∷ b'i' ∷ b'o' ∷ b'n' ∷ b'E' ∷ b'n'
    ∷ b'd' ∷ []

abbrev pub ip_access_limit_key : List ℕ
ip_access_limit_key =
    b'I' ∷ b'P' ∷ b'A' ∷ b'c' ∷ b'c' ∷ b'e' ∷ b's' ∷ b's' ∷ b'L' ∷ b'i' ∷ b'm' ∷ b'i' ∷ b't' ∷ []

abbrev pub free_server_key : List ℕ
free_server_key = b'F' ∷ b'r' ∷ b'e' ∷ b'e' ∷ b'S' ∷ b'e' ∷ b'r' ∷ b'v' ∷ b'e' ∷ b'r' ∷ []

abbrev pub hybrid_server_key : List ℕ
hybrid_server_key =
    b'H' ∷ b'y' ∷ b'b' ∷ b'r' ∷ b'i' ∷ b'd' ∷ b'S' ∷ b'e' ∷ b'r' ∷ b'v' ∷ b'e' ∷ b'r' ∷ []

abbrev pub use_forbidden_ip_list_key : List ℕ
use_forbidden_ip_list_key =
    b'u' ∷ b's' ∷ b'e' ∷ b'F' ∷ b'o' ∷ b'r' ∷ b'b' ∷ b'i' ∷ b'd' ∷ b'd' ∷ b'e' ∷ b'n' ∷ b'I' ∷ b'P'
    ∷ b'L' ∷ b'i' ∷ b's' ∷ b't' ∷ []

abbrev pub support_reconnect_key : List ℕ
support_reconnect_key =
    b's' ∷ b'u' ∷ b'p' ∷ b'p' ∷ b'o' ∷ b'r' ∷ b't' ∷ b'R' ∷ b'e' ∷ b'c' ∷ b'o' ∷ b'n' ∷ b'n' ∷ b'e'
    ∷ b'c' ∷ b't' ∷ []

abbrev pub game_server_specifies_id_key : List ℕ
game_server_specifies_id_key =
    b'g' ∷ b'a' ∷ b'm' ∷ b'e' ∷ b'S' ∷ b'e' ∷ b'r' ∷ b'v' ∷ b'e' ∷ b'r' ∷ b'S' ∷ b'p' ∷ b'e' ∷ b'c'
    ∷ b'i' ∷ b'f' ∷ b'i' ∷ b'e' ∷ b's' ∷ b'I' ∷ b'd' ∷ []

abbrev pub allow_unknown_servers_key : List ℕ
allow_unknown_servers_key =
    b'a' ∷ b'l' ∷ b'l' ∷ b'o' ∷ b'w' ∷ b'U' ∷ b'n' ∷ b'k' ∷ b'n' ∷ b'o' ∷ b'w' ∷ b'n' ∷ b'S' ∷ b'e'
    ∷ b'r' ∷ b'v' ∷ b'e' ∷ b'r' ∷ b's' ∷ []

abbrev pub use_queue_key : List ℕ
use_queue_key = b'u' ∷ b's' ∷ b'e' ∷ b'Q' ∷ b'u' ∷ b'e' ∷ b'u' ∷ b'e' ∷ []

abbrev pub send_queue_level_key : List ℕ
send_queue_level_key =
    b's' ∷ b'e' ∷ b'n' ∷ b'd' ∷ b'Q' ∷ b'u' ∷ b'e' ∷ b'u' ∷ b'e' ∷ b'L' ∷ b'e' ∷ b'v' ∷ b'e' ∷ b'l'
    ∷ []

abbrev pub pay_stat_override_key : List ℕ
pay_stat_override_key =
    b'P' ∷ b'a' ∷ b'y' ∷ b'S' ∷ b't' ∷ b'a' ∷ b't' ∷ b'O' ∷ b'v' ∷ b'e' ∷ b'r' ∷ b'r' ∷ b'i' ∷ b'd'
    ∷ b'e' ∷ []

abbrev pub enable_verbose_logging_key : List ℕ
enable_verbose_logging_key =
    b'e' ∷ b'n' ∷ b'a' ∷ b'b' ∷ b'l' ∷ b'e' ∷ b'V' ∷ b'e' ∷ b'r' ∷ b'b' ∷ b'o' ∷ b's' ∷ b'e' ∷ b'L'
    ∷ b'o' ∷ b'g' ∷ b'g' ∷ b'i' ∷ b'n' ∷ b'g' ∷ []

abbrev pub enable_debug_logging_key : List ℕ
enable_debug_logging_key =
    b'e' ∷ b'n' ∷ b'a' ∷ b'b' ∷ b'l' ∷ b'e' ∷ b'D' ∷ b'e' ∷ b'b' ∷ b'u' ∷ b'g' ∷ b'L' ∷ b'o' ∷ b'g'
    ∷ b'g' ∷ b'i' ∷ b'n' ∷ b'g' ∷ []

abbrev pub server_version_key : List ℕ
server_version_key =
    b's' ∷ b'e' ∷ b'r' ∷ b'v' ∷ b'e' ∷ b'r' ∷ b'V' ∷ b'e' ∷ b'r' ∷ b's' ∷ b'i' ∷ b'o' ∷ b'n' ∷ []
