-- ===== src/Examples/Configs.antt =====
-- The settings of a file.
use game_login.Base.{
  ℕ, ◌≡◌, refl, sym, Bool, true, false, ◌||◌, List, [], ◌∷◌, Option, none, some, arith, All,
  if◌then◌else◌, length,
}
use game_login.Settings.File.{same_text, lower, StringMap, get}
use game_login.Settings.File.RoundTrip.{print, value_of}
use game_login.Settings.Reactivation.{cleared}
use game_login.Settings.Load.{Config, Scanned, load_config}
use game_login.Settings.Load.Entries.{IsEntry, lines_of}
use game_login.Settings.Load.Listed.{entries}
use game_login.Settings.Load.Written.{loaded, load_config-print}
use game_login.Settings.Names.{
  server_port_key, socket_time_out_key, log_directory_key, use_logd_key, logd_ip_key,
  reactivation_start_key, free_server_key,
}

abbrev log_text : List ℕ
log_text = b'l' ∷ b'o' ∷ b'g' ∷ []

-- `1.0`, in place of the text of 127.0.0.1.
abbrev address_text : List ℕ
address_text = b'1' ∷ b'.' ∷ b'0' ∷ []

abbrev inet_addr : List ℕ → ℕ
inet_addr t = if same_text t address_text then 0x0100007f else 0xffffffff

abbrev inet_ntoa : ℕ → List ℕ
inet_ntoa a = address_text

abbrev sscanf : List ℕ → Scanned
sscanf t = some (11, 30, 2004, 12, length t)

abbrev files : ℕ → Option (List ℕ)
files i = none

abbrev cfg : Config
cfg = record {
  server_port = 2106;
  server_ex_port = 0;
  server_int_port = 0;
  world_port = 0;
  num_db_conn = 0;
  num_server_thread = 0;
  num_server_int_thread = 0;
  game_id = 0;
  socket_time_out = 30000;
  socket_limit = 0;
  accept_call_num = 0;
  waiting_user_limit = 0;
  packet_size_type = 0;
  encrypt = false;
  log_directory = some log_text;
  protocol_ver = 0;
  des_apply = false;
  read_local_server_list = false;
  one_time_log_out = false;
  gm_check_mode = false;
  country = 0;
  user_data = false;
  dev_ip = none;
  dump_packet = true;
  pc_cafe_first = false;
  use_ip_server = false;
  ip_server = 0;
  ip_port = 0;
  ip_connect_interval = 0;
  use_logd = true;
  logd_ip = 0x0100007f;
  logd_port = 0;
  logd_reconnect_interval = 60000;
  restrict_gm_ip = false;
  gm_ip = 0;
  use_wanted_system = false;
  wanted_ip = 0;
  wanted_port = 2122;
  wanted_reconnect_interval = 1800000;
  reactivation = 0;
  reactivation_value = 1012;
  reactivation_start = cleared;
  reactivation_end = cleared;
  ip_access_limit = 0;
  free_server = false;
  hybrid_server = false;
  use_forbidden_ip_list = false;
  support_reconnect = false;
  game_server_specifies_id = false;
  allow_unknown_servers = false;
  use_queue = true;
  send_queue_level = true;
  pay_stat_override = 0xffffffff;
  enable_verbose_logging = false;
  enable_debug_logging = false;
  server_version = 0;
  map = [];
  map_resource = [];
}

-- The settings in the file.
abbrev kept : List ℕ → Bool
kept k =
    same_text k server_port_key
    || same_text k socket_time_out_key
    || same_text k log_directory_key
    || same_text k use_logd_key
    || same_text k logd_ip_key
    || same_text k free_server_key
    || same_text k reactivation_start_key

abbrev start : Option (List ℕ)
start = some log_text

cfg-IsEntry : All (IsEntry inet_ntoa kept inet_addr) (entries cfg start none)
unfolding same_text lower
cfg-IsEntry = (
  (λ y. omega arith, λ n. absurd (no n)),
  (
    (λ y. absurd (no (sym y)), λ n. refl),
    (
      (λ y. absurd (no (sym y)), λ n. refl),
      (
        (λ y. absurd (no (sym y)), λ n. refl),
        (
          (λ y. absurd (no (sym y)), λ n. refl),
          (
            (λ y. absurd (no (sym y)), λ n. refl),
            (
              (λ y. absurd (no (sym y)), λ n. refl),
              (
                (λ y. absurd (no (sym y)), λ n. refl),
                (
                  (λ y. omega arith, λ n. absurd (no n)),
                  (
                    (λ y. absurd (no (sym y)), λ n. refl),
                    (
                      (λ y. absurd (no (sym y)), λ n. refl),
                      (
                        (λ y. absurd (no (sym y)), λ n. refl),
                        (
                          (λ y. absurd (no (sym y)), λ n. refl),
                          (
                            (
                              λ y. (
                                (
                                  (refl, refl, refl),
                                  ((refl, refl, refl), ((refl, refl, refl), tt)),
                                ),
                                omega arith,
                              ),
                              λ n. absurd (no n),
                            ),
                            (
                              (λ y. absurd (no (sym y)), λ n. refl),
                              (
                                (λ y. absurd (no (sym y)), λ n. refl),
                                (
                                  (λ y. absurd (no (sym y)), λ n. refl),
                                  (
                                    (λ y. absurd (no (sym y)), λ n. refl),
                                    (
                                      (λ y. absurd (no (sym y)), λ n. refl),
                                      (
                                        (λ y. absurd (no (sym y)), λ n. refl),
                                        (
                                          (λ y. absurd (no (sym y)), λ n. refl),
                                          (
                                            (λ y. absurd (no (sym y)), λ n. refl),
                                            (
                                              (λ y. absurd (no (sym y)), λ n. refl),
                                              (
                                                (λ y. absurd (no (sym y)), λ n. refl),
                                                (
                                                  (λ y. absurd (no (sym y)), λ n. refl),
                                                  (
                                                    (λ y. absurd (no (sym y)), λ n. refl),
                                                    (
                                                      (λ y. absurd (no (sym y)), λ n. refl),
                                                      (
                                                        (λ y. absurd (no (sym y)), λ n. refl),
                                                        (
                                                          (λ y. tt, λ n. absurd (no n)),
                                                          (
                                                            (
                                                            λ y. (
                                                            (
                                                            (refl, refl, refl),
                                                            (
                                                            (refl, refl, refl),
                                                            ((refl, refl, refl), tt),
                                                            ),
                                                            ),
                                                            omega arith,
                                                            refl,
                                                            ),
                                                            λ n. absurd (no n),
                                                            ),
                                                            (
                                                            (λ y. absurd (no (sym y)), λ n. refl),
                                                            (
                                                            (λ y. absurd (no (sym y)), λ n. refl),
                                                            (
                                                            (λ y. absurd (no (sym y)), λ n. refl),
                                                            (
                                                            (λ y. absurd (no (sym y)), λ n. refl),
                                                            (
                                                            (λ y. absurd (no (sym y)), λ n. refl),
                                                            (
                                                            (λ y. absurd (no (sym y)), λ n. refl),
                                                            (
                                                            (λ y. absurd (no (sym y)), λ n. refl),
                                                            (
                                                            (λ y. absurd (no (sym y)), λ n. refl),
                                                            (
                                                            (λ y. absurd (no (sym y)), λ n. refl),
                                                            (
                                                            (λ y. absurd (no (sym y)), λ n. refl),
                                                            (
                                                            (
                                                            λ y. (
                                                            (
                                                            (refl, refl, refl),
                                                            (
                                                            (refl, refl, refl),
                                                            ((refl, refl, refl), tt),
                                                            ),
                                                            ),
                                                            omega arith,
                                                            ),
                                                            λ n. absurd (no n),
                                                            ),
                                                            (
                                                            (λ y. absurd (no (sym y)), λ n. refl),
                                                            (
                                                            (λ y. absurd (no (sym y)), λ n. refl),
                                                            (
                                                            (λ y. tt, λ n. absurd (no n)),
                                                            (
                                                            (λ y. absurd (no (sym y)), λ n. refl),
                                                            (
                                                            (λ y. absurd (no (sym y)), λ n. refl),
                                                            (
                                                            (λ y. absurd (no (sym y)), λ n. refl),
                                                            (
                                                            (λ y. absurd (no (sym y)), λ n. refl),
                                                            (
                                                            (λ y. absurd (no (sym y)), λ n. refl),
                                                            (
                                                            (λ y. absurd (no (sym y)), λ n. refl),
                                                            (
                                                            (λ y. absurd (no (sym y)), λ n. refl),
                                                            (
                                                            (λ y. absurd (no (sym y)), λ n. refl),
                                                            (
                                                            (λ y. absurd (no (sym y)), λ n. refl),
                                                            (
                                                            (λ y. absurd (no (sym y)), λ n. refl),
                                                            (
                                                            (λ y. absurd (no (sym y)), λ n. refl),
                                                            tt,
                                                            ),
                                                            ),
                                                            ),
                                                            ),
                                                            ),
                                                            ),
                                                            ),
                                                            ),
                                                            ),
                                                            ),
                                                            ),
                                                            ),
                                                            ),
                                                            ),
                                                            ),
                                                            ),
                                                            ),
                                                            ),
                                                            ),
                                                            ),
                                                            ),
                                                            ),
                                                            ),
                                                            ),
                                                            ),
                                                          ),
                                                        ),
                                                      ),
                                                    ),
                                                  ),
                                                ),
                                              ),
                                            ),
                                          ),
                                        ),
                                      ),
                                    ),
                                  ),
                                ),
                              ),
                            ),
                          ),
                        ),
                      ),
                    ),
                  ),
                ),
              ),
            ),
          ),
        ),
      ),
    ),
  ),
)
  where
    no : true ≡ false → ⊥
    no h = cc

load_config-print_example :
    (map : StringMap) × (load_config inet_addr sscanf files []
        (some (print (lines_of inet_ntoa kept (entries cfg start none))))
        cfg
      ≡ some (true, loaded sscanf files start none cfg map []))
    × ((key : List ℕ)
        → get key map ≡ value_of key (lines_of inet_ntoa kept (entries cfg start none)))
load_config-print_example =
    load_config-print inet_addr inet_ntoa sscanf files kept cfg start none [] cfg cfg-IsEntry
      (record {
        timeout = (refl, omega arith);
        ip = (refl, omega arith);
        logd = (refl, omega arith);
        wanted = (refl, omega arith);
      })
      refl (unfold print lines_of same_text lower in omega arith)
