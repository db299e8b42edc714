-- ===== src/Settings/Load/Written.antt =====
-- A file that gives the members of `Config` one by one.
use game_login.Base.{
  ℕ, ◌*◌, ◌/◌, ◌%◌, ◌^◌, ◌<◌, ◌≡◌, refl, ap, ◌∙◌, Bool, true, false, List, [], Option, none, some,
  arith, All, All-get, get_elem?, length,
}
use game_login.Settings.File.{same_text, lower, StringMap, get, get_int, get_bool, load_map}
use game_login.Settings.File.RoundTrip.{print, value_of, load_map-print}
use game_login.Settings.Load.{
  Config, Scanned, date_timestring_to_system_time, get_inet_addr, version_resources, assign,
  load_from, load_config,
}
use game_login.Clients.{Resources}
use game_login.Settings.Reactivation.{load_period}
use game_login.Settings.Load.Entries.{
  Entry, IsEntry, lines_of, is_own, value_of-lines_of, lines_of-IsLine,
}
use game_login.Settings.Load.Reading.{
  get_int-IsEntry, get_bool-IsEntry, get-IsEntry, get_inet_addr-IsEntry,
}
use game_login.Settings.Load.Listed.{entries, int_of, bool_of, string_of, address_of}
use game_login.Settings.Names.{
  server_port_key, server_ex_port_key, server_int_port_key, world_port_key, num_db_conn_key,
  num_server_thread_key, num_server_int_thread_key, game_id_key, socket_time_out_key,
  socket_limit_key, accept_call_num_key, waiting_user_limit_key, encrypt_key, log_directory_key,
  protocol_ver_key, des_apply_key, read_local_server_list_key, one_time_log_out_key,
  gm_check_mode_key, country_key, user_data_key, dev_ip_key, dump_packet_key, pc_cafe_first_key,
  use_ip_server_key, ip_server_key, ip_port_key, ip_connect_interval_key, use_logd_key, logd_ip_key,
  logd_port_key, logd_reconnect_interval_key, restrict_gm_ip_key, gm_ip_key, use_wanted_system_key,
  wanted_ip_key, wanted_port_key, wanted_reconnect_interval_key, reactivation_key,
  reactivation_value_key, reactivation_start_key, reactivation_end_key, ip_access_limit_key,
  free_server_key, hybrid_server_key, use_forbidden_ip_list_key, support_reconnect_key,
  game_server_specifies_id_key, allow_unknown_servers_key, use_queue_key, send_queue_level_key,
  pay_stat_override_key, enable_verbose_logging_key, enable_debug_logging_key, server_version_key,
}

-- The members that a file gives in seconds.
abbrev IsMillis : ℕ → Type 0
IsMillis t = (t % 1000 ≡ 0) × (t < 2 ^ 32)

pub record IsConfig (cfg : Config) : Type 0 where
  pub timeout : IsMillis cfg.socket_time_out
  pub ip : IsMillis cfg.ip_connect_interval
  pub logd : IsMillis cfg.logd_reconnect_interval
  pub wanted : IsMillis cfg.wanted_reconnect_interval

-- The members that come of a file with the two dates, and of the number of the version, where the map
-- read is `map` and the resources before are `old`.
abbrev pub loaded :
    (List ℕ → Scanned)
    → (ℕ → Option (List ℕ))
    → Option (List ℕ)
    → Option (List ℕ)
    → Config
    → StringMap
    → Resources
    → Config
loaded sscanf files start end_ cfg map old =
    let period =
      load_period (date_timestring_to_system_time sscanf start)
        (date_timestring_to_system_time sscanf end_) in
    record cfg {
      packet_size_type = 3;
      reactivation_start = period.0;
      reactivation_end = period.1;
      map = map;
      map_resource = version_resources files cfg.server_version old;
    }

module _ (inet_addr : List ℕ → ℕ) (inet_ntoa : ℕ → List ℕ) (sscanf : List ℕ → Scanned)
    (files : ℕ → Option (List ℕ)) (kept : List ℕ → Bool) (cfg : Config)
    (start end_ : Option (List ℕ)) where
  abbrev settings : List Entry
  settings = entries cfg start end_

  module _ (map : StringMap) (h : All (IsEntry inet_ntoa kept inet_addr) settings)
      (e : (key : List ℕ) → get key map ≡ value_of key (lines_of inet_ntoa kept settings)) where
    int_at :
        (i : ℕ) (k : List ℕ) (n d : ℕ)
        → get_elem? settings i ≡ some (int_of k n d)
        → is_own inet_ntoa kept k i settings ≡ true
        → get_int k d map ≡ n
    int_at i k n d at own =
        get_int-IsEntry inet_ntoa kept inet_addr k n d map
          (All-get (IsEntry inet_ntoa kept inet_addr) settings i _ h at)
          (e k ∙ value_of-lines_of inet_ntoa kept i settings (int_of k n d) at own)

    bool_at :
        (i : ℕ) (k : List ℕ) (b d : Bool)
        → get_elem? settings i ≡ some (bool_of k b d)
        → is_own inet_ntoa kept k i settings ≡ true
        → get_bool k d map ≡ b
    bool_at i k b d at own =
        get_bool-IsEntry inet_ntoa kept inet_addr k b d map
          (All-get (IsEntry inet_ntoa kept inet_addr) settings i _ h at)
          (e k ∙ value_of-lines_of inet_ntoa kept i settings (bool_of k b d) at own)

    text_at :
        (i : ℕ) (k : List ℕ) (t : Option (List ℕ))
        → get_elem? settings i ≡ some (string_of k t)
        → is_own inet_ntoa kept k i settings ≡ true
        → get k map ≡ t
    text_at i k t at own =
        get-IsEntry inet_ntoa kept inet_addr k t map
          (All-get (IsEntry inet_ntoa kept inet_addr) settings i _ h at)
          (e k ∙ value_of-lines_of inet_ntoa kept i settings (string_of k t) at own)

    address_at :
        (i : ℕ) (k : List ℕ) (a : ℕ)
        → get_elem? settings i ≡ some (address_of k a)
        → is_own inet_ntoa kept k i settings ≡ true
        → get_inet_addr inet_addr k map ≡ a
    address_at i k a at own =
        get_inet_addr-IsEntry inet_ntoa kept inet_addr k a map
          (All-get (IsEntry inet_ntoa kept inet_addr) settings i _ h at)
          (e k ∙ value_of-lines_of inet_ntoa kept i settings (address_of k a) at own)

    millis_at :
        (i : ℕ) (k : List ℕ) (t d : ℕ)
        → get_elem? settings i ≡ some (int_of k (t / 1000) d)
        → is_own inet_ntoa kept k i settings ≡ true
        → IsMillis t
        → get_int k d map * 1000 % 2 ^ 32 ≡ t
    millis_at i k t d at own whole =
        ap (λ (s : ℕ). s * 1000 % 2 ^ 32) (int_at i k (t / 1000) d at own)
        ∙ omega (arith, whole.0, whole.1)

    assign-loaded :
        (old : Resources)
        → IsConfig cfg
        → assign inet_addr sscanf files map old ≡ loaded sscanf files start end_ cfg map old
    unfolding assign same_text lower
    assign-loaded old c =
        let from = text_at 40 reactivation_start_key start refl refl in
        let to = text_at 41 reactivation_end_key end_ refl refl in
        let version = int_at 54 server_version_key cfg.server_version 0 refl refl in
        λ i. record {
          server_port = int_at 0 server_port_key cfg.server_port 0 refl refl i;
          server_ex_port = int_at 1 server_ex_port_key cfg.server_ex_port 0 refl refl i;
          server_int_port = int_at 2 server_int_port_key cfg.server_int_port 0 refl refl i;
          world_port = int_at 3 world_port_key cfg.world_port 0 refl refl i;
          num_db_conn = int_at 4 num_db_conn_key cfg.num_db_conn 0 refl refl i;
          num_server_thread = int_at 5 num_server_thread_key cfg.num_server_thread 0 refl refl i;
          num_server_int_thread =
              int_at 6 num_server_int_thread_key cfg.num_server_int_thread 0 refl refl i;
          game_id = int_at 7 game_id_key cfg.game_id 0 refl refl i;
          socket_time_out =
              millis_at 8 socket_time_out_key cfg.socket_time_out 0 refl refl c.timeout i;
          socket_limit = int_at 9 socket_limit_key cfg.socket_limit 0 refl refl i;
          accept_call_num = int_at 10 accept_call_num_key cfg.accept_call_num 0 refl refl i;
          waiting_user_limit =
              int_at 11 waiting_user_limit_key cfg.waiting_user_limit 0 refl refl i;
          packet_size_type = 3;
          encrypt = bool_at 12 encrypt_key cfg.encrypt false refl refl i;
          log_directory = text_at 13 log_directory_key cfg.log_directory refl refl i;
          protocol_ver = int_at 14 protocol_ver_key cfg.protocol_ver 0 refl refl i;
          des_apply = bool_at 15 des_apply_key cfg.des_apply false refl refl i;
          read_local_server_list =
              bool_at 16 read_local_server_list_key cfg.read_local_server_list false refl refl i;
          one_time_log_out = bool_at 17 one_time_log_out_key cfg.one_time_log_out false refl refl i;
          gm_check_mode = bool_at 18 gm_check_mode_key cfg.gm_check_mode false refl refl i;
          country = int_at 19 country_key cfg.country 0 refl refl i;
          user_data = bool_at 20 user_data_key cfg.user_data false refl refl i;
          dev_ip = text_at 21 dev_ip_key cfg.dev_ip refl refl i;
          dump_packet = bool_at 22 dump_packet_key cfg.dump_packet true refl refl i;
          pc_cafe_first = bool_at 23 pc_cafe_first_key cfg.pc_cafe_first false refl refl i;
          use_ip_server = bool_at 24 use_ip_server_key cfg.use_ip_server false refl refl i;
          ip_server = address_at 25 ip_server_key cfg.ip_server refl refl i;
          ip_port = int_at 26 ip_port_key cfg.ip_port 0 refl refl i;
          ip_connect_interval =
              millis_at 27 ip_connect_interval_key cfg.ip_connect_interval 0 refl refl c.ip i;
          use_logd = bool_at 28 use_logd_key cfg.use_logd false refl refl i;
          logd_ip = address_at 29 logd_ip_key cfg.logd_ip refl refl i;
          logd_port = int_at 30 logd_port_key cfg.logd_port 0 refl refl i;
          logd_reconnect_interval =
              millis_at 31 logd_reconnect_interval_key cfg.logd_reconnect_interval 60 refl refl
                c.logd i;
          restrict_gm_ip = bool_at 32 restrict_gm_ip_key cfg.restrict_gm_ip false refl refl i;
          gm_ip = address_at 33 gm_ip_key cfg.gm_ip refl refl i;
          use_wanted_system =
              bool_at 34 use_wanted_system_key cfg.use_wanted_system false refl refl i;
          wanted_ip = address_at 35 wanted_ip_key cfg.wanted_ip refl refl i;
          wanted_port = int_at 36 wanted_port_key cfg.wanted_port 2122 refl refl i;
          wanted_reconnect_interval =
              millis_at 37 wanted_reconnect_interval_key cfg.wanted_reconnect_interval 1800 refl
                refl c.wanted i;
          reactivation = int_at 38 reactivation_key cfg.reactivation 0 refl refl i;
          reactivation_value =
              int_at 39 reactivation_value_key cfg.reactivation_value 1012 refl refl i;
          reactivation_start =
              (load_period (date_timestring_to_system_time sscanf (from i))
                (date_timestring_to_system_time sscanf (to i))).0;
          reactivation_end =
              (load_period (date_timestring_to_system_time sscanf (from i))
                (date_timestring_to_system_time sscanf (to i))).1;
          ip_access_limit = int_at 42 ip_access_limit_key cfg.ip_access_limit 0 refl refl i;
          free_server = bool_at 43 free_server_key cfg.free_server false refl refl i;
          hybrid_server = bool_at 44 hybrid_server_key cfg.hybrid_server false refl refl i;
          use_forbidden_ip_list =
              bool_at 45 use_forbidden_ip_list_key cfg.use_forbidden_ip_list false refl refl i;
          support_reconnect =
              bool_at 46 support_reconnect_key cfg.support_reconnect false refl refl i;
          game_server_specifies_id =
              bool_at 47 game_server_specifies_id_key cfg.game_server_specifies_id false refl refl
                i;
          allow_unknown_servers =
              bool_at 48 allow_unknown_servers_key cfg.allow_unknown_servers false refl refl i;
          use_queue = bool_at 49 use_queue_key cfg.use_queue true refl refl i;
          send_queue_level = bool_at 50 send_queue_level_key cfg.send_queue_level true refl refl i;
          pay_stat_override =
              int_at 51 pay_stat_override_key cfg.pay_stat_override 0xffffffff refl refl i;
          enable_verbose_logging =
              bool_at 52 enable_verbose_logging_key cfg.enable_verbose_logging false refl refl i;
          enable_debug_logging =
              bool_at 53 enable_debug_logging_key cfg.enable_debug_logging false refl refl i;
          server_version = version i;
          map = map;
          map_resource = version_resources files (version i) old;
        }

  -- A `Config` that has loaded no file, so that its `map` is empty, loads a file with a line for each
  -- setting that is `kept`, at least one, and no other, whatever the stack held and its other members were:
  -- numbers below 2^31 in digits, times that are a number of seconds, flags as yes and no, texts in quotes of
  -- at most 70 bytes, and addresses as texts that `inet_addr` reads back. Where the settings left out have
  -- their defaults, each setting is what the file was written from; the packet size type is 3; the period
  -- is that of the two dates; the resources of the version go into those that were there; and `Get` gives
  -- for each key what its line says.
  pub load_config-print :
      (stack : List ℕ) (old : Config)
      → All (IsEntry inet_ntoa kept inet_addr) settings
      → IsConfig cfg
      → old.map ≡ []
      → 0 < length (print (lines_of inet_ntoa kept settings))
      → (map : StringMap) × (load_config inet_addr sscanf files stack
            (some (print (lines_of inet_ntoa kept settings)))
            old
          ≡ some (true, loaded sscanf files start end_ cfg map old.map_resource))
        × ((key : List ℕ) → get key map ≡ value_of key (lines_of inet_ntoa kept settings))
  unfolding load_config load_from
  load_config-print stack old h c first some_byte =
      let lines = lines_of inet_ntoa kept settings in
      let (map, read, e) =
        load_map-print stack [] lines (lines_of-IsLine inet_ntoa kept inet_addr settings refl h)
          some_byte in
      let says = λ (key : List ℕ). e key ∙ get_nil key (value_of key lines) in
      (
        map,
        ap
              (λ (m : StringMap).
                load_from inet_addr sscanf files old.map_resource (load_map stack m (print lines)))
              first
            ∙ ap (load_from inet_addr sscanf files old.map_resource) read
            ∙ ap (λ (c : Config). some (true, c)) (assign-loaded map h says old.map_resource c),
        says,
      )
    where
      get_nil :
          (key : List ℕ) (o : Option (List ℕ))
          → (elim (get key []) as (λ _. Option (List ℕ)) [ none ↦ o | some v ↦ some v ]) ≡ o
      get_nil key o = unfold get in refl
