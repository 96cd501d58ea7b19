-- ===== src/Config.antt =====
-- src/config.h: the settings that the packet path reads.
use reqrypt.Common.{ℕ, Bool}

-- The values of a TCP flag setting.
abbrev pub flag_unset : ℕ
flag_unset = 0

abbrev pub flag_set : ℕ
flag_set = 1

abbrev pub flag_dont_care : ℕ
flag_dont_care = 2

abbrev pub split_none : ℕ
split_none = 0

abbrev pub split_full : ℕ
split_full = 1

abbrev pub split_partial : ℕ
split_partial = 2

abbrev pub ghost_none : ℕ
ghost_none = 0

abbrev pub ghost_nat : ℕ
ghost_nat = 1

abbrev pub ghost_always : ℕ
ghost_always = 2

abbrev pub frag_network : ℕ
frag_network = 0

abbrev pub frag_transport : ℕ
frag_transport = 1

pub record Config : Type 0 where
  pub enabled : Bool
  pub hide_tcp : Bool
  pub hide_tcp_data : Bool
  pub hide_tcp_syn : ℕ
  pub hide_tcp_ack : ℕ
  pub hide_tcp_psh : ℕ
  pub hide_tcp_fin : ℕ
  pub hide_tcp_rst : ℕ
  pub hide_udp : Bool
  pub split : ℕ
  pub ghost : ℕ
  pub ghost_check : Bool
  pub ghost_set_ttl : Bool
  pub ghost_ttl : ℕ
  pub fragment : ℕ
  pub tcp_port : ℕ
  pub tcp_proto : ℕ
  pub udp_port : ℕ
  pub udp_proto : ℕ
  pub mtu : ℕ
  pub launch_ui : Bool
