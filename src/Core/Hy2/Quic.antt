-- ===== src/Core/Hy2/Quic.antt =====
-- core/hy2/config.go: getQUICConfig and getBandwidthConfig. A window is a uint64, a duration a number of
-- nanoseconds.
pub mod Ranges
use v2b_z.Prelude.{ℕ, Bool, false, ◌||◌, nat_beq, ltb, ◌==◌, if◌then◌else◌, Result, ok, err, ◌>>=◌}
use v2b_z.Prelude.Int.{ℤ, pos, int_eq, ltb_ℤ, mul64, quot, to_word}
use v2b_z.Prelude.Text.{Text, text}
use v2b_z.Panel.Node.{Hysteria2Node}

pub record ServerConfigQuic : Type 0 where
  pub init_stream_receive_window : ℕ
  pub max_stream_receive_window : ℕ
  pub init_connection_receive_window : ℕ
  pub max_connection_receive_window : ℕ
  pub max_idle_timeout : ℤ
  pub max_incoming_streams : ℤ
  pub disable_path_mtu_discovery : Bool

-- The configuration of the hysteria library.
pub record QuicConfig : Type 0 where
  pub initial_stream_receive_window : ℕ
  pub max_stream_receive_window : ℕ
  pub initial_connection_receive_window : ℕ
  pub max_connection_receive_window : ℕ
  pub max_idle_timeout : ℤ
  pub max_incoming_streams : ℤ
  pub disable_path_mtu_discovery : Bool

abbrev pub zero_quic : QuicConfig
zero_quic = record {
  initial_stream_receive_window = 0;
  max_stream_receive_window = 0;
  initial_connection_receive_window = 0;
  max_connection_receive_window = 0;
  max_idle_timeout = pos 0;
  max_incoming_streams = pos 0;
  disable_path_mtu_discovery = false;
}

abbrev pub default_stream_receive_window : ℕ
default_stream_receive_window = 8388608

-- default_stream_receive_window * 5 / 2
abbrev pub default_conn_receive_window : ℕ
default_conn_receive_window = 20971520

-- The first block: a configured stream window goes to no stream window.
unfoldable pub set_init_stream : ServerConfigQuic → QuicConfig → Result Text QuicConfig
set_init_stream c q =
    if nat_beq c.init_stream_receive_window 0
    then ok (record q { initial_stream_receive_window = default_stream_receive_window })
    else if ltb c.init_stream_receive_window 16384
    then err (text "QUICConfig.InitialStreamReceiveWindowf must be at least 16384")
    else ok (record q { initial_connection_receive_window = c.init_connection_receive_window })

unfoldable pub set_max_stream : ServerConfigQuic → QuicConfig → Result Text QuicConfig
set_max_stream c q =
    if nat_beq c.max_stream_receive_window 0
    then ok (record q { max_stream_receive_window = default_stream_receive_window })
    else if ltb c.max_stream_receive_window 16384
    then err (text "QUICConfig.MaxStreamReceiveWindowf must be at least 16384")
    else ok (record q { max_stream_receive_window = c.max_stream_receive_window })

unfoldable pub set_init_connection : ServerConfigQuic → QuicConfig → Result Text QuicConfig
set_init_connection c q =
    if nat_beq c.init_connection_receive_window 0
    then ok (record q { initial_connection_receive_window = default_conn_receive_window })
    else if ltb c.init_connection_receive_window 16384
    then err (text "QUICConfig.InitialConnectionReceiveWindowf must be at least 16384")
    else ok (record q { initial_connection_receive_window = c.init_connection_receive_window })

unfoldable pub set_max_connection : ServerConfigQuic → QuicConfig → Result Text QuicConfig
set_max_connection c q =
    if nat_beq c.max_connection_receive_window 0
    then ok (record q { max_connection_receive_window = default_conn_receive_window })
    else if ltb c.max_connection_receive_window 16384
    then err (text "QUICConfig.MaxConnectionReceiveWindowf must be at least 16384")
    else ok (record q { max_connection_receive_window = c.max_connection_receive_window })

unfoldable pub set_idle_timeout : ServerConfigQuic → QuicConfig → Result Text QuicConfig
set_idle_timeout c q =
    if c.max_idle_timeout == pos 0
    then ok (record q { max_idle_timeout = pos 30000000000 })
    else if ltb_ℤ c.max_idle_timeout (pos 4000000000) || ltb_ℤ (pos 120000000000) c.max_idle_timeout
    then err (text "QUICConfig.MaxIdleTimeoutf must be between 4s and 120s")
    else ok (record q { max_idle_timeout = c.max_idle_timeout })

unfoldable pub set_incoming_streams : ServerConfigQuic → QuicConfig → Result Text QuicConfig
set_incoming_streams c q =
    if c.max_incoming_streams == pos 0
    then ok (record q { max_incoming_streams = pos 4096 })
    else if ltb_ℤ c.max_incoming_streams (pos 8)
    then err (text "QUICConfig.MaxIncomingStreamsf must be at least 8")
    else ok (record q { max_incoming_streams = c.max_incoming_streams })

unfoldable pub get_quic_config : ServerConfigQuic → Result Text QuicConfig
get_quic_config c =
    set_init_stream c zero_quic
    >>= set_max_stream c
    >>= set_init_connection c
    >>= set_max_connection c
    >>= set_idle_timeout c
    >>= set_incoming_streams c
    >>= λ q. ok (record q { disable_path_mtu_discovery = false })

pub record BandwidthConfig : Type 0 where
  pub max_tx : ℕ
  pub max_rx : ℕ

-- (uint64)(mbps * Megabyte / 8), or the zero value.
unfoldable pub bytes_per_second : ℤ → ℕ
bytes_per_second mbps = if mbps == pos 0 then 0 else to_word (quot (mul64 mbps (pos 1000000)) 8)

unfoldable pub get_bandwidth_config : Hysteria2Node → BandwidthConfig
unfolding bytes_per_second
get_bandwidth_config node = record {
  max_tx = bytes_per_second node.up_mbps;
  max_rx = bytes_per_second node.down_mbps;
}
