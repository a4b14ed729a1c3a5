-- ===== src/Core/Hy2/Quic/Ranges.antt =====
-- core/hy2/config.go: what getQUICConfig accepts, and what it makes of it.
use v2b_z.Prelude.{
  ℕ, false, ◌≡◌, refl, ◌≤◌, arith, nat_beq, if◌then◌else◌, Result, ok, err, ◌>>=◌, ◌==◌,
}
use v2b_z.Prelude.Int.{pos, int_eq, ◌≤ℤ◌}
use v2b_z.Prelude.Text.{Text}
use v2b_z.Core.Hy2.Quic.{
  ServerConfigQuic, QuicConfig, zero_quic, default_stream_receive_window,
  default_conn_receive_window, set_init_stream, set_max_stream, set_init_connection,
  set_max_connection, set_idle_timeout, set_incoming_streams, get_quic_config,
}

>>=-eq-ok {ℓ} :
    {E A B : Type ℓ} (m : Result E A) (f : A → Result E B) (b : B)
    → (m >>= f) ≡ ok b
    → (a : A) × (m ≡ ok a) × (f a ≡ ok b)
>>=-eq-ok (ok a) f b h = (a, refl, h)
>>=-eq-ok (err e) f b h = cc

-- A window: the configured one, or the default for 0.
abbrev pub window_or : ℕ → ℕ → ℕ
window_or d w = if nat_beq w 0 then d else w

-- What is left of a configuration, but for the initial stream window.
pub record IsConfigured (c : ServerConfigQuic) (q : QuicConfig) : Type 0 where
  pub max_stream :
      q.max_stream_receive_window
      ≡ window_or default_stream_receive_window c.max_stream_receive_window
  pub init_connection :
      q.initial_connection_receive_window
      ≡ window_or default_conn_receive_window c.init_connection_receive_window
  pub max_connection :
      q.max_connection_receive_window
      ≡ window_or default_conn_receive_window c.max_connection_receive_window
  pub idle :
      q.max_idle_timeout
      ≡ (if c.max_idle_timeout == pos 0 then pos 30000000000 else c.max_idle_timeout)
  pub streams :
      q.max_incoming_streams
      ≡ (if c.max_incoming_streams == pos 0 then pos 4096 else c.max_incoming_streams)
  pub stream_range : 16384 ≤ q.max_stream_receive_window
  pub init_connection_range : 16384 ≤ q.initial_connection_receive_window
  pub max_connection_range : 16384 ≤ q.max_connection_receive_window
  pub idle_least : pos 4000000000 ≤ℤ q.max_idle_timeout
  pub idle_most : q.max_idle_timeout ≤ℤ pos 120000000000
  pub streams_least : pos 8 ≤ℤ q.max_incoming_streams
  pub discovery : q.disable_path_mtu_discovery ≡ false

-- The initial stream window of an accepted configuration.
abbrev pub stream_window : ServerConfigQuic → ℕ
stream_window c =
    if nat_beq c.init_stream_receive_window 0 then default_stream_receive_window else 0

module _ (c : ServerConfigQuic) (q r : QuicConfig) where
  init_stream_lem :
      set_init_stream c q ≡ ok r
      → q.initial_stream_receive_window ≡ 0
      → r.initial_stream_receive_window ≡ stream_window c
  unfolding set_init_stream
  init_stream_lem h z = ground arith

  max_stream_lem :
      set_max_stream c q ≡ ok r
      → (r ≡ record q {
        max_stream_receive_window =
            window_or default_stream_receive_window c.max_stream_receive_window;
      })
        × (16384 ≤ r.max_stream_receive_window)
  unfolding set_max_stream
  max_stream_lem h = ground arith

  init_connection_lem :
      set_init_connection c q ≡ ok r
      → (r ≡ record q {
        initial_connection_receive_window =
            window_or default_conn_receive_window c.init_connection_receive_window;
      })
        × (16384 ≤ r.initial_connection_receive_window)
  unfolding set_init_connection
  init_connection_lem h = ground arith

  max_connection_lem :
      set_max_connection c q ≡ ok r
      → (r ≡ record q {
        max_connection_receive_window =
            window_or default_conn_receive_window c.max_connection_receive_window;
      })
        × (16384 ≤ r.max_connection_receive_window)
  unfolding set_max_connection
  max_connection_lem h = ground arith

  idle_lem :
      set_idle_timeout c q ≡ ok r
      → (r ≡ record q {
        max_idle_timeout =
            if c.max_idle_timeout == pos 0 then pos 30000000000 else c.max_idle_timeout;
      })
        × (pos 4000000000 ≤ℤ r.max_idle_timeout)
        × (r.max_idle_timeout ≤ℤ pos 120000000000)
  unfolding set_idle_timeout
  idle_lem h = ground arith

  streams_lem :
      set_incoming_streams c q ≡ ok r
      → (r ≡ record q {
        max_incoming_streams =
            if c.max_incoming_streams == pos 0 then pos 4096 else c.max_incoming_streams;
      })
        × (pos 8 ≤ℤ r.max_incoming_streams)
  unfolding set_incoming_streams
  streams_lem h = ground arith

chain_lem :
    (c : ServerConfigQuic) (q1 q2 q3 q4 q5 q6 q : QuicConfig)
    → set_init_stream c zero_quic ≡ ok q1
    → set_max_stream c q1 ≡ ok q2
    → set_init_connection c q2 ≡ ok q3
    → set_max_connection c q3 ≡ ok q4
    → set_idle_timeout c q4 ≡ ok q5
    → set_incoming_streams c q5 ≡ ok q6
    → record q6 { disable_path_mtu_discovery = false } ≡ q
    → IsConfigured c q × (q.initial_stream_receive_window ≡ stream_window c)
chain_lem c q1 q2 q3 q4 q5 q6 q e1 e2 e3 e4 e5 e6 e7 =
    let i1 = init_stream_lem c zero_quic q1 e1 refl in
    let (r2, b2) = max_stream_lem c q1 q2 e2 in
    let (r3, b3) = init_connection_lem c q2 q3 e3 in
    let (r4, b4) = max_connection_lem c q3 q4 e4 in
    let (r5, b5, c5) = idle_lem c q4 q5 e5 in
    let (r6, b6) = streams_lem c q5 q6 e6 in
    (
      record {
        max_stream = rw (← e7, r6, r5, r4, r3, r2);
        init_connection = rw (← e7, r6, r5, r4, r3);
        max_connection = rw (← e7, r6, r5, r4);
        idle = rw (← e7, r6, r5);
        streams = rw (← e7, r6);
        stream_range = rw (← e7, r6, r5, r4, r3) b2;
        init_connection_range = rw (← e7, r6, r5, r4) b3;
        max_connection_range = rw (← e7, r6, r5) b4;
        idle_least = rw (← e7, r6) b5;
        idle_most = rw (← e7, r6) c5;
        streams_least = rw (← e7) b6;
        discovery = rw (← e7) refl;
      },
      rw (← e7, r6, r5, r4, r3, r2) i1,
    )

-- The steps, composed up to each one.
abbrev after_init_stream : ServerConfigQuic → Result Text QuicConfig
after_init_stream c = set_init_stream c zero_quic

abbrev after_max_stream : ServerConfigQuic → Result Text QuicConfig
after_max_stream c = after_init_stream c >>= set_max_stream c

abbrev after_init_connection : ServerConfigQuic → Result Text QuicConfig
after_init_connection c = after_max_stream c >>= set_init_connection c

abbrev after_max_connection : ServerConfigQuic → Result Text QuicConfig
after_max_connection c = after_init_connection c >>= set_max_connection c

abbrev after_idle_timeout : ServerConfigQuic → Result Text QuicConfig
after_idle_timeout c = after_max_connection c >>= set_idle_timeout c

abbrev after_incoming_streams : ServerConfigQuic → Result Text QuicConfig
after_incoming_streams c = after_idle_timeout c >>= set_incoming_streams c

-- A configuration that is accepted keeps the windows, the time and the number of streams, or their
-- defaults for 0, each in its range, but for two settings. The initial stream window is the default
-- for 0, and else 0, whatever was configured; and the discovery of the path MTU is never disabled.
pub get_quic_config_ranges :
    (c : ServerConfigQuic) (q : QuicConfig)
    → get_quic_config c ≡ ok q
    → IsConfigured c q × (q.initial_stream_receive_window ≡ stream_window c)
unfolding get_quic_config
get_quic_config_ranges c q h =
    let (q6, h6, e7) =
      >>=-eq-ok (after_incoming_streams c)
        (λ q. ok (record q { disable_path_mtu_discovery = false })) q h in
    let (q5, h5, e6) = >>=-eq-ok (after_idle_timeout c) (set_incoming_streams c) q6 h6 in
    let (q4, h4, e5) = >>=-eq-ok (after_max_connection c) (set_idle_timeout c) q5 h5 in
    let (q3, h3, e4) = >>=-eq-ok (after_init_connection c) (set_max_connection c) q4 h4 in
    let (q2, h2, e3) = >>=-eq-ok (after_max_stream c) (set_init_connection c) q3 h3 in
    let (q1, e1, e2) = >>=-eq-ok (after_init_stream c) (set_max_stream c) q2 h2 in
    chain_lem c q1 q2 q3 q4 q5 q6 q e1 e2 e3 e4 e5 e6 (cc)
