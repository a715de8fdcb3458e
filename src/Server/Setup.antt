-- ===== src/Server/Setup.antt =====
-- `Config`, `Server`, `listen` and what they call of src/server.rs.
use postgread.Prelude.Outcome.{Result_map, Result_map_err, and_then}
use postgread.Prelude.{ℕ, List, ok, true}
use postgread.Msg.AsyncIo.{IoError, IoResult, error_other}
use postgread.Server.Platform.{Platform}

pub record Config (p : Platform) : Type 0 where
  pub listen_addr : p.IpAddr
  pub listen_port : ℕ
  pub target_host : List ℕ
  pub target_port : ℕ
  pub cert_p12_file : List ℕ
  pub cert_p12_password : List ℕ

pub record Server (p : Platform) : Type 0 where
  pub tls_acceptor : p.TlsAcceptor
  pub tcp_listener : p.TcpListener
  pub config : Config p

module _ (p : Platform) where
  unfoldable pub tls_error_to_io_error : p.NativeTlsError → IoError
  unfolding error_other
  tls_error_to_io_error tls_error = error_other (p.to_string tls_error)

  unfoldable pub new_tls_acceptor : Config p → IoResult p.TlsAcceptor
  new_tls_acceptor config = and_then (p.read_file config.cert_p12_file) λ cert_p12.
      let tls_identity = p.from_pkcs12 cert_p12 config.cert_p12_password in
      let tls_acceptor_impl = and_then tls_identity p.new_acceptor_impl in
      Result_map_err tls_error_to_io_error (Result_map p.acceptor_from tls_acceptor_impl)

  unfoldable pub new_tls_connector : p.TlsConnector
  new_tls_connector = p.danger_accept_invalid_certs p.new_connector true

  unfoldable pub listen : Config p → IoResult (Server p)
  listen config = and_then (new_tls_acceptor config) λ tls_acceptor.
      and_then (p.bind (record { ip = config.listen_addr; port = config.listen_port }))
        λ tcp_listener.
          ok (record { tls_acceptor = tls_acceptor; tcp_listener = tcp_listener; config = config })

  unfoldable pub get_listen_port : Server p → IoResult ℕ
  get_listen_port server =
      Result_map (λ addr. addr.port) (p.listener_local_addr server.tcp_listener)
