-- ===== src/Server/Platform.antt =====
-- What src/server.rs and src/tls use of files, sockets and the crates async-std, native-tls and
-- async-native-tls. All of it is a parameter: each call is a function to what it returns.
use postgread.Prelude.{ℕ, List, Bool, Result}
use postgread.Msg.AsyncIo.{ByteStream, IoResult}

-- `std::net::SocketAddr`
pub record SocketAddr (IpAddr : Type 0) : Type 0 where
  pub ip : IpAddr
  pub port : ℕ

pub record Platform : Type 1 where
  pub IpAddr : Type 0
  pub TcpListener : Type 0
  pub TcpStream : Type 0
  pub Identity : Type 0
  pub TlsAcceptorImpl : Type 0
  pub TlsAcceptor : Type 0
  pub TlsConnector : Type 0
  pub TlsStream : Type 0 → Type 0
  pub NativeTlsError : Type 0
  -- `str::parse`, with the text of its error
  pub parse_ip : List ℕ → Result (List ℕ) IpAddr
  pub read_file : List ℕ → IoResult (List ℕ)
  pub to_string : NativeTlsError → List ℕ
  pub from_pkcs12 : List ℕ → List ℕ → Result NativeTlsError Identity
  pub new_acceptor_impl : Identity → Result NativeTlsError TlsAcceptorImpl
  pub acceptor_from : TlsAcceptorImpl → TlsAcceptor
  pub new_connector : TlsConnector
  pub danger_accept_invalid_certs : TlsConnector → Bool → TlsConnector
  pub connector_connect :
      {Plain : Type 0} → TlsConnector → List ℕ → Plain → Result NativeTlsError (TlsStream Plain)
  pub acceptor_accept :
      {Plain : Type 0} → TlsAcceptor → Plain → Result NativeTlsError (TlsStream Plain)
  pub bind : SocketAddr IpAddr → IoResult TcpListener
  pub listener_local_addr : TcpListener → IoResult (SocketAddr IpAddr)
  pub local_addr : TcpStream → IoResult (SocketAddr IpAddr)
  pub peer_addr : TcpStream → IoResult (SocketAddr IpAddr)
  pub tcp_io : ByteStream TcpStream
  pub tls_io : ByteStream (TlsStream TcpStream)
