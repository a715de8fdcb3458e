-- ===== src/Tls.antt =====
-- src/tls/interface.rs and src/tls/native.rs: a trait is the record of its types and methods, and an
-- `impl` makes it.
use postgread.Prelude.{ℕ, List, Result}
use postgread.Convey.Stream.{Channel}
use postgread.Server.Platform.{Platform}

-- `TlsProvider` is the supertrait: its types come first.
pub record TlsProvider (Plain : Type 0) : Type 1 where
  pub Tls : Type 0
  pub Error : Type 0

pub record TlsClient (Plain : Type 0) : Type 1 where
  pub provider : TlsProvider Plain
  pub connect : Plain → Result provider.Error provider.Tls

pub record TlsServer (Plain : Type 0) : Type 1 where
  pub provider : TlsProvider Plain
  pub accept : Plain → Result provider.Error provider.Tls

pub record NativeTlsClient (p : Platform) : Type 0 where
  pub connector : p.TlsConnector
  pub hostname : List ℕ

pub record NativeTlsServer (p : Platform) : Type 0 where
  pub acceptor : p.TlsAcceptor

module _ (p : Platform) (Plain : Type 0) where
  abbrev pub native_provider : TlsProvider Plain
  native_provider = record { Tls = p.TlsStream Plain; Error = p.NativeTlsError }

  abbrev pub native_client : NativeTlsClient p → TlsClient Plain
  native_client c = record {
    provider = native_provider;
    connect = λ plain. p.connector_connect c.connector c.hostname plain;
  }

  abbrev pub native_server : NativeTlsServer p → TlsServer Plain
  native_server s = record {
    provider = native_provider;
    accept = λ plain. p.acceptor_accept s.acceptor plain;
  }

-- The two sides of a conversation that `convey` is called with.
module _ (p : Platform) where
  abbrev pub frontend_channel : NativeTlsServer p → Channel
  frontend_channel s = record {
    Plain = p.TcpStream;
    Tls = p.TlsStream p.TcpStream;
    Failure = p.NativeTlsError;
    plain_io = p.tcp_io;
    tls_io = p.tls_io;
    handshake = (native_server p p.TcpStream s).accept;
  }

  abbrev pub backend_channel : NativeTlsClient p → Channel
  backend_channel c = record {
    Plain = p.TcpStream;
    Tls = p.TlsStream p.TcpStream;
    Failure = p.NativeTlsError;
    plain_io = p.tcp_io;
    tls_io = p.tls_io;
    handshake = (native_client p p.TcpStream c).connect;
  }
