-- ===== src/Convey/Stream.antt =====
-- `StreamWrap`, `unwrap_stream` and `switch_to_tls` of src/convey.rs. The streams and the TLS of
-- src/tls/interface.rs are parameters.
use postgread.Prelude.{ℕ, List, [], Result, ok, err, Stateful, Option, none, some}
use postgread.Msg.AsyncIo.{ByteStream}
use postgread.Convey.State.{Exit, failed, panicked, tls_error, handshake_disrupted}

-- One side of the conversation: its plain stream, the stream that its TLS provider makes of it,
-- and the handshake (`TlsServer::accept` towards the frontend, `TlsClient::connect` towards the
-- backend).
pub record Channel : Type 1 where
  pub Plain : Type 0
  pub Tls : Type 0
  pub Failure : Type 0
  pub plain_io : ByteStream Plain
  pub tls_io : ByteStream Tls
  pub handshake : Plain → Result Failure Tls

pub data StreamWrap (c : Channel) : Type 0 where
  plain : c.Plain → StreamWrap c
  tls_handshake : StreamWrap c
  tls : c.Tls → StreamWrap c

module _ (c : Channel) where
  -- `replace_plain_with`: the plain stream that was there, and the wrap after the call.
  unfoldable pub replace_plain_with : StreamWrap c → StreamWrap c → Option c.Plain × StreamWrap c
  replace_plain_with value (plain s) = (some s, value)
  replace_plain_with value tls_handshake = (none, tls_handshake)
  replace_plain_with value (tls s) = (none, tls s)

  unfoldable pub unwrap_stream :
      {A : Type 0}
      → ((S : Type 0) → ByteStream S → Stateful S Exit A)
      → Stateful (StreamWrap c) Exit A
  unwrap_stream fn (plain s) = let r = fn c.Plain c.plain_io s in (r.0, plain r.1)
  unwrap_stream fn tls_handshake = (err (failed (tls_error handshake_disrupted)), tls_handshake)
  unwrap_stream fn (tls s) = let r = fn c.Tls c.tls_io s in (r.0, tls r.1)

  -- `core::mem::replace(wrap, Tls(tls_stream))`, and the test of what was there.
  unfoldable pub put_tls : c.Tls → Stateful (StreamWrap c) Exit (Unit {0})
  put_tls stream tls_handshake = (ok tt, tls stream)
  put_tls stream (plain s) = (err (failed (tls_error handshake_disrupted)), tls stream)
  put_tls stream (tls s) = (err (failed (tls_error handshake_disrupted)), tls stream)

  -- The `unwrap` of the handshake's result panics on a failure.
  unfoldable pub finish_handshake : Result c.Failure c.Tls → Stateful (StreamWrap c) Exit (Unit {0})
  finish_handshake (ok stream) wrap = put_tls stream wrap
  finish_handshake (err e) wrap = (err panicked, wrap)

  unfoldable pub start_handshake : Option c.Plain → Stateful (StreamWrap c) Exit (Unit {0})
  start_handshake (some stream) wrap = finish_handshake (c.handshake stream) wrap
  start_handshake none wrap = (err (failed (tls_error handshake_disrupted)), wrap)

  unfoldable pub switch_to_tls : Stateful (StreamWrap c) Exit (Unit {0})
  switch_to_tls wrap =
      let (stream, wrap') = replace_plain_with tls_handshake wrap in start_handshake stream wrap'

  -- What has gone through the stream that is in place.
  unfoldable pub received : StreamWrap c → List ℕ
  received (plain s) = c.plain_io.received s
  received tls_handshake = []
  received (tls s) = c.tls_io.received s

  unfoldable pub sent : StreamWrap c → List ℕ
  sent (plain s) = c.plain_io.sent s
  sent tls_handshake = []
  sent (tls s) = c.tls_io.sent s
