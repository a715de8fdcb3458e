-- ===== src/Convey/Flow/Relay.antt =====
-- A message that has arrived is relayed by `go` of src/convey.rs, one arm of its match for each.
use postgread.Prelude.{
  ℕ, ◌+◌, ◌<◌, ◌≡◌, refl, ap, List, [], ◌∷◌, ◌++◌, some, ok, length, arith, u8_bytes, u32_bytes,
  AllBytes, IsByte, length-append, length-u8_bytes, length-u32_bytes, All-append_right, subst,
}
use postgread.Msg.TypeByte.{TypeByte, into}
use postgread.Msg.Decode.{MsgDecode}
use postgread.Msg.Read.{decode_msg}
use postgread.Msg.Read.Header.{type_bytes, Fits}
use postgread.Msg.Body.Credentials.{
  gss_response_msg, password_msg, sasl_initial_response_msg, sasl_response_msg,
}
use postgread.Msg.Body.ErrorAndNotice.{error_response_msg, notice_response_msg}
use postgread.Msg.Body.Rows.{command_complete_msg, data_row_msg, row_description_msg}
use postgread.Msg.Body.Signals.{
  bind_complete_msg, empty_query_response_msg, parse_complete_msg, portal_suspended_msg, sync_msg,
  terminate_msg,
}
use postgread.Msg.Body.Statements.{bind_msg, execute_msg, parse_msg, query_msg}
use postgread.Msg.Body.Status.{
  backend_key_data_msg, negotiate_protocol_version_msg, parameter_status_msg, ready_for_query_msg,
}
use postgread.Convey.State.{backend, frontend}
use postgread.Convey.Message.{BackendMsg, FrontendMsg, Message}
use postgread.Convey.Stream.{Channel}
use postgread.Convey.Dispatch.{BackendType, FrontendType}
use postgread.Convey.Conveyor.{read_backend_through, read_frontend_through}
use postgread.Convey.Moves.{length_and_body}
use postgread.Convey.Go.{dropping, relay_backend, relay_frontend}
use postgread.Convey.Protocol.{says, hears, kind_of}
use postgread.Convey.Table.{backend_type_byte, frontend_type_byte}
use postgread.Convey.Frames.{Carries, IsBackendFrame, IsFrontendFrame}
use postgread.Convey.Flow.{Up}
use postgread.Convey.Flow.Calls.{
  Flows, Flows-map, read_backend_through-Flows, read_frontend_through-Flows,
}

-- Bytes, and not so many that the length of a message does not count them.
abbrev pub IsSendable : List ℕ → Type 0
IsSendable bytes = AllBytes bytes × (length bytes < 4294967296)

-- The body of a frame whose type is known.
pub frame_body :
    {Msg : Type 0} (m : MsgDecode Msg) (msg : Msg) (type_byte : TypeByte) (bytes : List ℕ)
    → m.type_byte_opt ≡ some type_byte
    → Carries m msg bytes
    → IsSendable bytes
    → (body : List ℕ) × (bytes ≡ u8_bytes (into type_byte) ++ length_and_body body)
      × (decode_msg m body ≡ ok msg)
      × AllBytes body
      × Fits m.type_byte_opt (4 + length body)
unfolding type_bytes
frame_body m msg type_byte bytes typed (body, framed, decoded) (all, small) =
    let framed' = rw typed at framed in
    let bytes_all = subst AllBytes framed' all in
    let size = length-append (u8_bytes (into type_byte)) (length_and_body body) in
    let size' = length-append (u32_bytes (4 + length body)) body in
    let sized = ap length framed' in
    (
      body,
      framed',
      decoded,
      All-append_right IsByte (u32_bytes (4 + length body)) body
          (All-append_right IsByte (u8_bytes (into type_byte)) (length_and_body body) bytes_all),
      rw typed (
        omega arith,
        omega (
          arith,
          size,
          size',
          sized,
          length-u8_bytes (into type_byte),
          length-u32_bytes (4 + length body),
        ),
      ),
    )

module _ {front back : Channel} (fu : Up front) (bu : Up back) where
  -- What is left of a frame behind its type goes through.
  abbrev BackendFlows : BackendType → BackendMsg → List ℕ → Type 0
  BackendFlows t x bytes =
      (body : List ℕ) × (bytes ≡ u8_bytes (into (backend_type_byte t)) ++ length_and_body body)
      × Flows fu bu backend (relay_backend t) (length_and_body body) tt (Message.backend x ∷ [])

  abbrev FrontendFlows : FrontendType → FrontendMsg → List ℕ → Type 0
  FrontendFlows t x bytes =
      (body : List ℕ) × (bytes ≡ u8_bytes (into (frontend_type_byte t)) ++ length_and_body body)
      × Flows fu bu frontend (relay_frontend t) (length_and_body body) tt (Message.frontend x ∷ [])

  backend_dropped :
      {Msg : Type 0} (m : MsgDecode Msg) (wrap : Msg → BackendMsg) (msg : Msg)
      (type_byte : TypeByte) (bytes : List ℕ)
      → m.type_byte_opt ≡ some type_byte
      → Carries m msg bytes
      → IsSendable bytes
      → (body : List ℕ) × (bytes ≡ u8_bytes (into type_byte) ++ length_and_body body)
        × Flows fu bu backend
            (dropping (read_backend_through m wrap))
            (length_and_body body)
            tt
            (Message.backend (wrap msg) ∷ [])
  backend_dropped m wrap msg type_byte bytes typed carried sendable =
      let (body, framed, decoded, all, fits) =
        frame_body m msg type_byte bytes typed carried sendable in
      (
        body,
        framed,
        Flows-map fu bu backend (read_backend_through m wrap) (length_and_body body) msg tt
            (Message.backend (wrap msg) ∷ [])
            (read_backend_through-Flows fu bu m wrap body msg all fits decoded),
      )

  frontend_dropped :
      {Msg : Type 0} (m : MsgDecode Msg) (wrap : Msg → FrontendMsg) (msg : Msg)
      (type_byte : TypeByte) (bytes : List ℕ)
      → m.type_byte_opt ≡ some type_byte
      → Carries m msg bytes
      → IsSendable bytes
      → (body : List ℕ) × (bytes ≡ u8_bytes (into type_byte) ++ length_and_body body)
        × Flows fu bu frontend
            (dropping (read_frontend_through m wrap))
            (length_and_body body)
            tt
            (Message.frontend (wrap msg) ∷ [])
  frontend_dropped m wrap msg type_byte bytes typed carried sendable =
      let (body, framed, decoded, all, fits) =
        frame_body m msg type_byte bytes typed carried sendable in
      (
        body,
        framed,
        Flows-map fu bu frontend (read_frontend_through m wrap) (length_and_body body) msg tt
            (Message.frontend (wrap msg) ∷ [])
            (read_frontend_through-Flows fu bu m wrap body msg all fits decoded),
      )

  pub relay_backend-Flows :
      (t : BackendType) (x : BackendMsg) (bytes : List ℕ)
      → kind_of (Message.backend x) ≡ says t
      → IsBackendFrame x bytes
      → IsSendable bytes
      → BackendFlows t x bytes
  unfolding relay_backend backend_key_data_msg bind_complete_msg command_complete_msg data_row_msg
      empty_query_response_msg error_response_msg negotiate_protocol_version_msg notice_response_msg
      parameter_status_msg parse_complete_msg portal_suspended_msg ready_for_query_msg
      row_description_msg
  relay_backend-Flows t (BackendMsg.authentication x) bytes k carried sendable = cc
  relay_backend-Flows t (BackendMsg.backend_key_data x) bytes k carried sendable =
      let same : BackendType.backend_key_data ≡ t = cc in
      rw (← same) (
        backend_dropped backend_key_data_msg BackendMsg.backend_key_data x _ bytes refl carried
          sendable)
  relay_backend-Flows t (BackendMsg.bind_complete x) bytes k carried sendable =
      let same : BackendType.bind_complete ≡ t = cc in
      rw (← same)
        (backend_dropped bind_complete_msg BackendMsg.bind_complete x _ bytes refl carried sendable)
  relay_backend-Flows t (BackendMsg.command_complete x) bytes k carried sendable =
      let same : BackendType.command_complete ≡ t = cc in
      rw (← same) (
        backend_dropped command_complete_msg BackendMsg.command_complete x _ bytes refl carried
          sendable)
  relay_backend-Flows t (BackendMsg.data_row x) bytes k carried sendable =
      let same : BackendType.data_row ≡ t = cc in
      rw (← same) (backend_dropped data_row_msg BackendMsg.data_row x _ bytes refl carried sendable)
  relay_backend-Flows t (BackendMsg.empty_query_response x) bytes k carried sendable =
      let same : BackendType.empty_query_response ≡ t = cc in
      rw (← same) (
        backend_dropped empty_query_response_msg BackendMsg.empty_query_response x _ bytes refl
          carried sendable)
  relay_backend-Flows t (BackendMsg.error_response x) bytes k carried sendable =
      let same : BackendType.error_response ≡ t = cc in
      rw (← same) (
        backend_dropped error_response_msg BackendMsg.error_response x _ bytes refl carried
          sendable)
  relay_backend-Flows t (BackendMsg.negotiate_protocol_version x) bytes k carried sendable =
      let same : BackendType.negotiate_protocol_version ≡ t = cc in
      rw (← same) (
        backend_dropped negotiate_protocol_version_msg BackendMsg.negotiate_protocol_version x _
          bytes refl carried sendable)
  relay_backend-Flows t (BackendMsg.notice_response x) bytes k carried sendable =
      let same : BackendType.notice_response ≡ t = cc in
      rw (← same) (
        backend_dropped notice_response_msg BackendMsg.notice_response x _ bytes refl carried
          sendable)
  relay_backend-Flows t (BackendMsg.parameter_status x) bytes k carried sendable =
      let same : BackendType.parameter_status ≡ t = cc in
      rw (← same) (
        backend_dropped parameter_status_msg BackendMsg.parameter_status x _ bytes refl carried
          sendable)
  relay_backend-Flows t (BackendMsg.parse_complete x) bytes k carried sendable =
      let same : BackendType.parse_complete ≡ t = cc in
      rw (← same) (
        backend_dropped parse_complete_msg BackendMsg.parse_complete x _ bytes refl carried
          sendable)
  relay_backend-Flows t (BackendMsg.portal_suspended x) bytes k carried sendable =
      let same : BackendType.portal_suspended ≡ t = cc in
      rw (← same) (
        backend_dropped portal_suspended_msg BackendMsg.portal_suspended x _ bytes refl carried
          sendable)
  relay_backend-Flows t (BackendMsg.ready_for_query x) bytes k carried sendable =
      let same : BackendType.ready_for_query ≡ t = cc in
      rw (← same) (
        backend_dropped ready_for_query_msg BackendMsg.ready_for_query x _ bytes refl carried
          sendable)
  relay_backend-Flows t (BackendMsg.row_description x) bytes k carried sendable =
      let same : BackendType.row_description ≡ t = cc in
      rw (← same) (
        backend_dropped row_description_msg BackendMsg.row_description x _ bytes refl carried
          sendable)

  pub relay_frontend-Flows :
      (t : FrontendType) (x : FrontendMsg) (bytes : List ℕ)
      → kind_of (Message.frontend x) ≡ hears t
      → IsFrontendFrame x bytes
      → IsSendable bytes
      → FrontendFlows t x bytes
  unfolding relay_frontend bind_msg execute_msg gss_response_msg parse_msg password_msg query_msg
      sasl_initial_response_msg sasl_response_msg sync_msg terminate_msg
  relay_frontend-Flows t (FrontendMsg.bind x) bytes k carried sendable =
      let same : FrontendType.bind ≡ t = cc in
      rw (← same) (frontend_dropped bind_msg FrontendMsg.bind x _ bytes refl carried sendable)
  relay_frontend-Flows t (FrontendMsg.execute x) bytes k carried sendable =
      let same : FrontendType.execute ≡ t = cc in
      rw (← same) (frontend_dropped execute_msg FrontendMsg.execute x _ bytes refl carried sendable)
  relay_frontend-Flows t (FrontendMsg.gss_response x) bytes k carried sendable =
      let same : FrontendType.gss_response ≡ t = cc in
      rw (← same)
        (frontend_dropped gss_response_msg FrontendMsg.gss_response x _ bytes refl carried sendable)
  relay_frontend-Flows t (FrontendMsg.parse x) bytes k carried sendable =
      let same : FrontendType.parse ≡ t = cc in
      rw (← same) (frontend_dropped parse_msg FrontendMsg.parse x _ bytes refl carried sendable)
  relay_frontend-Flows t (FrontendMsg.password x) bytes k carried sendable =
      let same : FrontendType.password ≡ t = cc in
      rw (← same)
        (frontend_dropped password_msg FrontendMsg.password x _ bytes refl carried sendable)
  relay_frontend-Flows t (FrontendMsg.query x) bytes k carried sendable =
      let same : FrontendType.query ≡ t = cc in
      rw (← same) (frontend_dropped query_msg FrontendMsg.query x _ bytes refl carried sendable)
  relay_frontend-Flows t (FrontendMsg.sasl_initial_response x) bytes k carried sendable =
      let same : FrontendType.sasl_initial_response ≡ t = cc in
      rw (← same) (
        frontend_dropped sasl_initial_response_msg FrontendMsg.sasl_initial_response x _ bytes refl
          carried sendable)
  relay_frontend-Flows t (FrontendMsg.sasl_response x) bytes k carried sendable =
      let same : FrontendType.sasl_response ≡ t = cc in
      rw (← same) (
        frontend_dropped sasl_response_msg FrontendMsg.sasl_response x _ bytes refl carried
          sendable)
  relay_frontend-Flows t (FrontendMsg.sync x) bytes k carried sendable =
      let same : FrontendType.sync ≡ t = cc in
      rw (← same) (frontend_dropped sync_msg FrontendMsg.sync x _ bytes refl carried sendable)
  relay_frontend-Flows t (FrontendMsg.terminate x) bytes k carried sendable =
      let same : FrontendType.terminate ≡ t = cc in
      rw (← same)
        (frontend_dropped terminate_msg FrontendMsg.terminate x _ bytes refl carried sendable)
  relay_frontend-Flows t (FrontendMsg.initial x) bytes k carried sendable = cc
