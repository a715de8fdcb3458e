-- ===== src/Convey/Relay.antt =====
-- A message that `go` of src/convey.rs has relayed is one frame that has gone through, its type first.
use postgread.Prelude.Outcome.{>>=-eq-ok, pure}
use postgread.Prelude.{ℕ, ◌≡◌, refl, sym, ap, ◌∙◌, List, [], ◌∷◌, ◌++◌, ok, u8_bytes}
use postgread.Msg.TypeByte.{TypeByte, into}
use postgread.Msg.Decode.{MsgDecode}
use postgread.Msg.Read.Header.{type_bytes}
use postgread.Msg.Body.Credentials.{
  gss_response_msg, password_msg, sasl_initial_response_msg, sasl_response_msg,
}
use postgread.Msg.Body.ErrorAndNotice.{error_response_msg, notice_response_msg}
use postgread.Msg.Body.Rows.{command_complete_msg, data_row_msg, row_description_msg}
use postgread.Msg.Body.Signals.{
  bind_complete_msg, empty_query_response_msg, parse_complete_msg, portal_suspended_msg, sync_msg,
  terminate_msg,
}
use postgread.Msg.Body.Statements.{bind_msg, execute_msg, parse_msg, query_msg}
use postgread.Msg.Body.Status.{
  backend_key_data_msg, negotiate_protocol_version_msg, parameter_status_msg, ready_for_query_msg,
}
use postgread.Convey.State.{Side, backend, frontend}
use postgread.Convey.Message.{BackendMsg, FrontendMsg, Message}
use postgread.Convey.Stream.{Channel}
use postgread.Convey.Conveyor.{Conveyor, read_backend_through, read_frontend_through}
use postgread.Convey.Moves.{
  Moved, length_and_body, sent_to, read_backend_through_lem, read_frontend_through_lem,
}
use postgread.Convey.Dispatch.{BackendType, FrontendType}
use postgread.Convey.Go.{dropping, relay_backend, relay_frontend}
use postgread.Convey.Protocol.{Kind, says, hears, kind_of}
use postgread.Convey.Table.{backend_type_byte, frontend_type_byte}
use postgread.Convey.Frames.{Carries, IsFrame, side_of}

module _ {front back : Channel} where
  -- The frame of a message whose type has been read before, and what it moves from then on.
  abbrev pub Relays : Side → TypeByte → Message → Conveyor front back → Conveyor front back → Type 0
  Relays side type_byte message c c' =
      (body : List ℕ) × (side_of message ≡ side)
      × IsFrame (message, u8_bytes (into type_byte) ++ length_and_body body)
      × Moved side (length_and_body body) (u8_bytes (into type_byte) ++ length_and_body body)
          (message ∷ []) c c'

  pub backend-Relays :
      {Msg : Type 0} (m : MsgDecode Msg) (wrap : Msg → BackendMsg) (type_byte : TypeByte)
      → type_bytes m.type_byte_opt ≡ u8_bytes (into type_byte)
      → ((msg : Msg) (bytes : List ℕ)
          → Carries m msg bytes
          → IsFrame (Message.backend (wrap msg), bytes))
      → (c : Conveyor front back) {msg : Msg} → (read_backend_through m wrap c).0 ≡ ok msg
      → Relays backend type_byte (Message.backend (wrap msg)) c (read_backend_through m wrap c).1
  backend-Relays m wrap type_byte typed frame c {msg} h =
      let (body, decoded, (came, went, logged, still, quiet)) =
        read_backend_through_lem m wrap c h in
      (
        body,
        refl,
        frame msg _ (body, ap (λ b. b ++ length_and_body body) (sym typed), decoded),
        (
          came,
          went ∙ ap (λ b. sent_to frontend c ++ (b ++ length_and_body body)) typed,
          logged,
          still,
          quiet,
        ),
      )

  pub frontend-Relays :
      {Msg : Type 0} (m : MsgDecode Msg) (wrap : Msg → FrontendMsg) (type_byte : TypeByte)
      → type_bytes m.type_byte_opt ≡ u8_bytes (into type_byte)
      → ((msg : Msg) (bytes : List ℕ)
          → Carries m msg bytes
          → IsFrame (Message.frontend (wrap msg), bytes))
      → (c : Conveyor front back) {msg : Msg} → (read_frontend_through m wrap c).0 ≡ ok msg
      → Relays frontend type_byte (Message.frontend (wrap msg)) c (read_frontend_through m wrap c).1
  frontend-Relays m wrap type_byte typed frame c {msg} h =
      let (body, decoded, (came, went, logged, still, quiet)) =
        read_frontend_through_lem m wrap c h in
      (
        body,
        refl,
        frame msg _ (body, ap (λ b. b ++ length_and_body body) (sym typed), decoded),
        (
          came,
          went ∙ ap (λ b. sent_to backend c ++ (b ++ length_and_body body)) typed,
          logged,
          still,
          quiet,
        ),
      )

  -- The same for a call whose result is dropped.
  backend_dropped :
      {Msg : Type 0} (m : MsgDecode Msg) (wrap : Msg → BackendMsg) (type_byte : TypeByte)
      (kind : Kind)
      → type_bytes m.type_byte_opt ≡ u8_bytes (into type_byte)
      → ((msg : Msg) (bytes : List ℕ)
          → Carries m msg bytes
          → IsFrame (Message.backend (wrap msg), bytes))
      → ((msg : Msg) → kind_of (Message.backend (wrap msg)) ≡ kind)
      → (c : Conveyor front back) → (dropping (read_backend_through m wrap) c).0 ≡ ok tt
      → (message : Message) × (kind_of message ≡ kind)
        × Relays backend type_byte message c (dropping (read_backend_through m wrap) c).1
  backend_dropped m wrap type_byte kind typed frame kinds c h =
      let (msg, e, k) = >>=-eq-ok (read_backend_through m wrap) (λ _. pure tt) c h in
      rw k (Message.backend (wrap msg), kinds msg, backend-Relays m wrap type_byte typed frame c e)

  frontend_dropped :
      {Msg : Type 0} (m : MsgDecode Msg) (wrap : Msg → FrontendMsg) (type_byte : TypeByte)
      (kind : Kind)
      → type_bytes m.type_byte_opt ≡ u8_bytes (into type_byte)
      → ((msg : Msg) (bytes : List ℕ)
          → Carries m msg bytes
          → IsFrame (Message.frontend (wrap msg), bytes))
      → ((msg : Msg) → kind_of (Message.frontend (wrap msg)) ≡ kind)
      → (c : Conveyor front back) → (dropping (read_frontend_through m wrap) c).0 ≡ ok tt
      → (message : Message) × (kind_of message ≡ kind)
        × Relays frontend type_byte message c (dropping (read_frontend_through m wrap) c).1
  frontend_dropped m wrap type_byte kind typed frame kinds c h =
      let (msg, e, k) = >>=-eq-ok (read_frontend_through m wrap) (λ _. pure tt) c h in
      rw k
        (Message.frontend (wrap msg), kinds msg, frontend-Relays m wrap type_byte typed frame c e)

  pub relay_backend_lem :
      (t : BackendType) (c : Conveyor front back)
      → (relay_backend t c).0 ≡ ok tt
      → (message : Message) × (kind_of message ≡ says t)
        × Relays backend (backend_type_byte t) message c (relay_backend t c).1
  unfolding relay_backend type_bytes backend_key_data_msg bind_complete_msg command_complete_msg
      data_row_msg empty_query_response_msg error_response_msg negotiate_protocol_version_msg
      notice_response_msg parameter_status_msg parse_complete_msg portal_suspended_msg
      ready_for_query_msg row_description_msg
  relay_backend_lem BackendType.backend_key_data c h =
      backend_dropped backend_key_data_msg BackendMsg.backend_key_data _ _ refl (λ msg bytes k. k)
        (λ msg. refl) c h
  relay_backend_lem BackendType.bind_complete c h =
      backend_dropped bind_complete_msg BackendMsg.bind_complete _ _ refl (λ msg bytes k. k)
        (λ msg. refl) c h
  relay_backend_lem BackendType.command_complete c h =
      backend_dropped command_complete_msg BackendMsg.command_complete _ _ refl (λ msg bytes k. k)
        (λ msg. refl) c h
  relay_backend_lem BackendType.data_row c h =
      backend_dropped data_row_msg BackendMsg.data_row _ _ refl (λ msg bytes k. k) (λ msg. refl) c h
  relay_backend_lem BackendType.empty_query_response c h =
      backend_dropped empty_query_response_msg BackendMsg.empty_query_response _ _ refl
        (λ msg bytes k. k) (λ msg. refl) c h
  relay_backend_lem BackendType.error_response c h =
      backend_dropped error_response_msg BackendMsg.error_response _ _ refl (λ msg bytes k. k)
        (λ msg. refl) c h
  relay_backend_lem BackendType.negotiate_protocol_version c h =
      backend_dropped negotiate_protocol_version_msg BackendMsg.negotiate_protocol_version _ _ refl
        (λ msg bytes k. k) (λ msg. refl) c h
  relay_backend_lem BackendType.notice_response c h =
      backend_dropped notice_response_msg BackendMsg.notice_response _ _ refl (λ msg bytes k. k)
        (λ msg. refl) c h
  relay_backend_lem BackendType.parameter_status c h =
      backend_dropped parameter_status_msg BackendMsg.parameter_status _ _ refl (λ msg bytes k. k)
        (λ msg. refl) c h
  relay_backend_lem BackendType.parse_complete c h =
      backend_dropped parse_complete_msg BackendMsg.parse_complete _ _ refl (λ msg bytes k. k)
        (λ msg. refl) c h
  relay_backend_lem BackendType.portal_suspended c h =
      backend_dropped portal_suspended_msg BackendMsg.portal_suspended _ _ refl (λ msg bytes k. k)
        (λ msg. refl) c h
  relay_backend_lem BackendType.ready_for_query c h =
      backend_dropped ready_for_query_msg BackendMsg.ready_for_query _ _ refl (λ msg bytes k. k)
        (λ msg. refl) c h
  relay_backend_lem BackendType.row_description c h =
      backend_dropped row_description_msg BackendMsg.row_description _ _ refl (λ msg bytes k. k)
        (λ msg. refl) c h

  pub relay_frontend_lem :
      (t : FrontendType) (c : Conveyor front back)
      → (relay_frontend t c).0 ≡ ok tt
      → (message : Message) × (kind_of message ≡ hears t)
        × Relays frontend (frontend_type_byte t) message c (relay_frontend t c).1
  unfolding relay_frontend type_bytes bind_msg execute_msg gss_response_msg parse_msg password_msg
      query_msg sasl_initial_response_msg sasl_response_msg sync_msg terminate_msg
  relay_frontend_lem FrontendType.bind c h =
      frontend_dropped bind_msg FrontendMsg.bind _ _ refl (λ msg bytes k. k) (λ msg. refl) c h
  relay_frontend_lem FrontendType.execute c h =
      frontend_dropped execute_msg FrontendMsg.execute _ _ refl (λ msg bytes k. k) (λ msg. refl) c h
  relay_frontend_lem FrontendType.gss_response c h =
      frontend_dropped gss_response_msg FrontendMsg.gss_response _ _ refl (λ msg bytes k. k)
        (λ msg. refl) c h
  relay_frontend_lem FrontendType.parse c h =
      frontend_dropped parse_msg FrontendMsg.parse _ _ refl (λ msg bytes k. k) (λ msg. refl) c h
  relay_frontend_lem FrontendType.password c h =
      frontend_dropped password_msg FrontendMsg.password _ _ refl (λ msg bytes k. k) (λ msg. refl) c
        h
  relay_frontend_lem FrontendType.query c h =
      frontend_dropped query_msg FrontendMsg.query _ _ refl (λ msg bytes k. k) (λ msg. refl) c h
  relay_frontend_lem FrontendType.sasl_initial_response c h =
      frontend_dropped sasl_initial_response_msg FrontendMsg.sasl_initial_response _ _ refl
        (λ msg bytes k. k) (λ msg. refl) c h
  relay_frontend_lem FrontendType.sasl_response c h =
      frontend_dropped sasl_response_msg FrontendMsg.sasl_response _ _ refl (λ msg bytes k. k)
        (λ msg. refl) c h
  relay_frontend_lem FrontendType.sync c h =
      frontend_dropped sync_msg FrontendMsg.sync _ _ refl (λ msg bytes k. k) (λ msg. refl) c h
  relay_frontend_lem FrontendType.terminate c h =
      frontend_dropped terminate_msg FrontendMsg.terminate _ _ refl (λ msg bytes k. k) (λ msg. refl)
        c h
