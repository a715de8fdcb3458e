-- ===== src/Msg/Body/Types.antt =====
-- src/msg/body.rs: the types of messages that it gives names to, and their decoders.
use postgread.Prelude.{ℕ, ◌≤◌, ◌≡◌, refl, List, [], length, AllBytes, arith, ◌≢◌, length-append}
use postgread.Msg.Decode
use postgread.Msg.Decode.{
  out_of_fuel, take_left, DecodeResult, BytesSource, Decoder, MsgDecode, pure,
}
use postgread.Msg.Decode.Collect.{take_left-Sound}
use postgread.Msg.Decode.Sound.{Sound, Sound-weaken, Sound-pure, Sound-map, Post, taken, stopped}
use postgread.Msg.Decode.Exact.{Exact}
use postgread.Msg.Body.Authentication.{
  Authentication, authentication_msg, IsAuthentication-ExactAll,
}
use postgread.Msg.Body.Credentials.{
  GssResponse, gss_response_msg, Password, password_msg, password-Exact, SaslInitialResponse,
  sasl_initial_response_msg, IsSaslInitialResponse-Exact, SaslResponse, sasl_response_msg,
}
use postgread.Msg.Body.ErrorAndNotice.{
  decode_fields, ErrorResponse, error_response_msg, NoticeResponse, notice_response_msg,
}
use postgread.Msg.Body.ErrorAndNotice.Entries.{decode_fields-Sound}
use postgread.Msg.Body.Initial.{Initial, initial_msg, IsInitial-ExactAll}
use postgread.Msg.Body.Rows.{
  CommandComplete, command_complete_msg, command_complete-Exact, DataRow, data_row_msg,
  IsDataRow-Exact, RowDescription, row_description_msg, IsRowDescription-Exact,
}
use postgread.Msg.Body.Signals.{
  BindComplete, bind_complete_msg, EmptyQueryResponse, empty_query_response_msg, ParseComplete,
  parse_complete_msg, PortalSuspended, portal_suspended_msg, Sync, sync_msg, Terminate,
  terminate_msg,
}
use postgread.Msg.Body.Statements.{
  Bind, bind_msg, bind-Exact_lem, Execute, execute_msg, IsExecute-Exact, Parse, parse_msg,
  IsParse-Exact, Query, query_msg, query-Exact,
}
use postgread.Msg.Body.Status.{
  BackendKeyData, backend_key_data_msg, IsBackendKeyData-Exact, NegotiateProtocolVersion,
  negotiate_protocol_version_msg, IsNegotiateProtocolVersion-Exact, ParameterStatus,
  parameter_status_msg, IsParameterStatus-Exact, ReadyForQuery, ready_for_query_msg,
  ready_for_query-Exact,
}

pub data MsgType : Type 0 where
  authentication backend_key_data bind bind_complete command_complete data_row : MsgType
  error_response notice_response execute gss_response initial empty_query_response : MsgType
  negotiate_protocol_version parameter_status password parse parse_complete : MsgType
  portal_suspended query ready_for_query row_description sasl_initial_response : MsgType
  sasl_response sync terminate : MsgType

abbrev pub MsgOf : MsgType → Type 0
MsgOf authentication = Authentication
MsgOf backend_key_data = BackendKeyData
MsgOf bind = Bind
MsgOf bind_complete = BindComplete
MsgOf command_complete = CommandComplete
MsgOf data_row = DataRow
MsgOf error_response = ErrorResponse
MsgOf notice_response = NoticeResponse
MsgOf execute = Execute
MsgOf gss_response = GssResponse
MsgOf initial = Initial
MsgOf empty_query_response = EmptyQueryResponse
MsgOf negotiate_protocol_version = NegotiateProtocolVersion
MsgOf parameter_status = ParameterStatus
MsgOf password = Password
MsgOf parse = Parse
MsgOf parse_complete = ParseComplete
MsgOf portal_suspended = PortalSuspended
MsgOf query = Query
MsgOf ready_for_query = ReadyForQuery
MsgOf row_description = RowDescription
MsgOf sasl_initial_response = SaslInitialResponse
MsgOf sasl_response = SaslResponse
MsgOf sync = Sync
MsgOf terminate = Terminate

abbrev pub msg_decode : (t : MsgType) → MsgDecode (MsgOf t)
msg_decode authentication = authentication_msg
msg_decode backend_key_data = backend_key_data_msg
msg_decode bind = bind_msg
msg_decode bind_complete = bind_complete_msg
msg_decode command_complete = command_complete_msg
msg_decode data_row = data_row_msg
msg_decode error_response = error_response_msg
msg_decode notice_response = notice_response_msg
msg_decode execute = execute_msg
msg_decode gss_response = gss_response_msg
msg_decode initial = initial_msg
msg_decode empty_query_response = empty_query_response_msg
msg_decode negotiate_protocol_version = negotiate_protocol_version_msg
msg_decode parameter_status = parameter_status_msg
msg_decode password = password_msg
msg_decode parse = parse_msg
msg_decode parse_complete = parse_complete_msg
msg_decode portal_suspended = portal_suspended_msg
msg_decode query = query_msg
msg_decode ready_for_query = ready_for_query_msg
msg_decode row_description = row_description_msg
msg_decode sasl_initial_response = sasl_initial_response_msg
msg_decode sasl_response = sasl_response_msg
msg_decode sync = sync_msg
msg_decode terminate = terminate_msg

-- A decoder that ends on any bytes, with its cursor within them.
abbrev pub IsTotal : {A : Type 0} → Decoder A → Type 0
IsTotal d = Sound (λ a used. Unit {0}) d

IsTotal-of : {A : Type 0} {P : A → List ℕ → Type 0} (d : Decoder A) → Sound P d → IsTotal d
IsTotal-of d sound = Sound-weaken _ _ d sound (λ a used p. tt)

Exact-IsTotal :
    {A : Type 0} {W : A → Type 0} {bytes : A → List ℕ} (d : Decoder A) → Exact W bytes d → IsTotal d
Exact-IsTotal d x = IsTotal-of d x.sound

pub msg_decode-IsTotal : (t : MsgType) → IsTotal (msg_decode t).decode_body
unfolding gss_response_msg sasl_response_msg error_response_msg notice_response_msg
    bind_complete_msg empty_query_response_msg parse_complete_msg portal_suspended_msg sync_msg
    terminate_msg
msg_decode-IsTotal authentication =
    IsTotal-of authentication_msg.decode_body IsAuthentication-ExactAll.sound
msg_decode-IsTotal backend_key_data = Exact-IsTotal _ IsBackendKeyData-Exact
msg_decode-IsTotal bind = Exact-IsTotal _ bind-Exact_lem
msg_decode-IsTotal bind_complete = Sound-pure _ _ tt
msg_decode-IsTotal command_complete = Exact-IsTotal _ command_complete-Exact
msg_decode-IsTotal data_row = Exact-IsTotal _ IsDataRow-Exact
msg_decode-IsTotal error_response =
    Sound-map _ _ decode_fields (λ f. record { fields = f }) decode_fields-Sound (λ f used p. tt)
msg_decode-IsTotal notice_response =
    Sound-map _ _ decode_fields (λ f. record { fields = f }) decode_fields-Sound (λ f used p. tt)
msg_decode-IsTotal execute = Exact-IsTotal _ IsExecute-Exact
msg_decode-IsTotal gss_response =
    Sound-map _ _ take_left (λ bytes. record { data_bytes = bytes }) take_left-Sound
      (λ bytes used p. tt)
msg_decode-IsTotal initial = IsTotal-of initial_msg.decode_body IsInitial-ExactAll.sound
msg_decode-IsTotal empty_query_response = Sound-pure _ _ tt
msg_decode-IsTotal negotiate_protocol_version = Exact-IsTotal _ IsNegotiateProtocolVersion-Exact
msg_decode-IsTotal parameter_status = Exact-IsTotal _ IsParameterStatus-Exact
msg_decode-IsTotal password = Exact-IsTotal _ password-Exact
msg_decode-IsTotal parse = Exact-IsTotal _ IsParse-Exact
msg_decode-IsTotal parse_complete = Sound-pure _ _ tt
msg_decode-IsTotal portal_suspended = Sound-pure _ _ tt
msg_decode-IsTotal query = Exact-IsTotal _ query-Exact
msg_decode-IsTotal ready_for_query = Exact-IsTotal _ ready_for_query-Exact
msg_decode-IsTotal row_description = Exact-IsTotal _ IsRowDescription-Exact
msg_decode-IsTotal sasl_initial_response = Exact-IsTotal _ IsSaslInitialResponse-Exact
msg_decode-IsTotal sasl_response =
    Sound-map _ _ take_left (λ bytes. record { mechanism_data = bytes }) take_left-Sound
      (λ bytes used p. tt)
msg_decode-IsTotal sync = Sound-pure _ _ tt
msg_decode-IsTotal terminate = Sound-pure _ _ tt

Post-bounds :
    {A : Type 0} {P : A → List ℕ → Type 0} (input : List ℕ) {r : DecodeResult A} {s : BytesSource}
    → Post P [] input r s
    → (r ≢ out_of_fuel) × (s.slice ≡ input) × (s.pos ≤ length s.slice)
Post-bounds input (taken {a} used rest e es p) =
    (λ h. cc, rw (es, e) refl, rw es (omega (arith, length-append used rest)))
Post-bounds input (stopped e h) = (λ k. cc, e, h)

-- Whatever bytes the body of a message has, and whichever type it is decoded as, the decoder comes
-- to an end without running out of fuel, the body is as it was, and the cursor is within it.
pub decode_body-bounds :
    (t : MsgType) (body : List ℕ)
    → AllBytes body
    → (((msg_decode t).decode_body (Decode.new body)).0 ≢ out_of_fuel)
      × (((msg_decode t).decode_body (Decode.new body)).1.slice ≡ body)
      × (((msg_decode t).decode_body (Decode.new body)).1.pos ≤ length body)
unfolding Decode.new
decode_body-bounds t body h =
    let (ends, same, within) = Post-bounds body (msg_decode-IsTotal t [] body h) in
    (ends, same, rw same at within)
