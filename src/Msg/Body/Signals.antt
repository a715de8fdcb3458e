-- ===== src/Msg/Body/Signals.antt =====
-- The messages with an empty body: src/msg/body/{bind_complete,empty_query_response,parse_complete,
-- portal_suspended,sync,terminate}.rs.
use postgread.Prelude.{
  ℕ, suc, ◌-◌, ◌≡◌, refl, ◌↔◌, List, [], ◌∷◌, Option, some, Result, length, arith,
}
use postgread.Msg.TypeByte.{TypeByte}
use postgread.Msg.Decode
use postgread.Msg.Decode.{MsgDecode, pure}
use postgread.Msg.Read.{decode_msg, check_body, check_left}

pub data BindComplete : Type 0 where
  bind_complete : BindComplete

pub data EmptyQueryResponse : Type 0 where
  empty_query_response : EmptyQueryResponse

pub data ParseComplete : Type 0 where
  parse_complete : ParseComplete

pub data PortalSuspended : Type 0 where
  portal_suspended : PortalSuspended

pub data Sync : Type 0 where
  sync : Sync

pub data Terminate : Type 0 where
  terminate : Terminate

unfoldable pub bind_complete_msg : MsgDecode BindComplete
bind_complete_msg = record {
  type_byte_opt = some TypeByte.bind_complete;
  decode_body = pure bind_complete;
}

abbrev pub empty_query_response_type_byte : ℕ
empty_query_response_type_byte = b'I'

unfoldable pub empty_query_response_msg : MsgDecode EmptyQueryResponse
empty_query_response_msg = record {
  type_byte_opt = some TypeByte.empty_query_response;
  decode_body = pure empty_query_response;
}

unfoldable pub parse_complete_msg : MsgDecode ParseComplete
parse_complete_msg = record {
  type_byte_opt = some TypeByte.parse_complete;
  decode_body = pure parse_complete;
}

unfoldable pub portal_suspended_msg : MsgDecode PortalSuspended
portal_suspended_msg = record {
  type_byte_opt = some TypeByte.portal_suspended;
  decode_body = pure portal_suspended;
}

unfoldable pub sync_msg : MsgDecode Sync
sync_msg = record {
  type_byte_opt = some TypeByte.parameter_status_or_sync;
  decode_body = pure sync;
}

abbrev pub terminate_type_byte : ℕ
terminate_type_byte = b'X'

unfoldable pub terminate_msg : MsgDecode Terminate
terminate_msg = record { type_byte_opt = some TypeByte.terminate; decode_body = pure terminate }

-- A decoder that takes nothing accepts just the empty body.
signal_iff :
    {A : Type 0} (a : A) (type_byte_opt : Option TypeByte) (input : List ℕ)
    → (decode_msg (record { type_byte_opt = type_byte_opt; decode_body = pure a }) input
        ≡ Result.ok a)
      ↔ (input ≡ [])
unfolding decode_msg check_body check_left Decode.new Decode.left
signal_iff a t [] = (λ e. refl, λ e. refl)
signal_iff a t (b ∷ bs) =
    let more : suc (length bs) - 0 ≡ suc (length bs) = omega arith in
    (λ e. cc (rw more at e), λ e. cc)

-- The messages that are nothing but their type are accepted just where the body is empty.
pub decode_signals_iff :
    (input : List ℕ)
    → ((decode_msg bind_complete_msg input ≡ Result.ok bind_complete) ↔ (input ≡ []))
      × ((decode_msg empty_query_response_msg input ≡ Result.ok empty_query_response)
          ↔ (input ≡ []))
      × ((decode_msg parse_complete_msg input ≡ Result.ok parse_complete) ↔ (input ≡ []))
      × ((decode_msg portal_suspended_msg input ≡ Result.ok portal_suspended) ↔ (input ≡ []))
      × ((decode_msg sync_msg input ≡ Result.ok sync) ↔ (input ≡ []))
      × ((decode_msg terminate_msg input ≡ Result.ok terminate) ↔ (input ≡ []))
unfolding bind_complete_msg empty_query_response_msg parse_complete_msg portal_suspended_msg
    sync_msg terminate_msg
decode_signals_iff input = (
  signal_iff bind_complete (some TypeByte.bind_complete) input,
  signal_iff empty_query_response (some TypeByte.empty_query_response) input,
  signal_iff parse_complete (some TypeByte.parse_complete) input,
  signal_iff portal_suspended (some TypeByte.portal_suspended) input,
  signal_iff sync (some TypeByte.parameter_status_or_sync) input,
  signal_iff terminate (some TypeByte.terminate) input,
)
