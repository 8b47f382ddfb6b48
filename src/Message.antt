-- ===== src/Message.antt =====
-- rstr_core/src/message.rs: the messages that the clients and the server exchange. Their bytes are
-- the crate bincode's, which the derived `Encode` and `Decode` call.
pub mod Sizes
use rstr.Prelude.{ℕ, List, ◌+◌}
use rstr.Prelude.Int.{ℤ}
use rstr.Prelude.Text.{Text}
use rstr.Meta.Types.{Meta}

abbrev pub magic_header : ℕ
magic_header = 0x5353454D

pub data MessageType : Type 0 where
  unknown publish_meta remove_meta request_meta transmit_meta : MessageType
  notify_updated request_chunk transmit_chunk stop_chunk : MessageType

pub data UserStatus : Type 0 where
  connected disconnected : UserStatus

pub data LoginType : Type 0 where
  receiver sender : LoginType

pub record LoginData : Type 0 where
  pub login_type : LoginType
  pub username : Text
  pub key : Text

pub record RequestChunkData : Type 0 where
  pub path : Text
  pub index : ℕ
  pub hash : ℕ

pub record TransmitChunkHeader : Type 0 where
  pub hash : ℕ
  pub offset : ℕ
  pub size : ℕ

-- A payload that is a struct of one field carries the field.
pub data MessagePayload : Type 0 where
  unknown : MessagePayload
  error : Text → MessagePayload
  login : LoginData → MessagePayload
  login_success : MessagePayload
  publish_meta : Meta → MessagePayload
  remove_meta : Text → MessagePayload
  request_meta : ℤ → MessagePayload
  transmit_meta : List Meta → MessagePayload
  notify_updated : ℤ → MessagePayload
  request_chunk : RequestChunkData → MessagePayload
  transmit_chunk : List ℕ → MessagePayload
  notify_sender_status : UserStatus → MessagePayload
  stop_chunk : MessagePayload

pub record BinaryMessage : Type 0 where
  pub magic : ℕ
  pub payload : MessagePayload

-- `BinaryMessage::new`
abbrev pub message : MessagePayload → BinaryMessage
message payload = record { magic = magic_header; payload = payload }
