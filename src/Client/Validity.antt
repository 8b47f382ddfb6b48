-- ===== src/Client/Validity.antt =====
-- The index of the receiver stays valid, whatever the server sends (`Receiver` in
-- rstr_client/src/client.rs).
use rstr.Meta.Received.{IsValid}
use rstr.Message.{MessagePayload}
use rstr.Client.Types.{Platform}
use rstr.Client.Receiver.{Receiver}
use rstr.Client.Chunks.{process_message}
use rstr.Client.Keeping.{process_message-Keeps}

module _ (P : Platform) where
  -- No message from the server makes the receiver's index invalid, whether it is taken or refused and
  -- whatever fails on the way: one entry for a path, and each entry has received chunks of its file
  -- only, each once.
  pub process_message-IsValid :
      (payload : MessagePayload) (s : Receiver P)
      → IsValid s.index
      → IsValid (process_message P payload s).1.index
  process_message-IsValid payload s v =
      (process_message-Keeps P (λ _. Unit) (λ _ _ _ _. tt) payload s (v, tt)).0
