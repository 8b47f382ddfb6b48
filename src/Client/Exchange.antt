-- ===== src/Client/Exchange.antt =====
-- A chunk from the receiver's request over the sender's task back to the receiver
-- (rstr_client/src/client.rs).
use rstr.Prelude.{ℕ, List, map}
use rstr.Prelude.Text.{Text}
use rstr.Message.{message, transmit_chunk}
use rstr.Client.Types.{EventMessage, send_message}
use rstr.Client.Receiver.{Receiver}
use rstr.Client.Sender
use rstr.Client.Sender.{Sender}

-- The messages with these parts.
abbrev pub part_messages : {F32 : Type 0} → List (List ℕ) → List (EventMessage F32)
part_messages sent = map (λ buffer. send_message (message (transmit_chunk buffer))) sent
