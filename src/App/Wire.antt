-- ===== src/App/Wire.antt =====
-- The socket of the client program: what the event loop of rstr_client/src/main.rs has written is
-- what `read_task` at the other end reads.
use rstr.Prelude.{
  arith, ◌≡◌, refl, sym, append-nil, append_assoc, length, ◌∙◌, some, List, [], ◌∷◌, ◌++◌, map,
  true, ℕ,
}
use rstr.Message.{BinaryMessage}
use rstr.Client.Types.{Platform, process_message, send_message}
use rstr.App.State.{Codec, App, write}
use rstr.App.Dispatch.{send_encoded, handle}
use rstr.App.Loop.{Incoming, message_data, read_task, event_loop, connection_interrupted}

module _ (P : Platform) (C : Codec) where
  -- The messages have encodings, and these are they.
  abbrev Encodes : List BinaryMessage → List (List ℕ) → Type 0
  Encodes [] [] = Unit
  Encodes (m ∷ messages) (bytes ∷ frames) = (C.encode m ≡ some bytes) × Encodes messages frames
  Encodes _ _ = ⊥

  read_one :
      (m : BinaryMessage) (bytes : List ℕ) (incoming : List Incoming)
      → C.decode bytes ≡ some m
      → read_task P C (message_data bytes ∷ incoming)
        ≡ (process_message m ∷ (read_task P C incoming).0, (read_task P C incoming).1)
  unfolding read_task
  read_one m bytes incoming h = ground (arith, h)

  read_task-encoded :
      (messages : List BinaryMessage) (frames : List (List ℕ))
      → Encodes messages frames
      → read_task P C (map message_data frames)
        ≡ (map process_message messages, connection_interrupted)
  unfolding read_task
  read_task-encoded [] [] h = refl
  read_task-encoded [] (bytes ∷ frames) h = elim h [ ]
  read_task-encoded (m ∷ messages) [] h = elim h [ ]
  read_task-encoded (m ∷ messages) (bytes ∷ frames) h =
      read_one m bytes (map message_data frames) (C.decode-encode m bytes h.0)
      ∙ rw (read_task-encoded messages frames h.1) refl

  event_loop-written :
      (messages : List BinaryMessage) (frames : List (List ℕ)) (app : App P)
      → Encodes messages frames
      → app.events ≡ map send_message messages
      → app.socket_open ≡ true
      → (event_loop P C (length messages) app).1.written ≡ app.written ++ frames
  unfolding event_loop handle send_encoded write
  event_loop-written [] [] app h e opened = sym (append-nil app.written)
  event_loop-written [] (bytes ∷ frames) app h e opened = elim h [ ]
  event_loop-written (m ∷ messages) [] app h e opened = elim h [ ]
  event_loop-written (m ∷ messages) (bytes ∷ frames) app h e opened =
      rw (e, event_loop)
        (rw (h.0) (
          rw opened (
            event_loop-written messages frames
              (record app {
                events = map send_message messages;
                written = app.written ++ bytes ∷ [];
                socket_open = true;
              })
              h.1 refl refl
            ∙ append_assoc app.written (bytes ∷ []) frames)))

  -- What the event loop writes into an open socket for messages that have encodings is read from it at
  -- the other end, by `read_task`, as as many messages in the order in which they were sent; the end
  -- of the stream is then an interruption.
  pub read_task-event_loop :
      (messages : List BinaryMessage) (frames : List (List ℕ)) (app : App P)
      → Encodes messages frames
      → app.events ≡ map send_message messages
      → app.socket_open ≡ true
      → app.written ≡ []
      → read_task P C (map message_data (event_loop P C (length messages) app).1.written)
        ≡ (map process_message messages, connection_interrupted)
  read_task-event_loop messages frames app h e opened fresh =
      rw (event_loop-written messages frames app h e opened)
        (rw fresh (read_task-encoded messages frames h))
