-- ===== src/Client/Transfers.antt =====
-- All the parts of a chunk, from the task of `process_request_chunk` on the sender's side to
-- `process_transmit_chunk` on the receiver's (rstr_client/src/client.rs).
use rstr.Prelude.{
  get_elem?, ℕ, ◌+◌, ◌-◌, ◌%◌, ◌^◌, ◌≤◌, ◌<◌, ◌≡◌, refl, sym, ap, ◌∙◌, inl, inr, false, some, List,
  [], ◌∷◌, ◌++◌, length, ltb, ◌==◌, arith, Bool-cases, subst, All, concat, take, drop, min,
  length-append, append-nil, append_assoc, length-take, length-drop,
}
use rstr.Prelude.Exec.{Outcome-cases, ◌>>◌, pure}
use rstr.Meta.Types.{Chunk, MetaIndexEntry}
use rstr.Meta.Index.{find_entry, receive}
use rstr.Meta.Create.{buffer_limit}
use rstr.Meta.Slices.{Describes, Describes-get_elem?}
use rstr.Message.{transmit_chunk}
use rstr.Client.Types.{Platform}
use rstr.Client.Receiver.{Receiver, RequestingFile, Step}
use rstr.Client.Chunks.{process_message, after_part}
use rstr.Client.Transmit.{parts}
use rstr.Client.Sending.{parts_are_the_chunk}
use rstr.Client.Receiving.{Downloading, Holds, receive_more}
use rstr.Client.Completing.{part_completes}

module _ (P : Platform) where
  -- The messages with these parts, one after the other, as long as none fails.
  unfoldable pub receive_all : List (List ℕ) → Step P Unit
  receive_all [] = pure tt
  receive_all (b ∷ buffers) = do process_message P (transmit_chunk b); receive_all buffers

  pub receive_one :
      (b : List ℕ) (receiver : Receiver P)
      → (receive_all (b ∷ []) receiver).1 ≡ (process_message P (transmit_chunk b) receiver).1
  unfolding receive_all
  receive_one b receiver = elim (Outcome-cases (process_message P (transmit_chunk b) receiver).0) [
    | inl (u, fine) ↦ rw fine refl
    | inr (inl (f, failed)) ↦ rw failed refl
    | inr (inr crashed) ↦ rw crashed refl
  ]

  -- Parts, none of them empty, that together with the bytes that came before are a chunk with its
  -- size and hash, however it is cut up, get a receiver that waits for the chunk to mark it as
  -- received, and the local file then holds their bytes at the chunk's offset.
  pub receive_all-marks :
      (receiver : Receiver P) (e : MetaIndexEntry) (c : Chunk) (r : RequestingFile P)
      (bytes : List ℕ) (buffers : List (List ℕ))
      → Downloading P receiver e c r bytes
      → All (λ b. 0 < length b) buffers
      → length bytes < c.size
      → length bytes + length (concat buffers) ≡ c.size
      → c.hash ≡ P.hasher.hash (bytes ++ concat buffers)
      → (find_entry (receive_all buffers receiver).1.index r.remote_path
          ≡ some (receive r.chunk_index e))
        × Holds
            (receive_all buffers receiver).1.files
            e.local_path
            e.meta.size
            c.offset
            (bytes ++ concat buffers)
  unfolding receive_all
  receive_all-marks receiver e c r bytes [] d some_bytes below full right = absurd (omega arith)
  receive_all-marks receiver e c r bytes (b ∷ []) d some_bytes below full right =
      let whole : b ++ [] ≡ b = append-nil b in
      let marked =
        part_completes P receiver e c r bytes b d (omega (arith, ap length whole))
          (right ∙ ap (λ x. P.hasher.hash (bytes ++ x)) whole) in
      rw (receive_one b receiver) (marked.0, rw whole (marked.1))
  receive_all-marks receiver e c r bytes (b ∷ b' ∷ buffers) d some_bytes below full right =
      let rest : List ℕ = concat (b' ∷ buffers) in
      let more : length bytes + length b < c.size =
        omega (arith, some_bytes.1.0, length-append b rest, length-append b' (concat buffers)) in
      let (p, went, kept, saved, next) = receive_more P receiver e c r bytes b d more in
      let same : (bytes ++ b) ++ rest ≡ bytes ++ (b ++ rest) = append_assoc bytes b rest in
      let later =
        receive_all-marks (process_message P (transmit_chunk b) receiver).1 e c
          (record (after_part P r b) { progress = p }) (bytes ++ b) (b' ∷ buffers) next some_bytes.1
          (omega (arith, length-append bytes b))
          (omega (arith, length-append bytes b, length-append b rest))
          (right ∙ ap P.hasher.hash (sym same)) in
      rw went (rw (sym same) later)

parts-some :
    (size count : ℕ) (buffers : List (List ℕ))
    → All (λ b. (0 < length b) × (length b ≤ buffer_limit)) buffers
    → size ≤ count + length (concat buffers)
    → size + buffer_limit < 2 ^ 32
    → All (λ b. 0 < length b) (parts size count buffers)
unfolding parts
parts-some size count [] bufs enough small =
    let full : ltb count size ≡ false = ground arith in rw (full, parts) tt
parts-some size count (b ∷ buffers) bufs enough small = elim (Bool-cases (ltb count size)) [
  | inr full ↦ rw (full, parts) tt
  | inl more ↦
      let some_bytes : (length b == 0) ≡ false = ground (arith, bufs.0.0) in
      let next : (count + length b) % 2 ^ 32 ≡ count + length b = ground (arith, bufs.0.1) in
      rw (more, parts)
        (rw (some_bytes, next)
          (
            ground
                (arith, length-take (min (size - count) (length b % 2 ^ 32)) b, bufs.0.0, bufs.0.1),
            parts-some size (count + length b) buffers bufs.1
                (omega (arith, length-append b (concat buffers))) small,
          ))
]

-- Parts of a chunk of this file: none is empty, and they are the chunk together.
pub record ArePartsOf (hash : List ℕ → ℕ) (file : List ℕ) (c : Chunk) (sent : List (List ℕ))
    : Type 0 where
  pub some_bytes : All (λ b. 0 < length b) sent
  pub slice : concat sent ≡ take c.size (drop c.offset file)
  pub full : length (concat sent) ≡ c.size
  pub right : c.hash ≡ hash (concat sent)
  pub not_empty : 0 < c.size

pub parts-ArePartsOf :
    (hash : List ℕ → ℕ) (chunks : List Chunk) (file : List ℕ) (i : ℕ) (c : Chunk)
    (buffers : List (List ℕ))
    → Describes hash 0 chunks file
    → get_elem? chunks i ≡ some c
    → All (λ b. (0 < length b) × (length b ≤ buffer_limit)) buffers
    → concat buffers ≡ drop c.offset file
    → ArePartsOf hash file c (parts c.size 0 buffers)
parts-ArePartsOf hash chunks file i c buffers described there bufs read =
    let slice = Describes-get_elem? hash 0 chunks file i c described there in
    let (sent, right) =
      parts_are_the_chunk hash chunks file i c buffers described there bufs read in
    let enough : c.size ≤ length (concat buffers) =
      omega (arith, ap length read, length-drop c.offset file, slice.1) in
    record {
      some_bytes =
          parts-some c.size 0 buffers bufs (omega (arith, enough)) (omega (arith, slice.4));
      slice = sent;
      full =
          omega (
            arith,
            ap length sent,
            length-take c.size (drop c.offset file),
            ap length read,
            enough,
          );
      right = sym right;
      not_empty = slice.3;
    }

-- From one client to the other: for a chunk of a file that still is what its metadata was
-- made of, the messages that the sender's task sends, from what it reads in buffers of at most
-- 64 KiB, get the receiver that waits for this chunk to mark it as received, and the chunk's bytes
-- then stand at their place in the receiver's file.
pub parts-arrive :
    (P : Platform) (file : List ℕ) (buffers : List (List ℕ)) (receiver : Receiver P)
    (e : MetaIndexEntry) (c : Chunk) (r : RequestingFile P)
    → Describes P.hasher.hash 0 e.meta.chunks file
    → Downloading P receiver e c r []
    → All (λ b. (0 < length b) × (length b ≤ buffer_limit)) buffers
    → concat buffers ≡ drop c.offset file
    → (find_entry (receive_all P (parts c.size 0 buffers) receiver).1.index r.remote_path
        ≡ some (receive r.chunk_index e))
      × Holds
          (receive_all P (parts c.size 0 buffers) receiver).1.files
          e.local_path
          e.meta.size
          c.offset
          (take c.size (drop c.offset file))
parts-arrive P file buffers receiver e c r described d bufs read =
    let sent : ArePartsOf P.hasher.hash file c (parts c.size 0 buffers) =
      parts-ArePartsOf P.hasher.hash e.meta.chunks file r.chunk_index c buffers described d.chunk
        bufs read in
    let marked =
      receive_all-marks P receiver e c r [] (parts c.size 0 buffers) d sent.some_bytes
        sent.not_empty (omega (arith, sent.full)) sent.right in
    (
      marked.0,
      subst
          (λ bytes.
            Holds (receive_all P (parts c.size 0 buffers) receiver).1.files e.local_path e.meta.size
              c.offset bytes)
          sent.slice marked.1,
    )
