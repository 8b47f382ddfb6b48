-- ===== src/Client/Resumed.antt =====
-- A file from the resumption of its download to its last byte (rstr_client/src/client.rs).
use rstr.Prelude.{
  ℕ, ◌+◌, ◌^◌, ◌≤◌, ◌<◌, ◌≡◌, true, false, none, some, List, length, drop, get_elem?, arith, All,
  concat,
}
use rstr.Prelude.Int.{to_unsigned}
use rstr.Prelude.Text.{Text}
use rstr.Meta.Types.{Chunk, MetaIndexEntry}
use rstr.Meta.Index.{find_entry}
use rstr.Meta.Received.{IsReceived}
use rstr.Meta.Create.{buffer_limit}
use rstr.Meta.Slices.{Describes, Describes-get_elem?}
use rstr.Client.Types.{Platform, idle}
use rstr.Client.Receiver.{Receiver, find_first_undownloaded, resume_file}
use rstr.Client.Requests.{find_first_undownloaded_least, get_elem?-some}
use rstr.Client.Starting.{resume_file_lem, resume_file-keeps}
use rstr.Client.Download.{mark_all, download}
use rstr.Client.Whole.{Kept, download_completes}

-- A download that is resumed ends with the file. The receiver is idle and has the file in its index,
-- with received chunks of it only, each once, and at least one that is missing; the received ones
-- stand in the local file; the file has fewer than 2^64 bytes and 2^32 chunks and still is what its
-- metadata was made of; the event loop runs, the local file can be written, and the disk takes every
-- index that is saved on the way; each request is answered with the parts of its chunk, read in
-- buffers of at most 64 KiB. Then after as many answers as chunks are missing, or more, the local
-- file is the sender's, byte for byte and with the time of its metadata, and no chunk is missing.
pub resumed_file_arrives :
    (P : Platform) (s : Receiver P) (p : Text) (e : MetaIndexEntry) (i : ℕ) (file : List ℕ)
    (buffers : ℕ → List (List ℕ)) (rounds : ℕ)
    → s.state ≡ idle
    → find_entry s.index p ≡ some e
    → IsReceived e
    → find_first_undownloaded P e ≡ some i
    → Kept file s.files e
    → Describes P.hasher.hash 0 e.meta.chunks file
    → e.meta.size ≡ length file
    → e.meta.size < 2 ^ 64
    → length e.meta.chunks < 2 ^ 32
    → s.stopped ≡ false
    → s.files.refused e.local_path ≡ false
    → s.disk.can_write ≡ true
    → ((chunks : List ℕ)
        → (encoding : List ℕ) × (P.bincode.encode (mark_all p chunks s.index) ≡ some encoding))
    → ((i : ℕ) (c : Chunk)
        → get_elem? e.meta.chunks i ≡ some c
        → All (λ b. (0 < length b) × (length b ≤ buffer_limit)) (buffers i)
          × (concat (buffers i) ≡ drop c.offset file))
    → length e.meta.chunks ≤ rounds + length e.received_chunks
    → (e' : MetaIndexEntry) × (find_entry
          (download P p buffers e.meta.chunks rounds (resume_file P p s).1).index
          p
        ≡ some e')
      × (e'.meta ≡ e.meta)
      × (find_first_undownloaded P e' ≡ none)
      × ((download P p buffers e.meta.chunks rounds (resume_file P p s).1).files.stored e.local_path
          ≡ some (record { bytes = file; modified = to_unsigned 64 e.meta.file_modified }))
resumed_file_arrives P s p e i file buffers rounds is_idle found fine next kept described whole
      small few running writable writes encodes read enough =
    let least = find_first_undownloaded_least P e few i 0 next in
    let (c, there) = get_elem?-some e.meta.chunks i least.0 in
    let slice = Describes-get_elem? P.hasher.hash 0 e.meta.chunks file i c described there in
    let room : c.offset + c.size ≤ e.meta.size = omega (arith, slice.1) in
    let (r, went, path, is_i, waits) =
      resume_file_lem P s p e i is_idle found fine next c there room small writable running in
    let (index, files, disk) =
      resume_file-keeps P s p e i is_idle found fine next c there room small writable running in
    download_completes P p buffers file rounds (resume_file P p s).1 e c r described whole small few
      read
      (record {
        waits = waits;
        path = path;
        fine = fine;
        lacks = rw is_i least.1;
        writes = rw disk writes;
        encodes = λ chunks. rw index (encodes chunks);
      })
      (rw files kept) enough
