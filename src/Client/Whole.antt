-- ===== src/Client/Whole.antt =====
-- The local file at the end of a download, byte for byte (rstr_client/src/client.rs).
use rstr.Prelude.{
  ℕ, zero, suc, ◌+◌, ◌^◌, ◌≤◌, ◌<◌, ◌≡◌, refl, sym, ap, ◌∙◌, inl, inr, true, none, some, List, [],
  length, ltb, ◌==◌, drop, get_elem?, arith, Bool-cases, All, concat, subst,
}
use rstr.Prelude.Int.{to_unsigned}
use rstr.Prelude.Text.{Text}
use rstr.Prelude.Positions.{get_elem?-ext}
use rstr.Meta.Types.{Chunk, MetaIndexEntry}
use rstr.Meta.Index.{contains, insert, find_entry, receive}
use rstr.Meta.Members.{length-le_bound, contains-insert}
use rstr.Meta.Received.{receive-IsReceived}
use rstr.Meta.Create.{buffer_limit}
use rstr.Meta.Slices.{Describes, Describes-get_elem?, Describes-apart, Describes-covers}
use rstr.Client.Types.{Platform}
use rstr.Client.Receiver.{Receiver, RequestingFile, Files, find_first_undownloaded}
use rstr.Client.Chunks.{bytes_of, set_len}
use rstr.Client.Files.{length-set_len, set_len_same}
use rstr.Client.Transmit.{parts}
use rstr.Client.Completing.{get_elem?-below}
use rstr.Client.Requests.{find_first_undownloaded-none}
use rstr.Client.Transfers.{receive_all, ArePartsOf, parts-ArePartsOf, parts-arrive}
use rstr.Client.Contents.{content, AgreeOn, Holds-AgreeOn, IsStamped, Changes, receive_all-Changes}
use rstr.Client.Download.{
  length-insert_new, answer, download, download_ends, download_asks, IsBefore, answered-Leads,
}

-- The chunks that are marked as received stand in the local file.
abbrev pub Kept : List ℕ → Files → MetaIndexEntry → Type 0
Kept file files e =
    (j : ℕ) (c : Chunk)
    → get_elem? e.meta.chunks j ≡ some c
    → contains e.received_chunks j ≡ true
    → AgreeOn (content files e.local_path e.meta.size) file c.offset (c.offset + c.size)

module _ (hash : List ℕ → ℕ) (file : List ℕ) (e : MetaIndexEntry)
    (described : Describes hash 0 e.meta.chunks file) where
  -- What changes only one chunk keeps the others.
  Changes-Kept :
      (old new : Files) (i : ℕ) (c : Chunk)
      → get_elem? e.meta.chunks i ≡ some c
      → Changes old new e c
      → AgreeOn (content new e.local_path e.meta.size) file c.offset (c.offset + c.size)
      → Kept file old e
      → Kept file new (receive i e)
  Changes-Kept old new i c at changes arrived kept j d there received = elim (Bool-cases (i == j)) [
    | inl same ↦
        let is_i : i ≡ j = ground arith in
        let both : some c ≡ some d = sym at ∙ ap (get_elem? e.meta.chunks) is_i ∙ there in
        let is_c : c ≡ d = ground arith in
        subst
          (λ x. AgreeOn (content new e.local_path e.meta.size) file x.offset (x.offset + x.size))
          is_c arrived
    | inr other ↦
        let before : contains e.received_chunks j ≡ true =
          ground (arith, contains-insert e.received_chunks i j, received, other) in
        λ k from to.
          changes.elsewhere k (elim (Bool-cases (ltb i j)) [
            | inl earlier ↦
                let apart =
                  Describes-apart hash 0 e.meta.chunks file i j c d described at there
                    (ground arith) in
                inr (omega arith)
            | inr later ↦
                let apart =
                  Describes-apart hash 0 e.meta.chunks file j i d c described there at
                    (ground arith) in
                inl (omega arith)
          ])
          ∙ kept j d there before k from to
  ]

  -- When nothing is missing, the local file is the file.
  whole_file :
      (files : Files)
      → e.meta.size ≡ length file
      → ((j : ℕ) → j < length e.meta.chunks → contains e.received_chunks j ≡ true)
      → IsStamped files e
      → Kept file files e
      → files.stored e.local_path
        ≡ some (record { bytes = file; modified = to_unsigned 64 e.meta.file_modified })
  unfolding bytes_of
  whole_file files whole every stamped kept =
      let holds : content files e.local_path e.meta.size ≡ stamped.bytes =
        ap (λ stored. set_len e.meta.size (bytes_of stored)) stamped.there
        ∙ set_len_same e.meta.size stamped.bytes stamped.sized in
      let is_file : content files e.local_path e.meta.size ≡ file =
        get_elem?-ext (content files e.local_path e.meta.size) file
          (length-set_len e.meta.size (bytes_of (files.stored e.local_path)) ∙ whole)
          (λ k lt.
            let (i, c, at, from, to) =
              Describes-covers hash 0 e.meta.chunks file k described (
                omega (arith, length-set_len e.meta.size (bytes_of (files.stored e.local_path)))) in
            kept i c at (every i (get_elem?-below e.meta.chunks i c at)) k (omega arith)
              (omega arith)) in
      stamped.there
      ∙ ap
          (λ bytes. some (record { bytes = bytes; modified = to_unsigned 64 e.meta.file_modified }))
          (sym holds ∙ is_file)

module _ (P : Platform) (p : Text) (buffers : ℕ → List (List ℕ)) where
  module _ (file : List ℕ) (e : MetaIndexEntry)
      (described : Describes P.hasher.hash 0 e.meta.chunks file) (whole : e.meta.size ≡ length file)
      (read : (i : ℕ) (c : Chunk)
        → get_elem? e.meta.chunks i ≡ some c
        → All (λ b. (0 < length b) × (length b ≤ buffer_limit)) (buffers i)
          × (concat (buffers i) ≡ drop c.offset file)) where
    -- An answer puts its chunk into the local file and leaves the other ones in it.
    answered-Kept :
        (s : Receiver P) (c : Chunk) (r : RequestingFile P)
        → IsBefore P p buffers s e c r
        → Kept file s.files e
        → IsStamped
            (receive_all P (answer P p buffers e.meta.chunks r.chunk_index) s).1.files
            (receive r.chunk_index e)
          × Kept file
              (receive_all P (answer P p buffers e.meta.chunks r.chunk_index) s).1.files
              (receive r.chunk_index e)
    answered-Kept s c r b kept =
        let i : ℕ = r.chunk_index in
        let d = b.waits in
        let (bufs, from_offset) = read i c d.chunk in
        let slice = Describes-get_elem? P.hasher.hash 0 e.meta.chunks file i c described d.chunk in
        let sent : ArePartsOf P.hasher.hash file c (parts c.size 0 (buffers i)) =
          parts-ArePartsOf P.hasher.hash e.meta.chunks file i c (buffers i) described d.chunk bufs
            from_offset in
        let changes =
          receive_all-Changes P s e c r [] (parts c.size 0 (buffers i)) d sent.some_bytes
            sent.not_empty (omega (arith, sent.full)) in
        let new : Files = (receive_all P (parts c.size 0 (buffers i)) s).1.files in
        let arrived =
          Holds-AgreeOn new e.local_path e.meta.size c.offset c.size file (omega (arith, slice.1))
            ((parts-arrive P file (buffers i) s e c r described d bufs from_offset).1) in
        let is_parts : answer P p buffers e.meta.chunks i ≡ parts c.size 0 (buffers i) =
          rw (d.chunk, answer) refl in
        rw is_parts (
          record {
            bytes = changes.stamped.bytes;
            there = changes.stamped.there;
            sized = changes.stamped.sized;
          },
          Changes-Kept P.hasher.hash file e described s.files new i c d.chunk changes arrived kept,
        )

  -- A download ends with the file. The receiver waits for a chunk that it lacks, its entry has
  -- received chunks of its file only, and these stand in the local file; its disk takes every index
  -- that it may save; the sender has the file that the metadata was made of, of fewer than 2^64 bytes
  -- and 2^32 chunks, and answers each request with the parts of the chunk, read in buffers of at most
  -- 64 KiB. Then after as many rounds as chunks are missing, or more, the entry has the same metadata
  -- and no chunk is missing, and the local file has the bytes of the sender's file, no more and no
  -- fewer, and the time of its metadata as that of its last change.
  pub download_completes :
      (file : List ℕ) (rounds : ℕ) (s : Receiver P) (e : MetaIndexEntry) (c : Chunk)
      (r : RequestingFile P)
      → Describes P.hasher.hash 0 e.meta.chunks file
      → e.meta.size ≡ length file
      → e.meta.size < 2 ^ 64
      → length e.meta.chunks < 2 ^ 32
      → ((i : ℕ) (c : Chunk)
          → get_elem? e.meta.chunks i ≡ some c
          → All (λ b. (0 < length b) × (length b ≤ buffer_limit)) (buffers i)
            × (concat (buffers i) ≡ drop c.offset file))
      → IsBefore P p buffers s e c r
      → Kept file s.files e
      → length e.meta.chunks ≤ rounds + length e.received_chunks
      → (e' : MetaIndexEntry) × (find_entry (download P p buffers e.meta.chunks rounds s).index p
          ≡ some e')
        × (e'.meta ≡ e.meta)
        × (find_first_undownloaded P e' ≡ none)
        × ((download P p buffers e.meta.chunks rounds s).files.stored e.local_path
            ≡ some (record { bytes = file; modified = to_unsigned 64 e.meta.file_modified }))
  download_completes file zero s e c r described whole small few read b kept enough =
      let longer : length (insert e.received_chunks r.chunk_index)
          ≡ suc (length e.received_chunks) =
        length-insert_new e.received_chunks r.chunk_index b.lacks in
      let fine =
        receive-IsReceived e r.chunk_index
          (get_elem?-below e.meta.chunks r.chunk_index c b.waits.chunk) b.fine in
      absurd (
        omega (
          arith,
          length-le_bound (length e.meta.chunks) (insert e.received_chunks r.chunk_index) fine.once
              fine.known,
        ))
  download_completes file (suc rounds) s e c r described whole small few read b kept enough =
      let i : ℕ = r.chunk_index in
      let longer : length (insert e.received_chunks i) ≡ suc (length e.received_chunks) =
        length-insert_new e.received_chunks i b.lacks in
      let (found, leads) =
        answered-Leads P p buffers file e described whole small few read s c r b in
      let (stamped, held) = answered-Kept file e described whole read s c r b kept in
      let s' : Receiver P = (receive_all P (answer P p buffers e.meta.chunks i) s).1 in
      rw (download_asks P p buffers e.meta.chunks rounds s r b.waits.requesting) (elim leads [
        | inl (c', r', b') ↦
            download_completes file rounds s' (receive i e) c' r' described whole small few read b'
              held (omega arith)
        | inr (done, asks_nothing) ↦
            let ended : download P p buffers e.meta.chunks rounds s' ≡ s' =
              download_ends P p buffers e.meta.chunks rounds s' asks_nothing in
            (
              receive i e,
              ap (λ t. find_entry t.index p) ended ∙ found,
              refl,
              done,
              ap (λ t. t.files.stored e.local_path) ended
                  ∙ whole_file P.hasher.hash file (receive i e) described s'.files whole
                      (find_first_undownloaded-none P (receive i e) few done) stamped held,
            )
      ])
