-- ===== src/Message/Sizes.antt =====
-- The sizes that rstr_core/src/message.rs states for its structs.
use rstr.Prelude.{ℕ, ◌+◌}
use rstr.Binary.Serialization.{static_size, string_size, u32, u64}
use rstr.Message.{RequestChunkData}

unfoldable pub request_meta_size : ℕ
unfolding static_size
request_meta_size = static_size u64

unfoldable pub request_chunk_size : RequestChunkData → ℕ
unfolding static_size string_size
request_chunk_size request = string_size request.path + static_size u64 + static_size u32

unfoldable pub transmit_chunk_header_size : ℕ
transmit_chunk_header_size = 20 + 8 + 4
