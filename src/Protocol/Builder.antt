-- ===== src/Protocol/Builder.antt =====
-- `base_builder` of src/aurum/protocol/frame_builder.cpp: the payloads queued for one frame.
use aurum.Base.{ℕ, ◌+◌, ◌%◌, ◌^◌, List, [], ◌∷◌, ◌++◌}
use aurum.Bytes.{Bytes}

pub record Builder : Type 0 where
  pub buffers : List Bytes
  -- A `std::atomic<std::size_t>`.
  pub total_payload_size : ℕ

-- `frame_builder::as_request` and `as_response`: a builder as its constructor leaves it.
unfoldable pub fresh : Builder
fresh = record { buffers = []; total_payload_size = 0 }

-- `buffers_.push_back(...)` and `total_payload_size_.fetch_add(...)`, the end of every `add_…`.
unfoldable pub push_back : Bytes → ℕ → Builder → Builder
push_back buffer size b = record {
  buffers = b.buffers ++ (buffer ∷ []);
  total_payload_size = (b.total_payload_size + size) % 2 ^ 64;
}

unfoldable pub flush : Builder → Builder
flush b = record { buffers = []; total_payload_size = 0 }
