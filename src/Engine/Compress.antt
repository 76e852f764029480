-- ===== src/Engine/Compress.antt =====
-- Compression of slotted pages (src/storage_engine.c): the bytes from `free_space_end` to the end of
-- the page are replaced by their compressed form when that saves more than 64 bytes.
pub mod RoundTrip
mod Tests
use inventixdb.Base.{
  ℕ, ◌+◌, ◌-◌, ◌%◌, Bool, true, false, ◌&&◌, [], Bytes, ltb, leb, ◌==◌, if◌then◌else◌, length, load,
  store,
}
use inventixdb.Engine.Lz4.{compress_lz4, decompress_lz4}
use inventixdb.Engine.SlottedPage.{SlottedPage, page_size}

abbrev pub compression_threshold : ℕ
compression_threshold = 512

-- `PAGE_FLAG_COMPRESSED` is the lowest bit.
unfoldable pub slotted_page_is_compressed : SlottedPage → Bool
slotted_page_is_compressed p = p.flags % 2 == 1

-- The bytes of the records
abbrev pub data_size : SlottedPage → ℕ
data_size p = page_size - p.free_space_end

abbrev pub page_data : SlottedPage → Bytes
page_data p = load p.free_space_end (data_size p) p.memory

-- The page with `bs` in the place of the first bytes of the records
unfoldable pub replace_data : SlottedPage → Bytes → ℕ → SlottedPage
replace_data p bs flags = record p { memory = store p.free_space_end bs p.memory; flags = flags }

-- `true` for the result 1, `false` for 0
unfoldable pub slotted_page_compress : SlottedPage → SlottedPage × Bool
slotted_page_compress p =
    let compressed = compress_lz4 (page_data p) page_size in
    if slotted_page_is_compressed p
    then (p, false)
    else (if ltb (data_size p) compression_threshold
        then (p, false)
        else (if ltb 0 (length compressed) && ltb (length compressed) (data_size p - 64)
            then (replace_data p compressed (p.flags + 1), true)
            else (p, false)))

-- The results 0, 1 and -1 of `slotted_page_decompress`
pub data Decompression : Type 0 where
  not_compressed decompressed failed : Decompression

-- `dst` is what the buffer on the stack holds.
unfoldable pub slotted_page_decompress : (ℕ → ℕ) → SlottedPage → SlottedPage × Decompression
slotted_page_decompress dst p =
    let bytes = decompress_lz4 dst (page_data p) page_size in
    if slotted_page_is_compressed p
    then (if ltb 0 (length bytes)
        then (replace_data p bytes (p.flags - 1), decompressed)
        else (p, failed))
    else (p, not_compressed)
