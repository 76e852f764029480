-- ===== src/Engine/Compress/Tests.antt =====
-- Runs of the page compression of src/storage_engine.c.
use inventixdb.Base.{
  ℕ, ◌≡◌, refl, [], ◌∷◌, ◌++◌, Bytes, arith, length, replicate, load, fread, le_bytes, from_le,
}
use inventixdb.Engine.Lz4.{
  common, best_match, window, emit, emit_match, has_room, lz4_loop, compress_lz4, copied_byte, copy,
  match_length, read_match, read_literal, read_token, lz4_unpack, decompress_lz4, no_fifteen,
}
use inventixdb.Engine.Lz4.RoundTrip.{decompress-compress_lz4}
use inventixdb.Engine.SlottedPage.{SlottedPage, page_size}
use inventixdb.Engine.Compress.{
  slotted_page_compress, slotted_page_decompress, slotted_page_is_compressed, decompressed,
}
use inventixdb.Engine.Compress.RoundTrip.{decompress-compress}

abbrev words : Bytes
words = 2 ∷ 3 ∷ 4 ∷ 5 ∷ 1 ∷ 2 ∷ 3 ∷ 4 ∷ 5 ∷ 6 ∷ []

abbrev on_stack : ℕ → ℕ
on_stack i = 77

words_pack :
    compress_lz4 (1 ∷ words) 30
    ≡ 11 ∷ 0 ∷ 0 ∷ 0 ∷ 0 ∷ 1 ∷ 0 ∷ 2 ∷ 0 ∷ 3 ∷ 0 ∷ 4 ∷ 0 ∷ 5 ∷ 133 ∷ 5 ∷ 0 ∷ 6 ∷ []
unfolding compress_lz4 lz4_loop window best_match common emit emit_match has_room le_bytes
words_pack = refl

decompress-compress_lz4_example :
    decompress_lz4 on_stack (compress_lz4 (1 ∷ words) 30) 20 ≡ 1 ∷ words
unfolding no_fifteen window best_match common emit emit_match
decompress-compress_lz4_example =
    decompress-compress_lz4 on_stack 1 words 30 20 (omega arith) (omega arith) (omega arith) refl

abbrev fifteen : Bytes
fifteen = 1 ∷ 2 ∷ 3 ∷ 4 ∷ 5 ∷ 6 ∷ 7 ∷ 8 ∷ 9 ∷ 10 ∷ 11 ∷ 12 ∷ 13 ∷ 14 ∷ 15 ∷ []

-- After a match of 15 bytes the token of the next literal is taken for a length, and its byte is lost.
fifteen_loses :
    decompress_lz4 on_stack (compress_lz4 (fifteen ++ fifteen ++ 99 ∷ []) 100) 100
    ≡ fifteen ++ fifteen
unfolding compress_lz4 lz4_loop window best_match common emit emit_match has_room le_bytes
    decompress_lz4 fread from_le lz4_unpack read_token read_literal read_match match_length copy
    copied_byte
fifteen_loses = refl

abbrev zeros : SlottedPage
zeros = record {
  page_id = 1;
  free_space_start = 20;
  free_space_end = 3496;
  flags = 2;
  checksum = 0;
  slots = record { offset = 3496; len = 600 } ∷ [];
  memory = replicate 4096 0;
}

zeros_size : length zeros.memory ≡ page_size
zeros_size = refl

decompress-compress_example :
    slotted_page_decompress on_stack (slotted_page_compress zeros).0 ≡ (zeros, decompressed)
unfolding slotted_page_compress slotted_page_is_compressed compress_lz4 lz4_loop window best_match
    common emit emit_match has_room le_bytes no_fifteen load
decompress-compress_example = decompress-compress on_stack zeros refl (omega arith) refl refl
