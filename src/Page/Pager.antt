-- ===== src/Page/Pager.antt =====
-- The page file (src/pager.c, include/pager.h). The file is its bytes, and its operations succeed;
-- `FILE *` and the name are left out of the record.
pub mod ReadWrite
use inventixdb.Base.{
  ℕ, zero, suc, ◌+◌, ◌-◌, ◌*◌, ◌/◌, ◌%◌, ◌^◌, [], ◌∷◌, ◌++◌, Bytes, leb, if◌then◌else◌, length,
  drop, replicate, load,
}

abbrev pub page_size : ℕ
page_size = 4096

abbrev pub table_max_pages : ℕ
table_max_pages = 100

-- `Pager`
pub record Pager : Type 0 where
  pub file : Bytes
  pub file_length : ℕ
  pub num_pages : ℕ

-- `page_num * PAGE_SIZE` in `uint32_t`
abbrev pub page_offset : ℕ → ℕ
page_offset p = (p * page_size) % 2 ^ 32

-- The length of the file as `uint32_t`, and the pages in it.
abbrev measured : Bytes → Pager
measured f = record {
  file = f;
  file_length = length f % 2 ^ 32;
  num_pages = (length f % 2 ^ 32) / page_size;
}

-- `pager_open`, of a file with these bytes (none, if it was just created)
unfoldable pub pager_open : Bytes → Pager
pager_open f = measured f

-- `fread` of up to a page, and zeros for the rest. `garbage` is what the caller's buffer held.
unfoldable pub pager_read : Pager → ℕ → Bytes → Bytes
pager_read g p garbage =
    if leb table_max_pages p
    then garbage
    else (let got = load (page_offset p) page_size g.file in
        got ++ replicate (page_size - length got) 0)

-- `fseek` and `fwrite`: a write behind the end of the file fills the gap with zeros.
unfoldable pub write_at : ℕ → Bytes → Bytes → Bytes
write_at zero bs m = bs ++ drop (length bs) m
write_at (suc off) bs [] = 0 ∷ write_at off bs []
write_at (suc off) bs (x ∷ m) = x ∷ write_at off bs m

-- `pager_write`
unfoldable pub pager_write : Pager → ℕ → Bytes → Pager
pager_write g p page = record g { file = write_at (page_offset p) page g.file }

-- `pager_get_num_pages`, with the record that it refreshes
unfoldable pub pager_get_num_pages : Pager → Pager × ℕ
pager_get_num_pages g = (measured g.file, (measured g.file).num_pages)
