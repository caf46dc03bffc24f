-- ===== src/Stext/Tests.antt =====
-- A table with the slots 0 and 2, and a file of five bytes.
use nabud.Prelude.{true, ℕ, ◌-◌, ◌^◌, ◌≡◌, refl, arith, List, [], ◌∷◌, none, some}
use nabud.Stext.{StextFile, Backing, fileio, shadow, ok, error, ebusy, any_slot}
use nabud.Stext.{stext_file_insert, stext_file_find, find_loop, insert_lowest, insert_requested}
use nabud.Stext.Insert.{LowestPost}
use nabud.Stext.Slots.{RequestedPost, insert_any, insert_at}
use nabud.Stext.Files.{
  Round, short, interrupted, stext_file_pread, stext_file_pwrite, stext_fileop_pread_fileio,
  stext_fileop_read_shadow, stext_fileop_pread_shadow,
}
use nabud.Stext.Transfer.{pread-span, pread_cut}
use nabud.Stext.Seek.{
  pos, negsuc, seek_end, wanted, Reaches, seek_in_shadow, stext_file_seek, stext_fileop_seek_shadow,
  to_int32, seek_in_shadow-Reaches,
}
use nabud.Stext.RoundTrip.{pwrite-pread}
use nabud.Stext.Open.{StextContext, opened, stext_file_open}
use nabud.Stext.Handles.{OpenPost, open-Balanced}

abbrev at_slot : ℕ → StextFile
at_slot slot = record { slot = slot; backing = fileio [] }

abbrev table : List StextFile
table = at_slot 0 ∷ at_slot 2 ∷ []

-- The lowest free slot is 1.
fills_gap :
    stext_file_insert (at_slot 9) any_slot table ≡ ok (at_slot 0 ∷ at_slot 1 ∷ at_slot 2 ∷ [])
unfolding stext_file_insert insert_lowest
fills_gap = refl

refuses_taken : stext_file_insert (at_slot 9) 2 table ≡ error ebusy
unfolding stext_file_insert insert_requested
refuses_taken = refl

finds : stext_file_find 2 table ≡ some (at_slot 2)
unfolding stext_file_find find_loop
finds = refl

reads_at_cursor :
    stext_fileop_read_shadow (1 ∷ 2 ∷ 3 ∷ []) 1 9 ≡ (ok (2 ∷ 3 ∷ [], 2), shadow (1 ∷ 2 ∷ 3 ∷ []) 3)
unfolding stext_fileop_read_shadow stext_fileop_pread_shadow
reads_at_cursor = refl

insert_any_example : LowestPost 0 (at_slot 9) table (stext_file_insert (at_slot 9) any_slot table)
insert_any_example =
    insert_any (at_slot 9) table (omega arith, omega arith, (omega arith, omega arith, tt))

insert_at_example : RequestedPost 0 (at_slot 2) table (stext_file_insert (at_slot 9) 2 table)
insert_at_example =
    insert_at (at_slot 9) 2 table (omega arith, omega arith, (omega arith, omega arith, tt))
      (omega arith)

abbrev rounds : List Round
rounds = short 0 ∷ interrupted ∷ []

abbrev five : List ℕ
five = 1 ∷ 2 ∷ 3 ∷ 4 ∷ 5 ∷ []

pread-span_example : stext_fileop_pread_fileio rounds five 1 3 ≡ ok (2 ∷ 3 ∷ 4 ∷ [], 3)
pread-span_example = pread-span rounds five 1 3 tt (omega arith)

-- At the last byte that can be addressed nothing is stored, and 2 bytes are reported.
pread_cut_example : stext_fileop_pread_fileio rounds [] (2 ^ 32 - 1) 2 ≡ ok ([], 2)
pread_cut_example = pread_cut rounds [] (2 ^ 32 - 1) 2 tt (omega arith) (omega arith)

pwrite-pread_example :
    (file : Backing) × (stext_file_pwrite rounds (fileio five) 4 (7 ∷ 8 ∷ []) ≡ (none, file))
    × (stext_file_pread rounds file 4 2 ≡ ok (7 ∷ 8 ∷ [], 2))
pwrite-pread_example = pwrite-pread rounds rounds five 4 7 (8 ∷ []) tt tt (omega arith)

abbrev context : StextContext
context = record { files = table; handles = 2 }

open-Balanced_example :
    OpenPost true
      (opened five 5 true)
      1
      context
      (stext_file_open true (opened five 5 true) 1 context)
open-Balanced_example = open-Balanced true (opened five 5 true) 1 context refl (omega arith)

-- Two bytes back from the end.
seek_in_shadow-Reaches_example :
    Reaches five 5 9 (wanted five 5 (negsuc 1) seek_end) (seek_in_shadow five 5 (negsuc 1) seek_end)
seek_in_shadow-Reaches_example =
    seek_in_shadow-Reaches five 5 9 (negsuc 1) seek_end (omega arith) (omega arith) (omega arith)
      (omega arith)

seeks_back : seek_in_shadow five 5 (negsuc 1) seek_end ≡ (ok (pos 3), 3)
unfolding stext_file_seek stext_fileop_seek_shadow to_int32
seeks_back = refl
