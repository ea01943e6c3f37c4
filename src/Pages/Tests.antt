-- ===== src/Pages/Tests.antt =====
-- The theorems on pages at concrete areas.
use simple_parallel.Prelude.{◌+◌, ◌/◌, ◌%◌, ◌^◌, ◌≡◌, ◌↔◌, ◌⊎◌, refl, true, some, none, arith}
use simple_parallel.Types.{MemArea, PteRange}
use simple_parallel.Pages.{
  Pte, is_dirty, is_touched, memarea2pgrng, memarea2innerpgrng, pgrng2memarea,
}
use simple_parallel.Pages.Bounds.{
  IsArea, InRange, InInner, Meets, Holds, HasPage, page_ranges_iff, pgrng_roundtrip,
}
use simple_parallel.Pages.Entry.{entry_bits}

abbrev buffer : MemArea
buffer = record { addr = 5000; size = 10000 }

buffer_pages :
    (memarea2pgrng 4096 buffer ≡ record { begin = 1; count = 3 })
    × (memarea2innerpgrng 4096 buffer ≡ some (record { begin = 2; count = 1 }))
    × (memarea2innerpgrng 4096 (record { addr = 5000; size = 40 }) ≡ none)
unfolding memarea2pgrng memarea2innerpgrng
buffer_pages = (refl, refl, refl)

buffer-IsArea : IsArea buffer
buffer-IsArea = omega arith

page_ranges_iff_example :
    (InRange 2 (memarea2pgrng 4096 buffer) ↔ Meets 4096 2 buffer)
    × (InInner 2 (memarea2innerpgrng 4096 buffer) ↔ Holds 4096 2 buffer)
    × HasPage (memarea2innerpgrng 4096 buffer)
page_ranges_iff_example = page_ranges_iff 4096 (omega arith) buffer 2 buffer-IsArea

abbrev pages : PteRange
pages = record { begin = 7; count = 3 }

pgrng_roundtrip_example :
    (memarea2pgrng 4096 (pgrng2memarea 4096 pages) ≡ pages)
    × (memarea2innerpgrng 4096 (pgrng2memarea 4096 pages) ≡ some pages)
pgrng_roundtrip_example =
    pgrng_roundtrip 4096 (omega arith) pages (omega arith) (omega arith) (omega arith)

abbrev entry : Pte
entry = record { entry = 2 ^ 62 + 2 ^ 55 + 77 }

entry_bits_example :
    ((is_dirty entry ≡ true) ↔ (entry.entry / 2 ^ 55 % 2 ≡ 1))
    × ((is_touched entry ≡ true)
        ↔ ((entry.entry / 2 ^ 63 % 2 ≡ 1) ⊎ (entry.entry / 2 ^ 62 % 2 ≡ 1)))
entry_bits_example = entry_bits entry
