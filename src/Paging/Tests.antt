-- ===== src/Paging/Tests.antt =====
-- A page entry at work.
use matanos.Base.{◌≡◌, refl}
use matanos.Paging.{page_of, page_in}

page_of_runs :
    page_of 0x5027
    ≡ record { present = 1; rw_flag = 1; user = 1; accessed = 0; dirty = 0; unused = 1; frame = 5 }
unfolding page_of
page_of_runs = refl

page_in_runs : page_in 0x101000 0xC0003ABC ≡ 0x10100C
unfolding page_in
page_in_runs = refl
