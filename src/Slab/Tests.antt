-- ===== src/Slab/Tests.antt =====
-- The layout of slabs for the objects of two caches, of src/alloc.c.
use files_co.Base.{◌≡◌, refl, some, arith}
use files_co.Slab.{Layout, align_up, layout_setup}
use files_co.Slab.Fitting.{Fitting, layout_setup-Fitting}

layout_of_small :
    layout_setup 64 64
    ≡ some
        (record { meta_offs = 4048; obj_count = 63; mask_words = 1; obj_size = 64; pool_order = 0 })
unfolding layout_setup
layout_of_small = refl

layout_setup-Fitting_example :
    (l : Layout) × (layout_setup 200 64 ≡ some l) × Fitting (align_up 200 64) l
layout_setup-Fitting_example = layout_setup-Fitting 200 64 (omega arith) (omega arith)
