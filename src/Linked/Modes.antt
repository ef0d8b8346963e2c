-- ===== src/Linked/Modes.antt =====
-- The ways to allocate a list, and their names: list.h and alloc.c.
use Prim.Native.String.{String}
use text.Mathlib.Text.{◌==◌ as str_eq}
use linux.Base.{◌≡◌, refl, Option, none, some, ◌||◌, if◌then◌else◌}

pub data AllocMode : Type 0 where
  alloc_contiguous alloc_malloc alloc_shuffle alloc_page_spread : AllocMode

unfoldable pub alloc_mode_name : AllocMode → String
alloc_mode_name alloc_contiguous = "contiguous"
alloc_mode_name alloc_malloc = "malloc"
alloc_mode_name alloc_shuffle = "shuffle"
alloc_mode_name alloc_page_spread = "page_spread"

-- What is stored in `*mode_out`; `none` where the result is -1. Both pointers are there.
unfoldable pub parse_alloc_mode : String → Option AllocMode
parse_alloc_mode text =
    if str_eq text "contiguous"
    then some alloc_contiguous
    else if str_eq text "malloc" || str_eq text "malloc_per_node"
    then some alloc_malloc
    else if str_eq text "shuffle" || str_eq text "malloc_shuffle"
    then some alloc_shuffle
    else if str_eq text "page_spread" || str_eq text "spread"
    then some alloc_page_spread
    else none

-- The name of a mode is read as that mode.
parse_alloc_mode-alloc_mode_name :
    (mode : AllocMode) → parse_alloc_mode (alloc_mode_name mode) ≡ some mode
unfolding parse_alloc_mode alloc_mode_name
parse_alloc_mode-alloc_mode_name alloc_contiguous = refl
parse_alloc_mode-alloc_mode_name alloc_malloc = refl
parse_alloc_mode-alloc_mode_name alloc_shuffle = refl
parse_alloc_mode-alloc_mode_name alloc_page_spread = refl
