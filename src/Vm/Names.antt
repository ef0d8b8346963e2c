-- ===== src/Vm/Names.antt =====
-- The names of the patterns and of the ways to dispatch, read and written.
use Prim.Native.String.{String}
use text.Mathlib.TextEquality.{eq_iff}
use linux.Base.{◌≡◌, ◌≢◌, ◌↔◌, true, arith}
use linux.Vm.{Pattern, predictable, random, pattern_name, parse_pattern}
use linux.Vm.Interp.{DispatchMode, switch, computed, dispatch_name, parse_dispatch}

pattern_names_differ : ◌≢◌ {A = String} "predictable" "random"
pattern_names_differ e = cc

mode_names_differ : ◌≢◌ {A = String} "switch" "computed"
mode_names_differ e = cc

-- A name is accepted as a pattern exactly when it is that pattern's name.
pub parse_pattern_iff :
    (name : String) (pattern : Pattern)
    → (parse_pattern name ≡ (pattern, true)) ↔ (name ≡ pattern_name pattern)
unfolding parse_pattern pattern_name
parse_pattern_iff name predictable =
    ground (arith, eq_iff name "predictable", eq_iff name "random", pattern_names_differ)
parse_pattern_iff name random =
    ground (arith, eq_iff name "predictable", eq_iff name "random", pattern_names_differ)

-- A name is accepted as a way to dispatch exactly when it is that way's name.
pub parse_dispatch_iff :
    (name : String) (mode : DispatchMode)
    → (parse_dispatch name ≡ (mode, true)) ↔ (name ≡ dispatch_name mode)
unfolding parse_dispatch dispatch_name
parse_dispatch_iff name switch =
    ground (arith, eq_iff name "switch", eq_iff name "computed", mode_names_differ)
parse_dispatch_iff name computed =
    ground (arith, eq_iff name "switch", eq_iff name "computed", mode_names_differ)
