-- ===== src/Bindings/Texts.antt =====
-- The comparison and the search of texts of the standard library, apart from those of numbers.
use Prim.Native.String.{String}
use mathlib.Core.Bool.{Bool, true, false}
use mathlib.Core.Option.{none, some}
use text.Mathlib.Text.{◌==◌, find?}

abbrev pub same_text : String → String → Bool
same_text s t = s == t

abbrev pub contains_text : String → String → Bool
contains_text s t = elim (find? s t) [ none ↦ false | some _ ↦ true ]
