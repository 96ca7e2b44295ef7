-- ===== src/Decimal/Examples.antt =====
-- Amounts that are read and printed.
use logchain.Prelude.{◌≡◌, refl, none, some, codes, trim}
use logchain.Decimal.RoundTrip.{ReadsBack, format_dec-ReadsBack}
use logchain.Decimal.{pos, negsuc, parse_dec, div_int, format_dec, from_units}

-- The example of the source's comment.
parse_dec_run : parse_dec (some (codes " 0.0000625 ")) ≡ some (from_units (pos 625) 7)
unfolding parse_dec from_units trim
parse_dec_run = refl

parse_dec_refused :
    (parse_dec (some (codes "1.")) ≡ none) × (parse_dec (some (codes "1.2.3")) ≡ none)
unfolding parse_dec trim
parse_dec_refused = (refl, refl)

format_dec_run :
    (format_dec (from_units (pos 78156) 8) ≡ codes "0.00078156")
    × (format_dec (from_units (pos 2500) 2) ≡ codes "25")
unfolding format_dec from_units
format_dec_run = (refl, refl)

-- A negative amount, and its text.
negative_run :
    (format_dec (from_units (negsuc 149) 2) ≡ codes "-1.5")
    × (parse_dec (some (codes "-1")) ≡ none)
    × (format_dec (div_int (from_units (negsuc 6) 0) 2 0) ≡ codes "-3")
unfolding format_dec from_units parse_dec div_int trim
negative_run = (refl, refl, refl)

-- A third, cut off.
div_int_run : format_dec (div_int (from_units (pos 1) 0) 3 4) ≡ codes "0.3333"
unfolding format_dec div_int from_units
div_int_run = refl

format_dec-ReadsBack_example : ReadsBack (record { int = pos 2500; scale = 3 })
format_dec-ReadsBack_example = format_dec-ReadsBack (record { int = pos 2500; scale = 3 })
