-- ===== src/Tests/Text.antt =====
-- The theorems on `src/strings.c` at concrete inputs.
use yawnix.Base.{◌^◌, ◌-◌, arith}
use yawnix.Strings.{Buffer, uint_to_string, uint_to_string_hex, int_to_string, int_to_string_hex}
use yawnix.Strings.Chars.{digit_char}
use yawnix.Strings.Printed.{Printed, Negative}
use yawnix.Strings.Numbers.{uint_to_string-Printed, int_to_string-Printed, int_to_string-Negative}

abbrev counting : Buffer
counting k = k

uint_to_string-Printed_example :
    Printed 10 digit_char 0 2026 counting (uint_to_string counting 2026)
    × Printed 16 digit_char 0 2026 counting (uint_to_string_hex counting 2026)
uint_to_string-Printed_example = uint_to_string-Printed counting 2026 (omega arith)

int_to_string-Printed_example :
    Printed 10 digit_char 0 45 counting (int_to_string counting 45)
    × Printed 16 digit_char 0 45 counting (int_to_string_hex counting 45)
int_to_string-Printed_example = int_to_string-Printed counting 45 (omega arith)

int_to_string-Negative_example :
    Negative 10 digit_char 45 counting (int_to_string counting (2 ^ 32 - 45))
    × Negative 16 digit_char 45 counting (int_to_string_hex counting (2 ^ 32 - 45))
int_to_string-Negative_example = int_to_string-Negative counting 45 (omega arith) (omega arith)
