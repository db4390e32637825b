-- ===== src/Tests/Descriptors.antt =====
-- The theorem on the descriptors of `src/i386/i386.h` at a concrete input.
use yawnix.Base.{arith}
use yawnix.Segments.{SegmentFlags, segment_descriptor_init}
use yawnix.Segments.RoundTrip.{Fits, Describes, segment_descriptor_init-Describes}

abbrev user_flags : SegmentFlags
user_flags = record {
  descriptor_type = 1;
  privilege_level = 3;
  present = 1;
  limit_high = 0xf;
  avl = 0;
  l = 0;
  db = 1;
  granularity = 1;
}

user_flags-Fits : Fits user_flags
user_flags-Fits = record {
  descriptor_type = omega arith;
  privilege_level = omega arith;
  present = omega arith;
}

segment_descriptor_init-Describes_example :
    Describes (segment_descriptor_init 0xc020_1000 0x54321 9 user_flags) 0xc020_1000 0x54321
segment_descriptor_init-Describes_example =
    segment_descriptor_init-Describes 0xc020_1000 0x54321 (omega arith) (omega arith) 9 user_flags
      user_flags-Fits
