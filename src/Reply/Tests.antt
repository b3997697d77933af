-- ===== src/Reply/Tests.antt =====
-- The theorems of reply.rs at concrete inputs.
use sans_effort.Shared.{some, ok}
use sans_effort.Codec.Shapes.{Shape, Holds}

abbrev reply_shape : Shape
reply_shape = Shape.result (Shape.option Shape.u64) Shape.u8

abbrev seven : Holds reply_shape
seven = ok (some 7)
